-- ===== src/Engine/Interleaving.antt =====
-- One call among others: between any two of its accesses to the keyspace other calls may run. The
-- calls of wfldb-engine take no lock; each access by itself is atomic in fjall.
pub mod Spares
pub mod Meanwhile
pub mod Reads
pub mod Snapshot
pub mod Vanishing
pub mod Around
pub mod Race
use wfl_db.Engine.Platform.{Platform}
use wfl_db.Prelude.{List, [], ◌∷◌}

-- What the others do before each next access of the call.
abbrev pub Others : Type 0 → Type 0
Others D = List (D → D)

module _ {D : Type 0} where
  abbrev pub now : D × Others D → D
  now (d, []) = d
  now (d, o ∷ os) = o d

  abbrev pub later : D × Others D → Others D
  later (d, []) = []
  later (d, o ∷ os) = os

  -- An access, after the others' turn.
  abbrev pub turn : {A : Type 0} → (D → A × D) → D × Others D → A × (D × Others D)
  turn f dx = let (a, d') = f (now dx) in (a, (d', later dx))

-- The keyspace as a call meets it that runs among others. A range is read as it was when it began.
abbrev pub shared : Platform → Platform
shared platform = record {
  Db = platform.Db × Others platform.Db;
  open_partition = λ p. turn (platform.open_partition p);
  get = λ p k. turn (platform.get p k);
  insert = λ p k x. turn (platform.insert p k x);
  remove = λ p k. turn (platform.remove p k);
  range_from = λ p k dx. platform.range_from p k (now dx);
  commit = λ items. turn (platform.commit items);
  persist = turn platform.persist;
  hash = platform.hash;
  to_vec = platform.to_vec;
  from_slice = platform.from_slice;
}
