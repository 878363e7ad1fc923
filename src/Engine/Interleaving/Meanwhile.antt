-- ===== src/Engine/Interleaving/Meanwhile.antt =====
-- A call that reads, while the others keep what it relies on.
use wfl_db.Engine.Limits.{ShortName-NameFits, ShortName}
use wfl_db.Engine.Invariant.{IsBucket}
use wfl_db.Engine.Storage.{collect_chunks}
use wfl_db.Engine.Refinement.{bucket_of}
use wfl_db.Engine.Effect.{get_At, open_partition-Ends, At}
use wfl_db.Core.BucketId.{BucketId}
use wfl_db.Engine.Bucket.{
  data_key, metadata_key, chunk_key, get_small, get_chunk, get_metadata, partition_name,
  StorageEngine,
}
use wfl_db.Engine.Platform.{call, View, Laws, Platform}
use wfl_db.Engine.Bucket
use wfl_db.Engine.Faults.Readable.{Stored}
use wfl_db.Engine.History.{after, Command, Buckets, after_all, AllFit, HoldsAll, run_all}
use wfl_db.Engine.History.Step.{run_all-Follows}
use wfl_db.Engine.Interleaving.{Others, now, later, shared}
use wfl_db.Core.Outcome.{ok, Outcome}
use wfl_db.Core.Types.{ContentHash}
use wfl_db.Prelude.{
  append_assoc, append-nil, ◌++◌, flatten, some, All, refl, ◌≡◌, [], ◌∷◌, Option, Bytes, map, List,
  Str,
}

module _ (platform : Platform) (engine : StorageEngine) where
  -- Each of the others' turns is a list of whole calls.
  abbrev pub turns : List (List Command) → Others platform.Db
  turns = map (λ cs d. (run_all platform engine cs d).1)

module _ (platform : Platform) (engine : StorageEngine) (blob : ContentHash → Bytes)
    (Fine : Command → Type 0) where
  abbrev pub AllFine : List Command → Type 0
  AllFine [] = Unit
  AllFine (c ∷ cs) = Fine c × AllFine cs

  -- The others' calls have their preconditions one after another, and each is a fine one.
  abbrev pub Allowed : List (List Command) → Buckets → Type 0
  Allowed [] s = Unit
  Allowed (cs ∷ css) s =
      AllFit platform engine blob cs s
      × AllFine cs
      × Allowed css (after_all platform engine blob cs s)

-- What a call relies on: a condition on the contents of the buckets that the others' calls keep.
pub record Rely (platform : Platform) (engine : StorageEngine) (blob : ContentHash → Bytes)
    : Type 1 where
  pub Fine : Command → Type 0
  pub Good : Buckets → Type 0
  pub keep : (c : Command) (s : Buckets) → Fine c → Good s → Good (after platform engine blob c s)

module _ (platform : Platform) (laws : Laws platform) (engine : StorageEngine)
    (blob : ContentHash → Bytes) (id : BucketId) (named : ShortName id)
    (rely : Rely platform engine blob) where
  open rely use {Fine, Good, keep}
  open platform use {Db}

  abbrev p : Str
  p = partition_name id

  keep_all :
      (cs : List Command) (s : Buckets)
      → AllFine platform engine blob Fine cs
      → Good s
      → Good (after_all platform engine blob cs s)
  keep_all [] s h g = g
  keep_all (c ∷ cs) s h g = keep_all cs _ h.1 (keep c s h.0 g)

  -- The keyspace holds good maps of all buckets, and the others still have turns.
  pub record Meanwhile (dx : Db × Others Db) : Type 0 where
    pub contents_now : Buckets
    pub view : View
    pub css : List (List Command)
    pub state : At platform laws dx.0 view
    pub holds : HoldsAll platform engine blob contents_now view
    pub others : dx.1 ≡ turns platform engine css
    pub allowed : Allowed platform engine blob Fine css contents_now
    pub good : Good contents_now

  pub Meanwhile-turn : (dx : Db × Others Db) → Meanwhile dx → Meanwhile (now dx, later dx)
  Meanwhile-turn (d, os) m = rw m.others (with_turns m.css m.allowed)
    where
      with_turns :
          (css : List (List Command))
          → Allowed platform engine blob Fine css m.contents_now
          → Meanwhile (now (d, turns platform engine css), later (d, turns platform engine css))
      with_turns [] h = record {
        contents_now = m.contents_now;
        view = m.view;
        css = [];
        state = m.state;
        holds = m.holds;
        others = refl;
        allowed = tt;
        good = m.good;
      }
      with_turns (cs ∷ css) (fit, spare, rest) =
          let r = run_all-Follows platform laws engine blob cs d m.state m.holds fit in
          record {
            contents_now = after_all platform engine blob cs m.contents_now;
            view = r.view;
            css = css;
            state = r.state;
            holds = r.holds;
            others = refl;
            allowed = rest;
            good = keep_all cs m.contents_now spare m.good;
          }

  pub record Returns {A : Type 0} (r : Outcome A × (Db × Others Db)) (out : Outcome A)
      : Type 0 where
    pub outcome : r.0 ≡ out
    pub still : Meanwhile r.1

  pub Returns-pure :
      {A : Type 0} (out : Outcome A) (dx : Db × Others Db) → Meanwhile dx → Returns (out, dx) out
  Returns-pure out dx m = record { outcome = refl; still = m }

  -- A cell that holds the same in every good state.
  pub cell-Returns :
      (k : Bytes) (y : Option Bytes) (dx : Db × Others Db)
      → Meanwhile dx
      → ((s : Buckets) (v : View)
          → Good s
          → IsBucket platform p blob (s id).objects (s id).leaked v
          → v p k ≡ y)
      → Returns (call ((shared platform).get p k) dx) (ok y)
  cell-Returns k y dx m same =
      let n = Meanwhile-turn dx m in
      let e = get_At platform laws p k (now dx) n.state in
      let read = same _ n.view n.good (n.holds.buckets id named) in
      record { outcome = rw (e, read) refl; still = rw e n }

  pub new-Returns :
      (dx : Db × Others Db)
      → Meanwhile dx
      → Returns (Bucket.new (shared platform) engine id dx) (ok (bucket_of engine id))
  unfolding Bucket.new
  new-Returns dx m =
      let n = Meanwhile-turn dx m in
      let r = open_partition-Ends platform laws p (now dx) (ShortName-NameFits id named) n.state in
      rw r.outcome (
        Returns-pure _ _ (record {
          contents_now = n.contents_now;
          view = n.view;
          css = n.css;
          state = r.state;
          holds = n.holds;
          others = n.others;
          allowed = n.allowed;
          good = n.good;
        }))

  -- The chunks of `hs` are there in every good state.
  abbrev pub There : List ContentHash → Type 0
  There hs =
      (s : Buckets) (v : View)
      → Good s
      → IsBucket platform p blob (s id).objects (s id).leaked v
      → All (Stored platform p blob v) hs

  pub collect_chunks-Returns :
      (hs : List ContentHash) (bytes : Bytes) (dx : Db × Others Db)
      → Meanwhile dx
      → There hs
      → Returns
          (collect_chunks (shared platform) (bucket_of engine id) hs bytes dx)
          (ok (bytes ++ flatten (map blob hs)))
  unfolding collect_chunks get_chunk flatten
  collect_chunks-Returns [] bytes dx m there = rw (append-nil bytes) (Returns-pure _ dx m)
  collect_chunks-Returns (h ∷ hs) bytes dx m there =
      let r = cell-Returns (chunk_key h) (some (blob h)) dx m (λ s v g b. (there s v g b).0.1) in
      let rest =
        collect_chunks-Returns hs (bytes ++ blob h) _ r.still (λ s v g b. (there s v g b).1) in
      rw r.outcome (rw (append_assoc bytes (blob h) (flatten (map blob hs))) at rest)
