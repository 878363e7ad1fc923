-- ===== src/Engine/Faults.antt =====
-- A keyspace on which any call may fail, and what a sequence of calls then leaves.
pub mod Readable
pub mod Chunks
pub mod Get
pub mod Put
pub mod Small
pub mod Delete
pub mod Batch
use wfl_db.Core.Types.{ObjectMetadata}
use wfl_db.Core.Outcome.{
  Answer, failed, panic, err, continue, lift, done, ok, ◌>>=◌, pure, Exec, Outcome,
}
use wfl_db.Engine.Platform.{apply_batch, BatchItem, map_storage, write, call, View, Platform}
use wfl_db.Prelude.{List, refl, IsBytes, none, inr, inl, some, ◌⊎◌, Bytes, ◌≡◌, Option, Str, ℕ}

module _ (platform : Platform) where
  open platform use {
    Db, open_partition, get, insert as insert_call, remove as remove_call, commit, persist, hash,
    to_vec, from_slice,
  }

  -- A call that fails has no effect on what later calls read. Nothing says that a call succeeds; one
  -- beyond the limits of fjall does not return.
  pub record Faults : Type 1 where
    pub view : Db → View
    pub open_partition_law : (p : Str) (d : Db) → view (open_partition p d).1 ≡ view d
    pub get_law :
        (p : Str) (k : Bytes) (d : Db)
        → (get p k d ≡ (done (view d p k), d)) ⊎ ((e : Str) × (get p k d ≡ (failed e, d)))
    pub insert_law :
        (p : Str) (k x : Bytes) (d : Db)
        → (((insert_call p k x d).0 ≡ done tt)
            × (view (insert_call p k x d).1 ≡ write p k (some x) (view d)))
          ⊎ ((e : Str) × ((insert_call p k x d).0 ≡ failed e)
              × (view (insert_call p k x d).1 ≡ view d))
    pub remove_law :
        (p : Str) (k : Bytes) (d : Db)
        → (view (remove_call p k d).1 ≡ write p k none (view d))
          ⊎ ((e : Str) × ((remove_call p k d).0 ≡ failed e) × (view (remove_call p k d).1 ≡ view d))
    pub commit_law :
        (items : List BatchItem) (d : Db)
        → (((commit items d).0 ≡ done tt) × (view (commit items d).1 ≡ apply_batch items (view d)))
          ⊎ ((e : Str) × ((commit items d).0 ≡ failed e) × (view (commit items d).1 ≡ view d))
    pub persist_law : (d : Db) → view (persist d).1 ≡ view d
    pub hash_bytes : (bytes : Bytes) → IsBytes (hash bytes)
    pub from_slice-to_vec :
        (m : ObjectMetadata) (json : Bytes) → to_vec m ≡ done json → from_slice json ≡ done m

-- `Q` of the value and the contents after a success, `E` of the contents after an error or a panic.
abbrev pub Result : {A : Type 0} → (A → View → Type 0) → (View → Type 0) → Outcome A → View → Type 0
Result Q E (ok a) v = Q a v
Result Q E (err e) v = E v
Result Q E panic v = E v

module _ (platform : Platform) (faults : Faults platform) where
  open platform use {Db, open_partition, get, insert, remove, persist}

  -- From contents `v` the action `m` ends in `Q`, or fails in `E`.
  abbrev pub Triple :
      {A : Type 0} → Exec Db A → View → (A → View → Type 0) → (View → Type 0) → Type 0
  Triple m v Q E = (d : Db) → faults.view d ≡ v → Result Q E (m d).0 (faults.view (m d).1)

  module _ {A : Type 0} (Q : A → View → Type 0) (E : View → Type 0) where
    pub Triple-pure : (a : A) (v : View) → Q a v → Triple (pure a) v Q E
    Triple-pure a v q d e = rw e q

    pub Triple-lift :
        (r : Outcome A) (v : View) → ((a : A) → r ≡ ok a → Q a v) → E v → Triple (lift r) v Q E
    Triple-lift (ok a) v q x d e = rw e (q a refl)
    Triple-lift (err _) v q x d e = rw e x
    Triple-lift panic v q x d e = rw e x

    pub Triple-weaken :
        {Q' : A → View → Type 0} {E' : View → Type 0} (m : Exec Db A) (v : View)
        → Triple m v Q' E'
        → ((a : A) (w : View) → Q' a w → Q a w)
        → ((w : View) → E' w → E w)
        → Triple m v Q E
    Triple-weaken {Q'} {E'} m v t f g d e = weaken (m d).0 (t d e)
      where
        weaken :
            (r : Outcome A)
            → Result Q' E' r (faults.view (m d).1)
            → Result Q E r (faults.view (m d).1)
        weaken (ok a) h = f a _ h
        weaken (err _) h = g _ h
        weaken panic h = g _ h

  module _ {A B : Type 0} (Q : A → View → Type 0) (R : B → View → Type 0) (E : View → Type 0) where
    pub Triple-bind :
        (m : Exec Db A) (f : A → Exec Db B) (v : View)
        → Triple m v Q E
        → ((a : A) (w : View) → Q a w → Triple (f a) w R E)
        → Triple (m >>= f) v R E
    Triple-bind m f v t h d e = next (m d).0 (t d e)
      where
        next :
            (r : Outcome A)
            → Result Q E r (faults.view (m d).1)
            → Result R E (continue r f (m d).1).0 (faults.view (continue r f (m d).1).1)
        next (ok a) q = h a _ q (m d).1 refl
        next (err _) q = q
        next panic q = q

  module _ (E : View → Type 0) where
    -- A call that changes nothing, whether it fails or not.
    Triple-call :
        (Q : Unit {0} → View → Type 0) (f : Db → Answer (Unit {0}) × Db) (v : View)
        → ((d : Db) → faults.view (f d).1 ≡ faults.view d)
        → Q tt v
        → E v
        → Triple (call f) v Q E
    Triple-call Q f v same q x d e = rw (same d, e) (answered (f d).0)
      where
        answered : (a : Answer (Unit {0})) → Result Q E (map_storage a) v
        answered (done _) = q
        answered (failed _) = x

    pub Triple-open_partition :
        (Q : Unit {0} → View → Type 0) (p : Str) (v : View)
        → Q tt v
        → E v
        → Triple (call (open_partition p)) v Q E
    Triple-open_partition Q p v = Triple-call Q (open_partition p) v (faults.open_partition_law p)

    pub Triple-persist :
        (Q : Unit {0} → View → Type 0) (v : View) → Q tt v → E v → Triple (call persist) v Q E
    Triple-persist Q v = Triple-call Q persist v faults.persist_law

    pub Triple-get :
        (Q : Option Bytes → View → Type 0) (p : Str) (k : Bytes) (v : View)
        → Q (v p k) v
        → E v
        → Triple (call (get p k)) v Q E
    Triple-get Q p k v q x d e = elim (faults.get_law p k d) [
      | inl h ↦ rw (h, e) q
      | inr (_, h) ↦ rw (h, e) x
    ]

    pub Triple-insert :
        (Q : Unit {0} → View → Type 0) (p : Str) (k x : Bytes) (v : View)
        → Q tt (write p k (some x) v)
        → E v
        → Triple (call (insert p k x)) v Q E
    Triple-insert Q p k x v q y d e = elim (faults.insert_law p k x d) [
      | inl (h, s) ↦ rw (h, s, e) q
      | inr (_, h, s) ↦ rw (h, s, e) y
    ]
