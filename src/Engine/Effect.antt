-- ===== src/Engine/Effect.antt =====
-- Steps on a healthy keyspace, by their outcome and the contents that they leave.
use mathlib.Core.Path.{fun_ext}
use wfl_db.Prelude.{List, ◌≡◌, refl, ◌∙◌, some, none, Bytes, Str}
use wfl_db.Core.Outcome.{done, Outcome, ok}
use wfl_db.Engine.Platform.{
  apply_batch, BatchItem, Platform, Laws, View, write, call, NameFits, KeyFits, ItemsFit,
}

module _ (platform : Platform) (laws : Laws platform) where
  open platform use {Db, open_partition, get, insert, remove, commit, persist}

  -- `d` works, and holds `v`.
  pub record At (d : Db) (v : View) : Type 0 where
    pub healthy : laws.IsHealthy d
    pub reads : laws.view d ≡ v

  pub record Ends {A : Type 0} (r : Outcome A × Db) (out : Outcome A) (v : View) : Type 0 where
    pub outcome : r.0 ≡ out
    pub state : At r.1 v

  pub Ends-pure : {A : Type 0} (a : Outcome A) (d : Db) {v : View} → At d v → Ends (a, d) a v
  Ends-pure a d h = record { outcome = refl; state = h }

  view_ext : {v w : View} → ((q : Str) (j : Bytes) → v q j ≡ w q j) → v ≡ w
  view_ext h = fun_ext (λ q. fun_ext (h q))

  pub open_partition-Ends :
      (p : Str) (d : Db) {v : View}
      → NameFits p
      → At d v
      → Ends (call (open_partition p) d) (ok tt) v
  open_partition-Ends p d fits a =
      let (finished, healthy, reads) = laws.open_partition_law p d fits a.healthy in
      record {
        outcome = rw finished;
        state = record { healthy = healthy; reads = view_ext reads ∙ a.reads };
      }

  pub get_At : (p : Str) (k : Bytes) (d : Db) {v : View} → At d v → get p k d ≡ (done (v p k), d)
  get_At p k d a = rw (laws.get_law p k d a.healthy, a.reads)

  pub insert-Ends :
      (p : Str) (k x : Bytes) (d : Db) {v : View}
      → KeyFits k
      → At d v
      → Ends (call (insert p k x) d) (ok tt) (write p k (some x) v)
  insert-Ends p k x d fits a =
      let (finished, healthy, reads) = laws.insert_law p k x d fits a.healthy in
      record {
        outcome = rw finished;
        state = record { healthy = healthy; reads = view_ext reads ∙ rw a.reads };
      }

  pub remove_At :
      (p : Str) (k : Bytes) (d : Db) {v : View}
      → KeyFits k
      → At d v
      → At (remove p k d).1 (write p k none v)
  remove_At p k d fits a =
      let (finished, healthy, reads) = laws.remove_law p k d fits a.healthy in
      record { healthy = healthy; reads = view_ext reads ∙ rw a.reads }

  pub persist-Ends : (d : Db) {v : View} → At d v → Ends (call persist d) (ok tt) v
  persist-Ends d a =
      let (finished, healthy, reads) = laws.persist_law d a.healthy in
      record {
        outcome = rw finished;
        state = record { healthy = healthy; reads = view_ext reads ∙ a.reads };
      }

  pub commit_At :
      (items : List BatchItem) (d : Db) {v : View}
      → ItemsFit items
      → At d v
      → ((commit items d).0 ≡ done tt) × At (commit items d).1 (apply_batch items v)
  commit_At items d fits a =
      let (finished, healthy, reads) = laws.commit_law items d fits a.healthy in
      (finished, record { healthy = healthy; reads = view_ext reads ∙ rw a.reads })
