-- ===== src/Engine/Faults/Batch.antt =====
-- `batch` when calls may fail: all of its operations or none.
use wfl_db.Engine.Refinement.{bucket_of}
use wfl_db.Engine.Invariant.{IsBucket}
use wfl_db.Engine.Refinement.Operations.{result_of, run_ops, AllSerialise, Contents}
use wfl_db.Engine.Bucket.Store.{Refs}
use wfl_db.Engine.Objects.{Objects}
use wfl_db.Engine.Storage.{batch, commit_batch}
use wfl_db.Core.Types.{BatchResult, BatchOperation, Stamp, ContentHash}
use wfl_db.Core.BucketId.{BucketId}
use wfl_db.Engine.Bucket.{partition_name, StorageEngine}
use wfl_db.Engine.Faults.{Triple-pure, Triple-persist, Triple-bind, Result, Triple, Faults}
use wfl_db.Engine.Platform.{call, apply_batch, BatchItem, View, Platform}
use wfl_db.Engine.Bucket
use wfl_db.Engine.Faults.Get.{new-Triple}
use wfl_db.Engine.Refinement.Planned.{plan_all-Planned}
use wfl_db.Prelude.{refl, inr, map, inl, [], ◌≡◌, ◌⊎◌, ℕ, List, Bytes}

module _ (platform : Platform) (faults : Faults platform) (engine : StorageEngine) (id : BucketId)
    (blob : ContentHash → Bytes) where
  open platform use {Db, persist}

  Triple-commit_batch :
      (Q : Unit {0} → View → Type 0) (E : View → Type 0) (items : List BatchItem) (v : View)
      → Q tt (apply_batch items v)
      → E v
      → Triple platform faults (commit_batch platform items) v Q E
  unfolding commit_batch
  Triple-commit_batch Q E items v q x d e = elim (faults.commit_law items d) [
    | inl (h, s) ↦ rw (h, s, e) q
    | inr (_, h, s) ↦ rw (h, s, e) x
  ]

  module _ (objs : Objects) (leaked : Refs) (clock : ℕ → Stamp) (ops : List BatchOperation) where
    abbrev pub before : Contents
    before = record { objects = objs; leaked = leaked }

    abbrev pub after : Contents
    after = run_ops platform engine clock 0 ops before

    abbrev pub Old : View → Type 0
    Old w = IsBucket platform (partition_name id) blob objs leaked w

    abbrev pub New : View → Type 0
    New w = IsBucket platform (partition_name id) blob after.objects after.leaked w

    abbrev pub Applied : List BatchResult → View → Type 0
    Applied results w = (results ≡ map (result_of platform engine) ops) × New w

    abbrev pub AllOrNone : View → Type 0
    AllOrNone w = Old w ⊎ New w

    batch-Triple :
        (v : View)
        → Old v
        → AllSerialise platform engine clock 0 ops
        → Triple platform faults (batch platform clock engine id ops) v Applied AllOrNone
    unfolding batch
    batch-Triple v old h =
        let p =
          plan_all-Planned platform engine id blob faults.from_slice-to_vec clock 0 ops [] [] before
            v old h in
        let w : View = apply_batch p.added v in
        let results : List BatchResult = map (result_of platform engine) ops in
        Triple-bind platform faults (λ b w. (b ≡ bucket_of engine id) × (w ≡ v)) Applied AllOrNone
          (Bucket.new platform engine id) _ v
          (new-Triple platform faults engine id AllOrNone v (inl old))
          (λ b w' q.
            rw (q.0, q.1, p.planned)
              (Triple-bind platform faults (λ _ u. u ≡ w) Applied AllOrNone
                (commit_batch platform p.added) _ v
                (Triple-commit_batch (λ _ u. u ≡ w) AllOrNone p.added v refl (inl old))
                (λ _ u q'. rw q' (
                  Triple-bind platform faults (λ _ u'. u' ≡ w) Applied AllOrNone (call persist) _ w
                    (Triple-persist platform faults AllOrNone (λ _ u'. u' ≡ w) w refl (inr p.holds))
                    (λ _ u' q''.
                      rw q'' (
                        Triple-pure platform faults Applied AllOrNone results w
                          (refl, p.holds)))))))

    -- `batch` of operations whose metadata can be serialised, when any of its calls may fail: a
    -- success returns a result for each operation, and the bucket then holds what all of them make
    -- of the map; after an error or a panic the bucket holds that map or the old one.
    pub batch-AllOrNone :
        (d : Db)
        → Old (faults.view d)
        → AllSerialise platform engine clock 0 ops
        → Result Applied AllOrNone
            (batch platform clock engine id ops d).0
            (faults.view (batch platform clock engine id ops d).1)
    batch-AllOrNone d b h = batch-Triple (faults.view d) b h d refl
