-- ===== src/Engine/Refinement/Batch.antt =====
-- A batch does to the map what its operations do one after another.
use wfl_db.Engine.Refinement.Operations.{KeysShort, result_of, run_ops, AllSerialise}
use wfl_db.Engine.Effect.{Ends-pure, persist-Ends, commit_At}
use wfl_db.Core.Types.{ContentHash, BatchOperation}
use wfl_db.Prelude.{map, [], List, Bytes, ℕ}
use wfl_db.Engine.Platform.{Platform, View, apply_batch, Laws}
use wfl_db.Engine.Bucket.{StorageEngine, partition_name}
use wfl_db.Engine.Bucket.Store.{Refs}
use wfl_db.Engine.Objects.{Objects}
use wfl_db.Engine.Invariant.{IsBucket}
use wfl_db.Engine.Refinement.{opened, Refines, At, ok, BucketId, Stamp}
use wfl_db.Engine.Refinement.Planned.{plan_all-Planned}
use wfl_db.Engine.Storage.{commit_batch, batch}

module _ (platform : Platform) (laws : Laws platform) (engine : StorageEngine) (id : BucketId)
    (blob : ContentHash → Bytes) where
  open platform use {Db}

  module _ {objs : Objects} {leaked : Refs} {v : View} (d : Db) (a : At platform laws d v)
      (b : IsBucket platform (partition_name id) blob objs leaked v) where
    -- On a healthy keyspace and for operations whose keys are within the limits and whose metadata
    -- can be serialised, `batch` returns a result for each operation, in order, and the bucket then
    -- holds what the operations make of the map one after another: a large object is refused and
    -- changes nothing, and the references of what a put or a deletion takes out are leaked. Other
    -- partitions are as they were.
    pub batch-Refines :
        (clock : ℕ → Stamp) (ops : List BatchOperation)
        → KeysShort ops
        → AllSerialise platform engine clock 0 ops
        → let s =
            run_ops platform engine clock 0 ops (record { objects = objs; leaked = leaked }) in
          Refines platform laws engine id blob
            (batch platform clock engine id ops d)
            (ok (map (result_of platform engine) ops))
            s.objects
            s.leaked
            v
    unfolding batch commit_batch
    batch-Refines clock ops short h =
        let s0 = opened platform laws engine id blob d a b in
        let p =
          plan_all-Planned platform engine id blob laws.from_slice-to_vec clock 0 ops [] []
            (record { objects = objs; leaked = leaked }) v b h in
        let (committed, s1) = commit_At platform laws p.added _ (p.fit short) s0.state in
        let s2 = persist-Ends platform laws _ s1 in
        record {
          after = apply_batch p.added v;
          ends =
              rw (s0.outcome, p.planned, committed, s2.outcome)
                (Ends-pure platform laws _ _ s2.state);
          holds = p.holds;
          elsewhere = p.elsewhere;
        }
