-- ===== src/Engine/Faults/Delete.antt =====
-- `delete_object` when the removals fail.
use wfl_db.Core.Types.{ObjectMetadata}
use wfl_db.Core.Key.{Key}
use wfl_db.Core.Outcome.{ok, failed, done}
use wfl_db.Engine.Storage.{delete_object}
use wfl_db.Core.BucketId.{BucketId}
use wfl_db.Engine.Bucket.{
  metadata_key, partition_name, release_manifest, discard, remove_object, get_metadata,
  StorageEngine,
}
use wfl_db.Engine.Faults.{Faults}
use wfl_db.Engine.Platform.{Platform}
use wfl_db.Engine.Bucket
use wfl_db.Prelude.{none, some, Bytes, ◌≡◌, Str}

module _ (platform : Platform) (faults : Faults platform) (engine : StorageEngine)
    (id : BucketId) where
  open platform use {Db, open_partition, get, remove, persist}

  -- Every call works but `remove`, which fails.
  pub record OnlyRemoveFails : Type 0 where
    pub opens : (p : Str) (d : Db) → (open_partition p d).0 ≡ done tt
    pub reads : (p : Str) (k : Bytes) (d : Db) → get p k d ≡ (done (faults.view d p k), d)
    pub persists : (d : Db) → (persist d).0 ≡ done tt
    pub removes : (p : Str) (k : Bytes) (d : Db) → (e : Str) × ((remove p k d).0 ≡ failed e)
    pub unchanged : (p : Str) (k : Bytes) (d : Db) → faults.view (remove p k d).1 ≡ faults.view d

  -- For an object that is stored inline, `delete_object` reports success though both of its removals
  -- failed and the object is still there.
  pub delete_object_unnoticed :
      (key : Key) (json : Bytes) (m : ObjectMetadata) (d : Db)
      → OnlyRemoveFails
      → faults.view d (partition_name id) (metadata_key key) ≡ some json
      → platform.from_slice json ≡ done m
      → m.chunk_manifest ≡ none
      → ((delete_object platform engine id key d).0 ≡ ok tt)
        × (faults.view (delete_object platform engine id key d).1 ≡ faults.view d)
  unfolding delete_object Bucket.new Bucket.delete get_metadata remove_object discard
      release_manifest
  delete_object_unnoticed key json m d o cell decodes inline =
      let d1 = (open_partition (partition_name id) d).1 in
      let same1 = faults.open_partition_law (partition_name id) d in
      let cell1 : faults.view d1 (partition_name id) (metadata_key key) ≡ some json =
        rw same1 cell in
      (
        rw (o.opens, o.reads, cell1, decodes, inline, o.persists),
        rw
            (
              o.opens, o.reads, cell1, decodes, inline, o.persists, faults.persist_law, o.unchanged,
              o.unchanged,
            )
            same1,
      )
