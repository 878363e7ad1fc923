-- ===== src/Engine/Refinement/Put.antt =====
-- `put_object` replaces an object of the map; the chunks of the one replaced stay counted.
use wfl_db.Engine.Limits.{ShortKey}
use native.Mathlib.Decide.{dec_le}
use wfl_db.Engine.Bucket.Small.{put_small-Ends}
use wfl_db.Engine.Bucket.Large.{hashes_sized, hashes_proper, put_large-Stores}
use wfl_db.Engine.Storage.{chunk_data, put_object}
use wfl_db.Engine.Bucket.Store.{IsStore-write-meta, IsStore-write-data, IsStore-congr, count, Refs}
use wfl_db.Core.Types.{new_chunked, new_inline, Stamp, ContentHash}
use wfl_db.Core.BucketId.{BucketId}
use wfl_db.Prelude.{lt→leb, ◌^◌, ◌<◌, le→leb, length, arith, ◌+◌, ◌≤◌, All, some, Str, Bytes, ◌≡◌}
use wfl_db.Core.Outcome.{ok}
use wfl_db.Core.Key.{Key}
use wfl_db.Engine.Platform.{done, Platform, Laws, View, write}
use wfl_db.Engine.Bucket.{partition_name, data_key, StorageEngine, Bucket, metadata_key}
use wfl_db.Engine.Bucket.Cells.{cell_laws}
use wfl_db.Engine.Effect.{At}
use wfl_db.Engine.Objects.{hashes_of, assign, refs_of, Objects, lookup}
use wfl_db.Engine.Invariant.{IsBucket, IsBucket-replace}
use wfl_db.Engine.Refinement.{
  metadata_of, Refines, bucket_of, opened, object_of, inline_metadata, chunked_metadata,
}

module _ (platform : Platform) (engine : StorageEngine) (blob : ContentHash → Bytes)
    (objs : Objects) (leaked : Refs) where
  -- What has to hold of the data of a `put_object`.
  pub record Storable (stamp : Stamp) (bytes json : Bytes) : Type 0 where
    pub serialises : platform.to_vec (metadata_of platform engine stamp bytes) ≡ done json
    pub collision_free :
        engine.value_threshold < length bytes
        → All (λ c. blob (platform.hash c) ≡ c) (chunk_data bytes)
    pub room :
        engine.value_threshold < length bytes
        → (g : ContentHash) → refs_of objs g + leaked g + length (chunk_data bytes) < 2 ^ 32

module _ (platform : Platform) (laws : Laws platform) (engine : StorageEngine) (id : BucketId)
    (blob : ContentHash → Bytes) where
  open platform use {Db, hash, to_vec}

  abbrev b0 : Bucket
  b0 = bucket_of engine id

  abbrev q0 : Str
  q0 = partition_name id

  module _ {objs : Objects} {leaked : Refs} {v : View} (d : Db) (a : At platform laws d v)
      (b : IsBucket platform q0 blob objs leaked v) where
    -- `put_object` of data within the threshold.
    put_object_small :
        (stamp : Stamp) (key : Key) (bytes json : Bytes)
        → ShortKey key
        → length bytes ≤ engine.value_threshold
        → to_vec (inline_metadata platform stamp bytes) ≡ done json
        → Refines platform laws engine id blob
            (put_object platform stamp engine id key bytes d)
            (ok (inline_metadata platform stamp bytes))
            (assign key (object_of (inline_metadata platform stamp bytes) json bytes) objs)
            (λ g. leaked g + count g (hashes_of (lookup key objs)))
            v
    unfolding put_object new_inline
    put_object_small stamp key bytes json short fits serialised =
        let s0 = opened platform laws engine id blob d a b in
        let s1 =
          put_small-Ends platform laws stamp b0 key bytes json _ short s0.state fits serialised in
        let same_refs : (g : ContentHash)
            → refs_of objs g + leaked g ≡ refs_of objs g + leaked g + 0 =
          λ g. omega arith in
        let store =
          IsStore-congr same_refs
            (IsStore-write-data (IsStore-write-meta b.store key (some json)) key (some bytes)) in
        record {
          after = write q0 (data_key key) (some bytes) (write q0 (metadata_key key) (some json) v);
          ends = rw (s0.outcome, le→leb (length bytes) engine.value_threshold fits) s1;
          holds =
              IsBucket-replace platform q0 blob key
                (object_of (inline_metadata platform stamp bytes) json bytes) b
                (record {
                  decodes = laws.from_slice-to_vec _ json serialised;
                  proper = tt;
                  sized = tt;
                })
                (λ k. simp cell_laws) (λ k other. simp (cell_laws, other)) (λ _. simp cell_laws)
                store;
          elsewhere = λ q j other. rw other;
        }

    -- `put_object` of data over the threshold.
    put_object_large :
        (stamp : Stamp) (key : Key) (bytes json : Bytes)
        → ShortKey key
        → engine.value_threshold < length bytes
        → to_vec (chunked_metadata platform stamp bytes) ≡ done json
        → All (λ c. blob (hash c) ≡ c) (chunk_data bytes)
        → ((g : ContentHash) → refs_of objs g + leaked g + length (chunk_data bytes) < 2 ^ 32)
        → Refines platform laws engine id blob
            (put_object platform stamp engine id key bytes d)
            (ok (chunked_metadata platform stamp bytes))
            (assign key (object_of (chunked_metadata platform stamp bytes) json bytes) objs)
            (λ g. leaked g + count g (hashes_of (lookup key objs)))
            v
    unfolding put_object new_chunked
    put_object_large stamp key bytes json short large serialised known room =
        let s0 = opened platform laws engine id blob d a b in
        let (w, s1, store, same) =
          put_large-Stores platform laws b0 blob stamp key (chunk_data bytes) json _ short s0.state
            b.store known room serialised in
        record {
          after = write q0 (metadata_key key) (some json) w;
          ends = rw (s0.outcome, lt→leb (length bytes) engine.value_threshold large) s1;
          holds =
              IsBucket-replace platform q0 blob key
                (object_of (chunked_metadata platform stamp bytes) json bytes) b
                (record {
                  decodes = laws.from_slice-to_vec _ json serialised;
                  proper = hashes_proper platform laws b0 (chunk_data bytes);
                  sized = hashes_sized platform laws b0 (chunk_data bytes);
                })
                (λ k. simp cell_laws (rw (same.metas k))) (λ k other. simp cell_laws (same.datas k))
                (λ h. cc) (IsStore-write-meta store key (some json));
          elsewhere = λ q j other. rw other (same.elsewhere q j other);
        }

    -- On a healthy keyspace, for a key within the limits and data that is `Storable`, `put_object`
    -- returns the metadata of the data and assigns the object to its key in the map of the bucket;
    -- the references of what the key held are leaked, and other partitions are as they were.
    pub put_object-Refines :
        (stamp : Stamp) (key : Key) (bytes json : Bytes)
        → ShortKey key
        → Storable platform engine blob objs leaked stamp bytes json
        → Refines platform laws engine id blob
            (put_object platform stamp engine id key bytes d)
            (ok (metadata_of platform engine stamp bytes))
            (assign key (object_of (metadata_of platform engine stamp bytes) json bytes) objs)
            (λ g. leaked g + count g (hashes_of (lookup key objs)))
            v
    put_object-Refines stamp key bytes json short h =
        elim (dec_le (length bytes) engine.value_threshold) [
          | yes small ↦
              let path : metadata_of platform engine stamp bytes
                  ≡ inline_metadata platform stamp bytes =
                rw (le→leb (length bytes) engine.value_threshold small) in
              rw path (put_object_small stamp key bytes json short small (rw path at h.serialises))
          | no big ↦
              let large : engine.value_threshold < length bytes = omega arith in
              let path : metadata_of platform engine stamp bytes
                  ≡ chunked_metadata platform stamp bytes =
                rw (lt→leb (length bytes) engine.value_threshold large) in
              rw path (
                put_object_large stamp key bytes json short large (rw path at h.serialises)
                  (h.collision_free large) (h.room large))
        ]
