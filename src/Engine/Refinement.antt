-- ===== src/Engine/Refinement.antt =====
-- The operations of `Storage` implement those of a map from keys to objects.
pub mod Metadata
pub mod Operations
pub mod Planned
pub mod Batch
pub mod Listing
pub mod Reclaim
pub mod Isolation
pub mod Put
pub mod RoundTrip
pub mod Delete
pub mod Overflow
use wfl_db.Engine.Bucket.Small.{put_small-Ends}
use wfl_db.Engine.Bucket.Large.{
  hashes_proper, put_large-Stores, large_metadata, get_metadata-some, get_metadata-none,
  collect_chunks-Ends,
}
use wfl_db.Engine.Storage.{chunk_data, put_object, get_object, get_large_object, read_object}
use wfl_db.Engine.Bucket.Store.{IsStore-write-meta, IsStore-write-data, IsStore-congr, count, Refs}
use wfl_db.Core.Types.{new_chunked, ObjectMetadata, new_inline, Stamp, is_chunked, ContentHash}
use wfl_db.Core.BucketId.{BucketId}
use wfl_db.Prelude.{
  leb, if◌then◌else◌, lt→leb, ◌^◌, ◌<◌, le→leb, length, ◌∙◌, none, arith, Option, [], ◌+◌, ◌≤◌,
  IsBytes, All, inr, inl, Option-cases, some, false, bytes_eq, Str, Bytes, ◌≡◌,
}
use wfl_db.Core.Outcome.{ok, Outcome}
use wfl_db.Core.Key.{Key}
use wfl_db.Engine.Platform.{done, Platform, Laws, View, write}
use wfl_db.Engine.Bucket
use wfl_db.Engine.Bucket.{data_key, get_small, StorageEngine, Bucket, partition_name, metadata_key}
use wfl_db.Engine.Bucket.Cells.{cell_laws}
use wfl_db.Engine.Effect.{get_At, Ends-pure, At, Ends, open_partition-Ends}
use wfl_db.Engine.Objects.{
  hashes_of, assign, count-le-refs_of, refs_of, hashes, Object, Objects, lookup, content,
}
use wfl_db.Engine.Invariant.{IsBucket, IsBucket-replace}

-- What `get_object` shows of an object.
abbrev pub contents : (ContentHash → Bytes) → Option Object → Option Bytes
contents blob none = none
contents blob (some o) = some (content blob o)

abbrev pub object_of : ObjectMetadata → Bytes → Bytes → Object
object_of metadata json bytes = record { metadata = metadata; json = json; inline = bytes }

-- The metadata that `put_object` writes below and above the threshold.
abbrev pub inline_metadata : Platform → Stamp → Bytes → ObjectMetadata
inline_metadata platform stamp bytes = new_inline stamp (length bytes) (platform.hash bytes)

abbrev pub chunked_metadata : Platform → Stamp → Bytes → ObjectMetadata
chunked_metadata platform stamp bytes = large_metadata platform stamp (chunk_data bytes)

abbrev pub metadata_of : Platform → StorageEngine → Stamp → Bytes → ObjectMetadata
metadata_of platform engine stamp bytes =
    if leb (length bytes) engine.value_threshold
    then inline_metadata platform stamp bytes
    else chunked_metadata platform stamp bytes

-- The handle that `Bucket::new` returns.
abbrev pub bucket_of : StorageEngine → BucketId → Bucket
bucket_of engine id = record { id = id; main_partition = partition_name id; engine = engine }

module _ (platform : Platform) (laws : Laws platform) (engine : StorageEngine) (id : BucketId)
    (blob : ContentHash → Bytes) where
  open platform use {Db, hash, to_vec, from_slice}

  -- `r` returns `out`, the bucket then holds `objs`, and the other buckets hold what they held.
  pub record Refines {A : Type 0} (r : Outcome A × Db) (out : Outcome A) (objs : Objects)
      (leaked : Refs) (v : View) : Type 0 where
    pub after : View
    pub ends : Ends platform laws r out after
    pub holds : IsBucket platform (partition_name id) blob objs leaked after
    pub elsewhere :
        (q : Str) (j : Bytes) → bytes_eq (partition_name id) q ≡ false → after q j ≡ v q j

  module _ {objs : Objects} {leaked : Refs} {v : View} (d : Db) (a : At platform laws d v)
      (b : IsBucket platform (partition_name id) blob objs leaked v) where
    pub opened : Ends platform laws (Bucket.new platform engine id d) (ok (bucket_of engine id)) v
    unfolding Bucket.new
    opened =
        let s1 = open_partition-Ends platform laws (partition_name id) d b.named a in
        rw s1.outcome (Ends-pure platform laws _ _ s1.state)

    read_object-Ends :
        (key : Key) (o : Object) (d' : Db)
        → At platform laws d' v
        → lookup key objs ≡ some o
        → Ends platform laws
            (read_object platform (bucket_of engine id) key (some o.metadata) d')
            (ok (some (content blob o)))
            v
    unfolding read_object get_small get_large_object is_chunked
    read_object-Ends key o d' a' e = elim (Option-cases o.metadata.chunk_manifest) [
      | inl inline ↦
          let s1 = get_At platform laws (partition_name id) (data_key key) d' a' in
          rw (inline, s1, b.bodies key o e inline) (Ends-pure platform laws _ d' a')
      | inr (m, chunked) ↦
          let proper : All IsBytes m.chunks = rw (chunked, hashes) at (b.sound key o e).proper in
          let held : (g : ContentHash) → count g m.chunks ≤ refs_of objs g + leaked g =
            λ g. ground (arith, count-le-refs_of key objs g b.unique) in
          let s1 =
            collect_chunks-Ends platform laws (bucket_of engine id) blob m.chunks [] d' a' b.store
              proper held in
          rw (chunked, s1.outcome) (Ends-pure platform laws _ _ s1.state)
    ]

    -- On a healthy keyspace `get_object` returns the bytes of the object that the map has for the
    -- key, or `none` if it has none, and leaves every cell as it was.
    pub get_object-Ends :
        (key : Key)
        → Ends platform laws
            (get_object platform engine id key d)
            (ok (contents blob (lookup key objs)))
            v
    unfolding get_object read_object
    get_object-Ends key = elim (Option-cases (lookup key objs)) [
      | inl none_there ↦
          let s1 =
            get_metadata-none platform laws (bucket_of engine id) key _ opened.state
              (b.metas key ∙ rw none_there) in
          rw (opened.outcome, s1.outcome, none_there) (Ends-pure platform laws _ _ s1.state)
      | inr (o, e) ↦
          let s1 =
            get_metadata-some platform laws (bucket_of engine id) key o.json o.metadata _
              opened.state (b.metas key ∙ rw e) (b.sound key o e).decodes in
          rw (opened.outcome, s1.outcome, e) (read_object-Ends key o _ s1.state e)
    ]
