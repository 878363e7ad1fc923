-- ===== src/Engine/Refinement/RoundTrip.antt =====
-- What a client of `Storage` sees: sequences of calls on a healthy keyspace.
use wfl_db.Engine.Limits.{ShortKey}
use wfl_db.Engine.Storage.Chunking.{chunk_data-Splits}
use wfl_db.Core.Types.{new_chunked, new_inline}
use wfl_db.Engine.Storage.{delete_object}
use native.Mathlib.Decide.{dec_le}
use wfl_db.Prelude.{
  lt→leb, le→leb, arith, length, none, some, bytes_eq, if◌then◌else◌, refl, [], ◌^◌, ◌∷◌, ◌<◌, ◌+◌,
  map, All, List, Bytes, ◌≡◌,
}
use wfl_db.Core.Outcome.{ok, ◌>>◌}
use wfl_db.Core.Key.{Key}
use wfl_db.Engine.Platform.{Platform, Laws, View}
use wfl_db.Engine.Bucket.{StorageEngine, partition_name}
use wfl_db.Engine.Effect.{At}
use wfl_db.Engine.Objects.{lookup-without, lookup-assign, refs_of, Objects, lookup, content}
use wfl_db.Engine.Invariant.{IsBucket}
use wfl_db.Engine.Refinement.{
  chunk_data, metadata_of, object_of, get_object, put_object, new_chunked, Stamp, new_inline, Refs,
  ContentHash, BucketId, contents, get_object-Ends,
}
use wfl_db.Engine.Refinement.Put.{Storable, put_object-Refines}
use wfl_db.Engine.Refinement.Delete.{delete_object-Refines}

module _ (platform : Platform) (laws : Laws platform) (engine : StorageEngine) (id : BucketId)
    (blob : ContentHash → Bytes) where
  open platform use {Db, hash}

  -- Chunks that do not collide come back from their hashes.
  map-blob-hash : (cs : List Bytes) → All (λ c. blob (hash c) ≡ c) cs → map blob (map hash cs) ≡ cs
  map-blob-hash [] h = refl
  map-blob-hash (c ∷ cs) h = rw (h.0, map-blob-hash cs h.1)

  module _ {objs : Objects} {leaked : Refs} {v : View} (d : Db) (a : At platform laws d v)
      (b : IsBucket platform (partition_name id) blob objs leaked v) where
    pub content-object_of :
        (stamp : Stamp) (bytes json : Bytes)
        → Storable platform engine blob objs leaked stamp bytes json
        → content blob (object_of (metadata_of platform engine stamp bytes) json bytes) ≡ bytes
    unfolding new_inline new_chunked
    content-object_of stamp bytes json h = elim (dec_le (length bytes) engine.value_threshold) [
      | yes small ↦ rw (le→leb (length bytes) engine.value_threshold small)
      | no big ↦
          let large : engine.value_threshold < length bytes = omega arith in
          rw (lt→leb (length bytes) engine.value_threshold large) (
            rw (map-blob-hash (chunk_data bytes) (h.collision_free large))
              (chunk_data-Splits bytes).joined)
    ]

    -- On a healthy keyspace, after `put_object` of `Storable` data under a key within the limits,
    -- `get_object` returns the data for that key, and for any other key what the bucket held
    -- before.
    pub get_object-put_object :
        (stamp : Stamp) (key k : Key) (bytes json : Bytes)
        → ShortKey key
        → Storable platform engine blob objs leaked stamp bytes json
        → ((put_object platform stamp engine id key bytes >> get_object platform engine id k) d).0
          ≡ ok (if bytes_eq key.as_str k.as_str then some bytes else contents blob (lookup k objs))
    get_object-put_object stamp key k bytes json short h =
        let r =
          put_object-Refines platform laws engine id blob d a b stamp key bytes json short h in
        let o = object_of (metadata_of platform engine stamp bytes) json bytes in
        let s = get_object-Ends platform laws engine id blob _ r.ends.state r.holds k in
        rw (r.ends.outcome, s.outcome)
          (ground (arith, lookup-assign key k o objs, content-object_of stamp bytes json h))

    -- On a healthy keyspace in which no reference count reaches 2 ^ 32, after `delete_object` of a
    -- key within the limits `get_object` finds nothing for that key, and for any other key what the
    -- bucket held before.
    pub get_object-delete_object :
        (key k : Key)
        → ShortKey key
        → ((g : ContentHash) → refs_of objs g + leaked g < 2 ^ 32)
        → ((delete_object platform engine id key >> get_object platform engine id k) d).0
          ≡ ok (if bytes_eq key.as_str k.as_str then none else contents blob (lookup k objs))
    get_object-delete_object key k short small =
        let r = delete_object-Refines platform laws engine id blob b small key short d a in
        let s = get_object-Ends platform laws engine id blob _ r.ends.state r.holds k in
        rw (r.ends.outcome, s.outcome) (ground (arith, lookup-without key k objs))
