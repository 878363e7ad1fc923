-- ===== src/Engine/Refinement/Metadata.antt =====
-- The metadata that `Storage` keeps of its objects.
use wfl_db.Engine.Limits.{ShortKey}
use wfl_db.Engine.Storage.{object_metadata}
use wfl_db.Core.Types.{is_chunked, new_chunked, new_inline}
use native.Mathlib.Decide.{dec_le}
use wfl_db.Prelude.{
  refl, inr, lt→ltb, ◌∙◌, lt→leb, ap, inl, bytes_eq, arith, if◌then◌else◌, Option-cases, le→ltb,
  sym, le→leb, ◌^◌, ◌<◌, none, ltb, some, length, Bytes, Option, ◌≡◌,
}
use wfl_db.Core.Outcome.{ok, ◌>>◌}
use wfl_db.Engine.Bucket.{StorageEngine, partition_name}
use wfl_db.Engine.Effect.{At, Ends}
use wfl_db.Engine.Objects.{lookup-assign, Objects, Object, lookup}
use wfl_db.Engine.Invariant.{IsBucket}
use wfl_db.Engine.Refinement.{
  get_metadata-some, chunk_data, bucket_of, object_of, get_metadata-none, put_object, Key, View,
  Refs, ContentHash, BucketId, is_chunked, Laws, ObjectMetadata, new_chunked, Platform, new_inline,
  Stamp, opened, metadata_of,
}
use wfl_db.Engine.Refinement.Put.{Storable, put_object-Refines}
use wfl_db.Engine.Storage.Chunking.{size_from-flatten, chunk_data-Splits}

-- The metadata of an object that is put: its size is the number of its bytes, it is chunked exactly
-- if it is over the threshold, and the version and time are those of the call.
pub record Describes (engine : StorageEngine) (stamp : Stamp) (bytes : Bytes) (m : ObjectMetadata)
    : Type 0 where
  pub size : m.size ≡ length bytes
  pub chunked : is_chunked m ≡ ltb engine.value_threshold (length bytes)
  pub stamped : (m.version ≡ stamp.version) × (m.created_at ≡ stamp.now)

-- For data shorter than 2 ^ 64 bytes, the metadata that `put_object` writes gives its length as the
-- size, is chunked exactly if the data is over the threshold, and has the version and the time of
-- the call.
pub metadata_of-Describes :
    (platform : Platform) (engine : StorageEngine) (stamp : Stamp) (bytes : Bytes)
    → length bytes < 2 ^ 64
    → Describes engine stamp bytes (metadata_of platform engine stamp bytes)
unfolding new_inline new_chunked is_chunked
metadata_of-Describes platform engine stamp bytes h =
    elim (dec_le (length bytes) engine.value_threshold) [
      | yes small ↦ rw (le→leb (length bytes) engine.value_threshold small) (record {
        size = refl;
        chunked = sym (le→ltb engine.value_threshold (length bytes) small);
        stamped = (refl, refl);
      })
      | no big ↦
          let large : engine.value_threshold < length bytes = omega arith in
          let joined = ap length (chunk_data-Splits bytes).joined in
          rw (lt→leb (length bytes) engine.value_threshold large) (record {
            size = omega (arith, size_from-flatten 0 (chunk_data bytes) (omega arith), joined);
            chunked = sym (lt→ltb engine.value_threshold (length bytes) large);
            stamped = (refl, refl);
          })
    ]

abbrev pub metadata_in : Option Object → Option ObjectMetadata
metadata_in none = none
metadata_in (some o) = some o.metadata

module _ (platform : Platform) (laws : Laws platform) (engine : StorageEngine) (id : BucketId)
    (blob : ContentHash → Bytes) where
  open platform use {Db}

  module _ {objs : Objects} {leaked : Refs} {v : View} (d : Db) (a : At platform laws d v)
      (b : IsBucket platform (partition_name id) blob objs leaked v) where
    pub object_metadata-Ends :
        (key : Key)
        → Ends platform laws
            (object_metadata platform engine id key d)
            (ok (metadata_in (lookup key objs)))
            v
    unfolding object_metadata
    object_metadata-Ends key =
        let s0 = opened platform laws engine id blob d a b in
        elim (Option-cases (lookup key objs)) [
          | inl none_there ↦
              let s1 =
                get_metadata-none platform laws (bucket_of engine id) key _ s0.state
                  (b.metas key ∙ rw none_there) in
              rw (s0.outcome, none_there) s1
          | inr (o, e) ↦
              let s1 =
                get_metadata-some platform laws (bucket_of engine id) key o.json o.metadata _
                  s0.state (b.metas key ∙ rw e) (b.sound key o e).decodes in
              rw (s0.outcome, e) s1
        ]

  module _ {objs : Objects} {leaked : Refs} {v : View} (d : Db) (a : At platform laws d v)
      (b : IsBucket platform (partition_name id) blob objs leaked v) where
    -- On a healthy keyspace, after `put_object` of `Storable` data under a key within the limits,
    -- `Storage::get_metadata` returns the metadata of the data for that key, and for any other key
    -- what the bucket held before.
    pub object_metadata-put_object :
        (stamp : Stamp) (key k : Key) (bytes json : Bytes)
        → ShortKey key
        → Storable platform engine blob objs leaked stamp bytes json
        → ((put_object platform stamp engine id key bytes >> object_metadata platform engine id k)
            d).0
          ≡ ok (
              if bytes_eq key.as_str k.as_str
              then some (metadata_of platform engine stamp bytes)
              else metadata_in (lookup k objs))
    object_metadata-put_object stamp key k bytes json short h =
        let r =
          put_object-Refines platform laws engine id blob d a b stamp key bytes json short h in
        let o = object_of (metadata_of platform engine stamp bytes) json bytes in
        let s = object_metadata-Ends _ r.ends.state r.holds k in
        rw (r.ends.outcome, s.outcome) (ground (arith, lookup-assign key k o objs))
