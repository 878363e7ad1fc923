-- ===== src/Server/Service/RoundTrip.antt =====
-- A PUT of an object and a GET of its path, over a healthy keyspace.
use wfl_db.Engine.Limits.{ShortKey}
use wfl_db.Engine.Invariant.{IsBucket}
use wfl_db.Engine.Effect.{At}
use wfl_db.Engine.Bucket.Store.{Refs}
use wfl_db.Engine.Objects.{Objects}
use wfl_db.Core.Key.{Key}
use wfl_db.Core.BucketId.{BucketId}
use wfl_db.Engine.Bucket.{partition_name, StorageEngine}
use wfl_db.Prelude.{bytes_eq_refl, bytes_eq, false, lit, starts_with, Bytes, Bool, ℕ, ◌≡◌}
use wfl_db.Core.BucketId
use wfl_db.Core.Key
use wfl_db.Core.Outcome.{ok, Answer, done}
use wfl_db.Core.Types.{is_chunked, ContentHash, Stamp}
use wfl_db.Engine.Platform.{View, Platform, Laws}
use wfl_db.Server.Http.{Reply, Method, Request, respond}
use wfl_db.Server.Simple.{answer_get, answer_put, serve_get, serve_put, dispatch, handle_request}
use wfl_db.Server.ObjectPath.RoundTrip.{path_of, NoSlash, parse_object_path-path_of}
use wfl_db.Engine.Refinement.{get_object-Ends, metadata_of}
use wfl_db.Engine.Refinement.Put.{Storable, put_object-Refines}
use wfl_db.Engine.Refinement.RoundTrip.{content-object_of}

module _ (platform : Platform) (laws : Laws platform) (is_alphanumeric : ℕ → Bool)
    (engine : StorageEngine) where
  open platform use {Db}

  -- A bucket and a key that a path can name; `IsBucket` limits the name of the bucket.
  pub record IsAddressable (id : BucketId) (key : Key) : Type 0 where
    pub bucket_valid : BucketId.new is_alphanumeric id.as_str ≡ ok id
    pub key_valid : Key.new key.as_str ≡ ok key
    pub one_part : NoSlash id.as_str
    pub not_rooted : starts_with key.as_str (lit "/") ≡ false
    pub short : ShortKey key

  abbrev pub on_path : Method → BucketId → Key → Answer Bytes → Request
  on_path method id key body = record {
    method = method;
    path = path_of id.as_str key.as_str;
    body = body;
  }

  module _ (blob : ContentHash → Bytes) {objs : Objects} {leaked : Refs} {v : View} (d : Db)
      (a : At platform laws d v) (id : BucketId) (key : Key)
      (b : IsBucket platform (partition_name id) blob objs leaked v)
      (named : IsAddressable id key) where
    -- On a healthy keyspace, for a bucket and a key that a path can name and that are within the
    -- limits, and `Storable` data, a PUT of the data is answered with 201 and its metadata, and a
    -- GET of the same path is then answered with 200 and the data, whatever the bucket held.
    pub http_get-put :
        (stamp : Stamp) (bytes json : Bytes) (body : Answer Bytes)
        → Storable platform engine blob objs leaked stamp bytes json
        → let m = metadata_of platform engine stamp bytes in
          let r =
            handle_request platform is_alphanumeric engine stamp
              (on_path Method.put id key (done bytes))
              d in
          (r.0 ≡ ok (respond 201 (Reply.stored id key m.size m.version (is_chunked m))))
          × ((handle_request platform is_alphanumeric engine stamp
                (on_path Method.get id key body)
                r.1).0
              ≡ ok (respond 200 (Reply.raw bytes)))
    unfolding handle_request dispatch serve_put serve_get answer_put answer_get starts_with bytes_eq
    http_get-put stamp bytes json body h =
        let r =
          put_object-Refines platform laws engine id blob d a b stamp key bytes json named.short
            h in
        let s = get_object-Ends platform laws engine id blob _ r.ends.state r.holds key in
        let parsed =
          parse_object_path-path_of is_alphanumeric id key named.bucket_valid named.key_valid
            named.one_part named.not_rooted in
        let there = content-object_of platform laws engine id blob d a b stamp bytes json h in
        (rw (parsed, r.ends.outcome), rw (parsed, s.outcome, bytes_eq_refl, there))
