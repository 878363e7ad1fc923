-- ===== src/Engine/Interleaving/Vanishing.antt =====
-- `get_object` of a large object that is deleted after its metadata was read.
use wfl_db.Engine.Limits.{ShortName-NameFits, ShortKey, ShortName}
use wfl_db.Engine.Refinement.RoundTrip.{get_object-delete_object}
use wfl_db.Engine.Refinement.{get_object-Ends}
use wfl_db.Engine.History.Step.{run_all-Follows}
use wfl_db.Core.Outcome.{◌>>◌, ok, internal, err}
use wfl_db.Engine.Interleaving.Meanwhile.{turns}
use wfl_db.Engine.Interleaving.{shared}
use wfl_db.Engine.Effect.{get_At, open_partition-Ends, At}
use wfl_db.Engine.Objects.{hashes, json_of, content, without, refs_of, lookup, Object}
use wfl_db.Engine.History.{HoldsAll, Buckets, Command}
use wfl_db.Core.Key.{Key}
use wfl_db.Core.BucketId.{BucketId}
use wfl_db.Prelude.{
  refl, bytes_eq_refl, IsBytes, ap, ◌∙◌, none, ◌++◌, lit, ◌<◌, ◌+◌, some, ◌≡◌, ◌∷◌, [], List, Str,
  Bytes,
}
use wfl_db.Core.Types.{to_hex, ChunkManifest, is_chunked, ContentHash}
use wfl_db.Engine.Bucket.{
  chunk_key, metadata_key, get_chunk, partition_name, get_metadata, StorageEngine,
}
use wfl_db.Engine.Platform.{View, Laws, Platform}
use wfl_db.Engine.Storage.{delete_object, collect_chunks, get_large_object, read_object, get_object}
use wfl_db.Engine.Bucket
use wfl_db.Prelude.{◌^◌}

-- The deletion runs before the third access, the one to the first chunk.
abbrev pub deleted_meanwhile : BucketId → Key → List (List Command)
deleted_meanwhile id key = [] ∷ [] ∷ (Command.delete id key ∷ []) ∷ []

module _ (platform : Platform) (laws : Laws platform) (engine : StorageEngine)
    (blob : ContentHash → Bytes) (id : BucketId) (key : Key) where
  open platform use {Db}

  abbrev p : Str
  p = partition_name id

  -- On a healthy keyspace that holds a map of objects in every bucket with a name of at most 250
  -- bytes, in which no reference count of the bucket reaches 2 ^ 32, for a bucket and a key within
  -- the limits and a large object whose first chunk has no other references: when a `delete_object`
  -- of the key runs after `get_object` has read the metadata, `get_object` fails for want of the
  -- chunk, where before the deletion it gives the object and after it finds nothing.
  pub get_object-vanishes :
      (o : Object) (n : ChunkManifest) (h : ContentHash) (hs : List ContentHash) {s : Buckets}
      {v : View} (d : Db)
      → ShortName id
      → ShortKey key
      → At platform laws d v
      → HoldsAll platform engine blob s v
      → lookup key (s id).objects ≡ some o
      → o.metadata.chunk_manifest ≡ some n
      → n.chunks ≡ h ∷ hs
      → ((g : ContentHash) → refs_of (s id).objects g + (s id).leaked g < 2 ^ 32)
      → refs_of (without key (s id).objects) h + (s id).leaked h ≡ 0
      → ((get_object
            (shared platform)
            engine
            id
            key
            (d, turns platform engine (deleted_meanwhile id key))).0
          ≡ err (internal (lit "Missing chunk: " ++ to_hex h)))
        × ((get_object platform engine id key d).0 ≡ ok (some (content blob o)))
        × (((delete_object platform engine id key >> get_object platform engine id key) d).0
            ≡ ok none)
  unfolding Bucket.new get_object get_metadata read_object get_large_object is_chunked
      collect_chunks get_chunk
  get_object-vanishes o n h hs d named short a holds here chunked first small alone =
      let bucket = holds.buckets id named in
      let s0 = open_partition-Ends platform laws p d (ShortName-NameFits id named) a in
      let e = get_At platform laws p (metadata_key key) _ s0.state in
      let sound = bucket.sound key o here in
      let there = bucket.metas key ∙ ap json_of here in
      let r =
        run_all-Follows platform laws engine blob (Command.delete id key ∷ []) _ s0.state holds
          (((named, short), small), tt) in
      let proper : IsBytes h = (rw (chunked, hashes, first) at sound.proper).0 in
      let gone : r.view p (chunk_key h) ≡ none =
        (r.holds.buckets id named).store.stored h proper ∙ rw (bytes_eq_refl, alone) refl in
      let e2 = get_At platform laws p (chunk_key h) _ r.state in
      (
        rw (s0.outcome, e, there, sound.decodes, chunked, first, e2, gone) refl,
        (get_object-Ends platform laws engine id blob d a bucket key).outcome ∙ rw here refl,
        get_object-delete_object platform laws engine id blob d a bucket key key short small
            ∙ rw bytes_eq_refl refl,
      )
