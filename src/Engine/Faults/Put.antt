-- ===== src/Engine/Faults/Put.antt =====
-- `put_object` of a large object when calls may fail: readers see the old object or the new one.
use wfl_db.Engine.Faults.Get.{new-Triple}
use wfl_db.Engine.Bucket.Cells.{cell_laws}
use wfl_db.Engine.Storage.{put_object, chunk_data}
use wfl_db.Core.Outcome.{lift, done}
use wfl_db.Engine.Faults.Chunks.{store_chunks-Grows, Collected, All-kept, Grows}
use wfl_db.Core.Key.{Key}
use wfl_db.Engine.Faults.Readable.{Stored, Readable}
use wfl_db.Engine.Refinement.{object_of, chunked_metadata, bucket_of}
use wfl_db.Engine.Objects.{lookup-assign_cases, lookup-assign, assign, hashes, Object, Objects}
use wfl_db.Core.Types.{new_chunked, ObjectMetadata, ChunkManifest, Stamp, ContentHash}
use wfl_db.Core.BucketId.{BucketId}
use wfl_db.Engine.Bucket.{
  map_serialization, store_chunks, metadata_key, put_large, partition_name, Bucket, StorageEngine,
}
use wfl_db.Engine.Faults.{
  Result, Triple-pure, Triple-persist, Triple-insert, Triple-weaken, Triple-bind, Triple, Faults,
}
use wfl_db.Engine.Platform.{call, write, View, Platform}
use wfl_db.Engine.Bucket
use mathlib.Core.Path.{subst}
use wfl_db.Core.Outcome.{◌>>=◌, ◌>>◌, pure}
use wfl_db.Prelude.{
  refl, lt→leb, length, ◌<◌, inr, map, inl, [], arith, ◌∷◌, ◌⊎◌, some, All, ◌≡◌, List, ◌∙◌, Option,
  Str, Bytes,
}

module _ (platform : Platform) (faults : Faults platform) (engine : StorageEngine) (id : BucketId)
    (blob : ContentHash → Bytes) where
  open platform use {Db, hash, to_vec}

  abbrev pub q0 : Str
  q0 = partition_name id

  abbrev pub b0 : Bucket
  b0 = bucket_of engine id

  Readable-Grows :
      {objs : Objects} {v w : View}
      → Readable platform q0 blob objs v
      → Grows platform faults b0 blob v w
      → Readable platform q0 blob objs w
  Readable-Grows r g = record {
    metas = λ k. g.same.metas k ∙ r.metas k;
    decodes = r.decodes;
    bodies = λ k o e n. g.same.datas k ∙ r.bodies k o e n;
    stored = λ k o e. All-kept platform faults b0 blob (hashes o) g (r.stored k o e);
    backed = g.backed;
  }

  All-Stored-meta :
      (v : View) (key : Key) (x : Option Bytes) (hs : List ContentHash)
      → All (Stored platform q0 blob v) hs
      → All (Stored platform q0 blob (write q0 (metadata_key key) x v)) hs
  All-Stored-meta v key x [] a = tt
  All-Stored-meta v key x (h ∷ hs) a =
      ((a.0.0, simp cell_laws (a.0.1)), All-Stored-meta v key x hs a.1)

  -- The metadata of a chunked object whose chunks are there.
  Readable-assign :
      {objs : Objects} {v : View} (key : Key) (o : Object) (m : ChunkManifest)
      → Readable platform q0 blob objs v
      → platform.from_slice o.json ≡ done o.metadata
      → o.metadata.chunk_manifest ≡ some m
      → All (Stored platform q0 blob v) (hashes o)
      → Readable platform q0 blob (assign key o objs) (write q0 (metadata_key key) (some o.json) v)
  Readable-assign {objs} {v} key o m r decodes chunked there = record {
    metas = λ k. simp cell_laws (ground (arith, r.metas k, lookup-assign key k o objs));
    decodes = λ k x e. elim (lookup-assign_cases key k o x objs e) [
      | inl (_, now) ↦ subst (λ y. platform.from_slice y.json ≡ done y.metadata) now decodes
      | inr (_, old) ↦ r.decodes k x old
    ];
    bodies = λ k x e n. elim (lookup-assign_cases key k o x objs e) [
      | inl (_, now) ↦ let none_there = rw now at chunked in cc
      | inr (_, old) ↦ simp cell_laws (r.bodies k x old n)
    ];
    stored = λ k x e. elim (lookup-assign_cases key k o x objs e) [
      | inl (_, now) ↦
          subst
            (λ y.
              All (Stored platform q0 blob (write q0 (metadata_key key) (some o.json) v))
                (hashes y))
            now (All-Stored-meta v key (some o.json) (hashes o) there)
      | inr (_, old) ↦ All-Stored-meta v key (some o.json) (hashes x) (r.stored k x old)
    ];
    backed = λ h y hb e. simp cell_laws (r.backed h y hb (simp cell_laws at e));
  }

  module _ (objs : Objects) (stamp : Stamp) (key : Key) (bytes json : Bytes)
      (serialised : to_vec (chunked_metadata platform stamp bytes) ≡ done json)
      (known : All (λ c. blob (hash c) ≡ c) (chunk_data bytes)) where
    abbrev pub new_objs : Objects
    new_objs = assign key (object_of (chunked_metadata platform stamp bytes) json bytes) objs

    abbrev pub OldOrNew : View → Type 0
    OldOrNew w = Readable platform q0 blob objs w ⊎ Readable platform q0 blob new_objs w

    abbrev pub New : ObjectMetadata → View → Type 0
    New m w = (m ≡ chunked_metadata platform stamp bytes) × Readable platform q0 blob new_objs w

    -- The metadata is written last, and everything after it keeps the new object.
    write_metadata :
        (v : View)
        → Readable platform q0 blob objs v
        → All (Stored platform q0 blob v) (map hash (chunk_data bytes))
        → Triple platform faults
            (do
              metadata_json ←
                  lift (map_serialization (to_vec (chunked_metadata platform stamp bytes)))
              call (platform.insert q0 (metadata_key key) metadata_json)
              call platform.persist
              pure (chunked_metadata platform stamp bytes))
            v
            New
            OldOrNew
    unfolding new_chunked
    write_metadata v r there =
        let after : View = write q0 (metadata_key key) (some json) v in
        let new : Readable platform q0 blob new_objs after =
          Readable-assign key (object_of (chunked_metadata platform stamp bytes) json bytes) _ r
            (faults.from_slice-to_vec _ json serialised) refl there in
        rw serialised (
          Triple-bind platform faults (λ _ w. w ≡ after) New OldOrNew
            (call (platform.insert q0 (metadata_key key) json)) _ v
            (Triple-insert platform faults OldOrNew _ q0 (metadata_key key) json v refl (inl r))
            (λ _ w q. rw q (
              Triple-bind platform faults (λ _ w'. w' ≡ after) New OldOrNew (call platform.persist)
                _ after (Triple-persist platform faults OldOrNew _ after refl (inr new))
                (λ _ w' q'. rw q' (Triple-pure platform faults New OldOrNew _ after (refl, new))))))

    put_large-OldOrNew :
        (v : View)
        → Readable platform q0 blob objs v
        → Triple platform faults (put_large platform stamp b0 key (chunk_data bytes)) v New OldOrNew
    unfolding put_large new_chunked
    put_large-OldOrNew v r =
        Triple-bind platform faults (Collected platform faults b0 blob (chunk_data bytes) [] 0 v)
          New OldOrNew (store_chunks platform b0 (chunk_data bytes) [] 0) _ v
          (Triple-weaken platform faults
            (Collected platform faults b0 blob (chunk_data bytes) [] 0 v) OldOrNew
            (store_chunks platform b0 (chunk_data bytes) [] 0) v
            (store_chunks-Grows platform faults b0 blob (chunk_data bytes) [] 0 v known r.backed)
            (λ x w q. q) (λ w g. inl (Readable-Grows r g)))
          (λ x w q. rw (q.0, q.1) (write_metadata w (Readable-Grows r q.2) q.3))

    put_object-Triple :
        (v : View)
        → engine.value_threshold < length bytes
        → Readable platform q0 blob objs v
        → Triple platform faults (put_object platform stamp engine id key bytes) v New OldOrNew
    unfolding put_object Bucket.new
    put_object-Triple v large r =
        Triple-bind platform faults (λ b w. (b ≡ b0) × (w ≡ v)) New OldOrNew
          (Bucket.new platform engine id) _ v
          (new-Triple platform faults engine id OldOrNew v (inl r))
          (λ b w q.
            rw (lt→leb (length bytes) engine.value_threshold large, q.0, q.1)
              (put_large-OldOrNew v r))

    -- `put_object` of data over the threshold whose metadata can be serialised and whose chunks do
    -- not collide, on a bucket that can be read, when any of its calls may fail: after a success
    -- the bucket can be read as the map with the new object, and after an error or a panic as that
    -- map or as the old one.
    pub put_object-OldOrNew :
        (d : Db)
        → engine.value_threshold < length bytes
        → Readable platform q0 blob objs (faults.view d)
        → Result New OldOrNew
            (put_object platform stamp engine id key bytes d).0
            (faults.view (put_object platform stamp engine id key bytes d).1)
    put_object-OldOrNew d large r = put_object-Triple (faults.view d) large r d refl
