-- ===== src/Engine/Faults/Get.antt =====
-- `get_object` when calls may fail: an error, or the right answer.
use wfl_db.Core.Key.{Key}
use wfl_db.Engine.Refinement.{contents, bucket_of}
use wfl_db.Engine.Faults.Readable.{Stored, Readable}
use wfl_db.Engine.Objects.{json_of, lookup, Objects}
use wfl_db.Engine.Storage.{get_large_object, read_object, get_object, collect_chunks}
use wfl_db.Core.Types.{is_chunked, ContentHash}
use wfl_db.Core.BucketId.{BucketId}
use wfl_db.Engine.Bucket.{
  map_serialization, data_key, get_small, chunk_key, metadata_key, get_metadata, get_chunk,
  partition_name, StorageEngine,
}
use wfl_db.Engine.Faults.{
  Result, Triple-open_partition, Triple-get, Triple-pure, Triple-bind, Triple, Faults,
}
use wfl_db.Engine.Platform.{call, View, Platform}
use wfl_db.Engine.Bucket
use wfl_db.Core.Outcome.{lift, Exec, ◌>>=◌, pure}
use wfl_db.Engine.Refinement.Metadata.{metadata_in}
use wfl_db.Prelude.{
  inr, some, none, inl, Option-cases, [], append_assoc, ◌∷◌, append-nil, map, ◌++◌, All, List, refl,
  flatten, ◌≡◌, Bytes, Str,
}

module _ (platform : Platform) (faults : Faults platform) (engine : StorageEngine)
    (id : BucketId) where
  open platform use {Db}

  -- Opening the bucket.
  pub new-Triple :
      (E : View → Type 0) (v : View)
      → E v
      → Triple platform faults
          (Bucket.new platform engine id)
          v
          (λ b w. (b ≡ bucket_of engine id) × (w ≡ v))
          E
  unfolding Bucket.new
  new-Triple E v x =
      Triple-bind platform faults (λ _ w. w ≡ v) (λ b w. (b ≡ bucket_of engine id) × (w ≡ v)) E
        (call (platform.open_partition (partition_name id))) _ v
        (Triple-open_partition platform faults E _ (partition_name id) v refl x)
        (λ _ w q. rw q (
          Triple-pure platform faults (λ b w'. (b ≡ bucket_of engine id) × (w' ≡ v)) E
            (bucket_of engine id) v (refl, refl)))

  abbrev pub q0 : Str
  q0 = partition_name id

  -- `a` is returned, or the call fails; nothing changes.
  abbrev pub Returns : {A : Type 0} → Exec Db A → View → A → Type 0
  Returns m v a = Triple platform faults m v (λ x w. (x ≡ a) × (w ≡ v)) (λ w. w ≡ v)

  pub Returns-get : (k : Bytes) (v : View) → Returns (call (platform.get q0 k)) v (v q0 k)
  Returns-get k v =
      Triple-get platform faults (λ w. w ≡ v) (λ x w. (x ≡ v q0 k) × (w ≡ v)) q0 k v (refl, refl)
        refl

  pub Returns-bind :
      {A B : Type 0} (m : Exec Db A) (f : A → Exec Db B) (v : View) (a : A) (b : B)
      → Returns m v a
      → Returns (f a) v b
      → Returns (m >>= f) v b
  Returns-bind m f v a b h k =
      Triple-bind platform faults (λ x w. (x ≡ a) × (w ≡ v)) (λ x w. (x ≡ b) × (w ≡ v)) (λ w. w ≡ v)
        m f v h (λ x w q. rw (q.0, q.1) k)

  pub Returns-pure : {A : Type 0} (a : A) (v : View) → Returns (pure a) v a
  Returns-pure a v =
      Triple-pure platform faults (λ x w. (x ≡ a) × (w ≡ v)) (λ w. w ≡ v) a v (refl, refl)

  module _ (blob : ContentHash → Bytes) where
    collect_chunks-Returns :
        (hs : List ContentHash) (bytes : Bytes) (v : View)
        → All (Stored platform q0 blob v) hs
        → Returns
            (collect_chunks platform (bucket_of engine id) hs bytes)
            v
            (bytes ++ flatten (map blob hs))
    unfolding collect_chunks get_chunk flatten
    collect_chunks-Returns [] bytes v a = rw (append-nil bytes) (Returns-pure bytes v)
    collect_chunks-Returns (h ∷ hs) bytes v a =
        Returns-bind (call (platform.get q0 (chunk_key h))) _ v (v q0 (chunk_key h)) _
          (Returns-get (chunk_key h) v)
          (rw (a.0.1, ← append_assoc bytes (blob h) (flatten (map blob hs)))
            (collect_chunks-Returns hs (bytes ++ blob h) v a.1))

    module _ {objs : Objects} {v : View} (r : Readable platform q0 blob objs v) where
      -- What `get_metadata` does with the cell that it reads.
      decoded :
          (key : Key)
          → Returns
              (elim (json_of (lookup key objs)) [
                | none ↦ pure none
                | some bytes ↦ do
                  metadata ← lift (map_serialization (platform.from_slice bytes))
                  pure (some metadata)
              ])
              v
              (metadata_in (lookup key objs))
      decoded key = elim (Option-cases (lookup key objs)) [
        | inl none_there ↦ rw none_there (Returns-pure none v)
        | inr (o, e) ↦ rw (e, r.decodes key o e) (Returns-pure (some o.metadata) v)
      ]

      read_object-Returns :
          (key : Key)
          → Returns
              (read_object platform (bucket_of engine id) key (metadata_in (lookup key objs)))
              v
              (contents blob (lookup key objs))
      unfolding read_object get_small get_large_object is_chunked
      read_object-Returns key = elim (Option-cases (lookup key objs)) [
        | inl none_there ↦ rw none_there (Returns-pure none v)
        | inr (o, e) ↦ elim (Option-cases o.metadata.chunk_manifest) [
          | inl inline ↦ rw (e, inline, ← r.bodies key o e inline) (Returns-get (data_key key) v)
          | inr (m, chunked) ↦
              let there : All (Stored platform q0 blob v) m.chunks =
                rw chunked at (r.stored key o e) in
              rw (e, chunked)
                (Returns-bind (collect_chunks platform (bucket_of engine id) m.chunks []) _ v
                  (flatten (map blob m.chunks)) _ (collect_chunks-Returns m.chunks [] v there)
                  (Returns-pure (some (flatten (map blob m.chunks))) v))
        ]
      ]

      get_metadata-Returns :
          (key : Key)
          → Returns
              (get_metadata platform (bucket_of engine id) key)
              v
              (metadata_in (lookup key objs))
      unfolding get_metadata
      get_metadata-Returns key =
          Returns-bind (call (platform.get q0 (metadata_key key))) _ v (v q0 (metadata_key key)) _
            (Returns-get (metadata_key key) v) (rw (r.metas key) (decoded key))

      get_object-Returns :
          (key : Key)
          → Returns (get_object platform engine id key) v (contents blob (lookup key objs))
      unfolding get_object
      get_object-Returns key =
          Returns-bind (Bucket.new platform engine id) _ v (bucket_of engine id) _
            (new-Triple (λ w. w ≡ v) v refl)
            (Returns-bind (get_metadata platform (bucket_of engine id) key) _ v
              (metadata_in (lookup key objs)) _ (get_metadata-Returns key)
              (read_object-Returns key))

    -- On a bucket that can be when any call may fail, `get_object` returns the bytes of the
    -- object of the map, or fails, and changes nothing.
    pub get_object_of_Readable :
        {objs : Objects} (key : Key) (d : Db)
        → Readable platform q0 blob objs (faults.view d)
        → Result
            (λ x w. (x ≡ contents blob (lookup key objs)) × (w ≡ faults.view d))
            (λ w. w ≡ faults.view d)
            (get_object platform engine id key d).0
            (faults.view (get_object platform engine id key d).1)
    get_object_of_Readable key d r = get_object-Returns r key d refl
