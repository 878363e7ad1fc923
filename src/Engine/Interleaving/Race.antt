-- ===== src/Engine/Interleaving/Race.antt =====
-- Two calls that store the same chunk, where both find that it is not there.
use wfl_db.Engine.Limits.{data_key-KeyFits, metadata_key-KeyFits, ShortKey}
use wfl_db.Engine.Interleaving.Around.{write_same, around-Leaves, Leaves, raced}
use wfl_db.Engine.Bucket.Cells.{cell_laws}
use wfl_db.Engine.Bucket.Chunks.{release_chunks-Stores}
use wfl_db.Engine.Bucket.Large.{get_metadata-some}
use wfl_db.Core.LittleEndian.{u32_to_le}
use wfl_db.Engine.Effect.{Ends-pure, remove_At, Ends, persist-Ends, get_At, open_partition-Ends, At}
use wfl_db.Engine.Bucket
use wfl_db.Engine.Storage.Chunking.{chunk_data_single}
use wfl_db.Engine.Refinement.{bucket_of, object_of, chunked_metadata, metadata_of}
use wfl_db.Engine.Refinement.Put.{put_object-Refines, Storable}
use wfl_db.Engine.Invariant.{IsBucket}
use wfl_db.Engine.Bucket.Store.{IsStore-write-meta, IsStore-write-data, count, Refs}
use wfl_db.Engine.Objects.{Object, refs_of-without, lookup, hashes_of, assign, refs_of, Objects}
use wfl_db.Core.Outcome.{internal, err, ◌>>◌, ok, done}
use wfl_db.Core.Key.{Key}
use wfl_db.Core.Types.{to_hex, is_chunked, new_chunked, Stamp, ContentHash}
use wfl_db.Core.BucketId.{BucketId}
use wfl_db.Engine.Bucket.{
  get_chunk, data_key, release_manifest, discard, remove_object, chunk_key, chunk_ref_key,
  metadata_key, add_chunk, store_chunk, store_chunks, put_large, partition_name, StorageEngine,
}
use wfl_db.Engine.Platform.{write, View, Laws, Platform}
use wfl_db.Prelude.{
  ◌-◌, ◌^◌, map, ◌++◌, lit, bytes_eq_symm, false, bytes_eq, ◌∙◌, refl, none, some, bytes_eq_refl,
  arith, lt→leb, ◌+◌, ◌≤◌, length, ◌<◌, ◌∷◌, [], ◌≡◌, Bytes, Str,
}
use wfl_db.Engine.Storage.{
  collect_chunks, get_large_object, read_object, get_object, delete_object, chunk_data, chunk_size,
  put_object,
}

module _ (platform : Platform) (laws : Laws platform) (engine : StorageEngine) (id : BucketId)
    (stamp : Stamp) (a : Key) (bytes : Bytes) where
  open platform use {Db, hash, to_vec}

  abbrev p : Str
  p = partition_name id

  module _ (blob : ContentHash → Bytes) (stamp' : Stamp) (b : Key) where
    module _ {objs : Objects} {leaked : Refs} {v : View} (json json' : Bytes)
        (bucket : IsBucket platform p blob objs leaked v)
        (storable : Storable platform engine blob objs leaked stamp' bytes json')
        (serialises : to_vec (metadata_of platform engine stamp bytes) ≡ done json)
        (large : engine.value_threshold < length bytes) (single : length bytes ≤ chunk_size)
        (short : ShortKey a) (short' : ShortKey b)
        (fresh : refs_of objs (hash bytes) + leaked (hash bytes) ≡ 0) where
      abbrev second : Objects
      second = assign b (object_of (metadata_of platform engine stamp' bytes) json' bytes) objs

      abbrev second_leaked : Refs
      second_leaked g = leaked g + count g (hashes_of (lookup b objs))

      one_chunk : chunk_data bytes ≡ bytes ∷ []
      one_chunk = chunk_data_single bytes (omega arith) single

      metadata_chunked :
          (s : Stamp) → metadata_of platform engine s bytes ≡ chunked_metadata platform s bytes
      metadata_chunked s = rw (lt→leb (length bytes) engine.value_threshold large)

      -- The second object takes one reference to its chunk, and no more.
      second_refs :
          (g : ContentHash)
          → refs_of second g + second_leaked g
            ≡ count g (map hash (chunk_data bytes)) + (refs_of objs g + leaked g)
      unfolding new_chunked
      second_refs g =
          rw (metadata_chunked stamp') (omega (arith, refs_of-without b objs g bucket.unique))

      one_reference : refs_of second (hash bytes) + second_leaked (hash bytes) ≡ 1
      one_reference = second_refs (hash bytes) ∙ rw (one_chunk, bytes_eq_refl, fresh) refl

      counted_once :
          (g : ContentHash) → count g (map hash (chunk_data bytes)) ≤ length (chunk_data bytes)
      counted_once g = rw one_chunk (ground arith)

      within_room : (g : ContentHash) → refs_of second g + second_leaked g < 2 ^ 32
      within_room g = omega (arith, storable.room large g, second_refs g, counted_once g)

      none_left :
          refs_of second (hash bytes)
            + second_leaked (hash bytes)
            - count (hash bytes) (map hash (chunk_data bytes))
          ≡ 0
      none_left = rw (one_reference, one_chunk, bytes_eq_refl) refl

      first-Leaves :
          (d : Db)
          → At platform laws d v
          → (w : View) × Leaves platform laws engine id stamp a bytes
              (raced platform engine id stamp a stamp' b bytes d)
              (ok (chunked_metadata platform stamp bytes))
              (write p (metadata_key a) (some json) w)
            × IsBucket platform p blob second second_leaked w
      first-Leaves d at_v =
          let s0 = open_partition-Ends platform laws p d bucket.named at_v in
          let s =
            put_object-Refines platform laws engine id blob _ s0.state bucket stamp' b bytes json'
              short' storable in
          let proper = laws.hash_bytes bytes in
          let known : blob (hash bytes) ≡ bytes =
            (rw one_chunk at storable.collision_free large).0 in
          let chunk : s.after p (chunk_key (hash bytes)) ≡ some bytes =
            s.holds.store.stored (hash bytes) proper ∙ rw (one_reference, known) refl in
          let ref : s.after p (chunk_ref_key (hash bytes)) ≡ some (u32_to_le 1) =
            s.holds.store.counts (hash bytes) proper ∙ rw one_reference refl in
          let no_count : v p (chunk_ref_key (hash bytes)) ≡ none =
            bucket.store.counts (hash bytes) proper ∙ rw fresh refl in
          let r =
            around-Leaves platform laws engine id stamp a bytes
              (λ d'. (put_object platform stamp' engine id b bytes d').1) json d bucket.named short
              at_v large single (rw metadata_chunked at serialises) no_count s.ends.state in
          (
            s.after,
            rw
                (
                  write_same p (chunk_key (hash bytes)) (some bytes) s.after chunk,
                  write_same p (chunk_ref_key (hash bytes)) (some (u32_to_le 1)) s.after ref,
                )
                at r,
            s.holds,
          )

      -- The state after the deletion of the second object: the first one is left without its chunk.
      delete_second :
          (w : View) (d : Db)
          → At platform laws d (write p (metadata_key a) (some json) w)
          → IsBucket platform p blob second second_leaked w
          → bytes_eq a.as_str b.as_str ≡ false
          → (u : View) × Ends platform laws (delete_object platform engine id b d) (ok tt) u
            × (u p (metadata_key a) ≡ some json)
            × (u p (chunk_key (hash bytes)) ≡ none)
      unfolding Bucket.new new_chunked delete_object Bucket.delete remove_object discard
          release_manifest
      delete_second w d at_w holds other =
          let o : Object = object_of (chunked_metadata platform stamp' bytes) json' bytes in
          let here : lookup b second ≡ some o = rw (metadata_chunked stamp', bytes_eq_refl) refl in
          let s0 = open_partition-Ends platform laws p d bucket.named at_w in
          let s1 =
            get_metadata-some platform laws (bucket_of engine id) b json' o.metadata _ s0.state
              (simp (cell_laws, other) (holds.metas b ∙ rw here refl))
              (holds.sound b o here).decodes in
          let a2 =
            remove_At platform laws p (metadata_key b) _ (metadata_key-KeyFits b short') s1.state in
          let a3 = remove_At platform laws p (data_key b) _ (data_key-KeyFits b short') a2 in
          let store =
            IsStore-write-data
              (IsStore-write-meta (IsStore-write-meta holds.store a (some json)) b none) b none in
          let s4 =
            release_chunks-Stores platform laws (bucket_of engine id) blob
              (map hash (chunk_data bytes)) _ a3 store (holds.sound b o here).proper
              (holds.sound b o here).sized (λ g. omega (arith, second_refs g)) within_room in
          let s5 = persist-Ends platform laws _ s4.ends.state in
          (
            s4.after,
            rw (s0.outcome, s1.outcome, s4.ends.outcome, s5.outcome)
                (Ends-pure platform laws _ _ s5.state),
            s4.same.metas a ∙ simp (cell_laws, bytes_eq_symm b.as_str a.as_str, other),
            s4.store.stored (hash bytes) (laws.hash_bytes bytes) ∙ rw none_left refl,
          )

      missing :
          (d : Db) {u : View}
          → At platform laws d u
          → u p (metadata_key a) ≡ some json
          → u p (chunk_key (hash bytes)) ≡ none
          → (get_object platform engine id a d).0
            ≡ err (internal (lit "Missing chunk: " ++ to_hex (hash bytes)))
      unfolding Bucket.new new_chunked get_object read_object is_chunked get_large_object
          collect_chunks get_chunk
      missing d at_u there gone =
          let s0 = open_partition-Ends platform laws p d bucket.named at_u in
          let s1 =
            get_metadata-some platform laws (bucket_of engine id) a json
              (chunked_metadata platform stamp bytes) _ s0.state there
              (laws.from_slice-to_vec _ json (rw metadata_chunked at serialises)) in
          let e = get_At platform laws p (chunk_key (hash bytes)) _ s1.state in
          rw (s0.outcome, s1.outcome, one_chunk, e, gone) refl

      -- On a healthy keyspace whose bucket holds some map of objects, for data of one chunk that
      -- can be stored and whose chunk has no references, and for two keys within the limits: when a
      -- second `put_object` of the data, under the second key, runs after the first one has read
      -- the count of references to the chunk and before it writes the chunk, the first one
      -- succeeds; once the second key is then deleted, `get_object` of the first key fails for want
      -- of the chunk.
      pub put_object-races :
          (d : Db)
          → At platform laws d v
          → bytes_eq a.as_str b.as_str ≡ false
          → ((raced platform engine id stamp a stamp' b bytes d).0
              ≡ ok (metadata_of platform engine stamp bytes))
            × (((delete_object platform engine id b >> get_object platform engine id a)
                  (raced platform engine id stamp a stamp' b bytes d).1.0).0
                ≡ err (internal (lit "Missing chunk: " ++ to_hex (hash bytes))))
      put_object-races d at_v other =
          let (w, first, holds) = first-Leaves d at_v in
          let (u, deleted, there, gone) = delete_second w _ first.state holds other in
          (
            first.outcome ∙ rw (metadata_chunked stamp) refl,
            rw deleted.outcome (missing _ deleted.state there gone),
          )
