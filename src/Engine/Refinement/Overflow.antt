-- ===== src/Engine/Refinement/Overflow.antt =====
-- A chunk whose references are as many as a `u32` holds, and one reference more.
use wfl_db.Engine.Limits.{
  chunk_key-KeyFits, data_key-KeyFits, metadata_key-KeyFits, chunk_ref_key-KeyFits,
  ShortName-NameFits, ShortKey, ShortName,
}
use wfl_db.Engine.Bucket.Chunks.{ref_count_known}
use wfl_db.Engine.Bucket.{data_key}
use wfl_db.Engine.Bucket.Cells.{cell_laws}
use wfl_db.Engine.Bucket.Large.{get_metadata-some}
use wfl_db.Core.LittleEndian.{u32_to_le}
use wfl_db.Engine.Storage.Chunking.{chunk_data_single}
use wfl_db.Engine.Effect.{
  Ends-pure, persist-Ends, insert-Ends, remove_At, get_At, open_partition-Ends, Ends, At,
}
use wfl_db.Core.Outcome.{◌>>◌, ok, done}
use wfl_db.Engine.Refinement.{bucket_of, chunked_metadata}
use wfl_db.Core.Key.{Key}
use wfl_db.Core.Types.{new_chunked, Stamp}
use wfl_db.Core.BucketId.{BucketId}
use wfl_db.Engine.Platform.{KeyFits, write, View, Laws, Platform}
use wfl_db.Prelude.{
  lt→leb, refl, none, some, arith, [], ◌∷◌, Str, ◌≡◌, ◌≤◌, length, ◌<◌, Bytes, ◌-◌, ◌^◌, ℕ,
}
use wfl_db.Engine.Storage.{chunk_data, chunk_size, put_object, delete_object}
use wfl_db.Engine.Bucket
use wfl_db.Engine.Bucket.{
  ref_count_of, chunk_key, metadata_key, drop_reference, release_chunk, chunk_ref_key,
  release_chunks, add_reference, discard, store_chunk, remove_object, store_chunks, partition_name,
  get_chunk, put_large, StorageEngine, release_manifest,
}

abbrev pub most : ℕ
most = 2 ^ 32 - 1

module _ (platform : Platform) (laws : Laws platform) (engine : StorageEngine) (id : BucketId)
    (stamp : Stamp) (key : Key) (bytes json : Bytes) (large : engine.value_threshold < length bytes)
    (single : length bytes ≤ chunk_size) (named : ShortName id) (short : ShortKey key)
    (serialises : platform.to_vec (chunked_metadata platform stamp bytes) ≡ done json) where
  open platform use {Db, hash, to_vec}

  abbrev p : Str
  p = partition_name id

  one_chunk : chunk_data bytes ≡ bytes ∷ []
  one_chunk = chunk_data_single bytes (omega arith) single

  ref_fits : KeyFits (chunk_ref_key (hash bytes))
  ref_fits = chunk_ref_key-KeyFits (hash bytes) (laws.hash_fits bytes)

  -- The count after the write.
  put_wraps :
      (d : Db) {v : View}
      → At platform laws d v
      → v p (chunk_ref_key (hash bytes)) ≡ some (u32_to_le most)
      → Ends platform laws
          (put_object platform stamp engine id key bytes d)
          (ok (chunked_metadata platform stamp bytes))
          (write p
            (metadata_key key)
            (some json)
            (write p (chunk_ref_key (hash bytes)) (some (u32_to_le 0)) v))
  unfolding put_object Bucket.new put_large store_chunks store_chunk add_reference new_chunked
      Bucket.first_size
  put_wraps d a full =
      let s0 = open_partition-Ends platform laws p d (ShortName-NameFits id named) a in
      let e1 = get_At platform laws p (chunk_ref_key (hash bytes)) _ s0.state in
      let known = ref_count_known most (omega arith) in
      let s2 =
        insert-Ends platform laws p (chunk_ref_key (hash bytes)) (u32_to_le 0) _ ref_fits
          s0.state in
      let s3 =
        insert-Ends platform laws p (metadata_key key) json _ (metadata_key-KeyFits key short)
          s2.state in
      let s4 = persist-Ends platform laws _ s3.state in
      let serialises' = rw one_chunk at serialises in
      rw
        (
          one_chunk,
          lt→leb (length bytes) engine.value_threshold large,
          s0.outcome,
          e1,
          full,
          known,
          s2.outcome,
          serialises',
          s3.outcome,
          s4.outcome,
        )
        (Ends-pure platform laws _ _ s4.state)

  -- With a count of 0 a deletion takes the chunk away.
  delete_takes :
      (d : Db) {v : View}
      → At platform laws d v
      → v p (metadata_key key) ≡ some json
      → v p (chunk_ref_key (hash bytes)) ≡ some (u32_to_le 0)
      → (u : View) × Ends platform laws (delete_object platform engine id key d) (ok tt) u
        × (u p (chunk_key (hash bytes)) ≡ none)
  unfolding Bucket.new new_chunked delete_object Bucket.delete remove_object discard
      release_manifest release_chunks release_chunk drop_reference
  delete_takes d {v} a there zero_refs =
      let s0 = open_partition-Ends platform laws p d (ShortName-NameFits id named) a in
      let s1 =
        get_metadata-some platform laws (bucket_of engine id) key json
          (chunked_metadata platform stamp bytes) _ s0.state there
          (laws.from_slice-to_vec _ json serialises) in
      let a2 =
        remove_At platform laws p (metadata_key key) _ (metadata_key-KeyFits key short) s1.state in
      let a3 = remove_At platform laws p (data_key key) _ (data_key-KeyFits key short) a2 in
      let e4 = get_At platform laws p (chunk_ref_key (hash bytes)) _ a3 in
      let now : write p (data_key key) none (write p (metadata_key key) none v) p
            (chunk_ref_key (hash bytes))
          ≡ some (u32_to_le 0) =
        simp cell_laws zero_refs in
      let known = ref_count_known 0 (omega arith) in
      let a5 =
        remove_At platform laws p (chunk_key (hash bytes)) _
          (chunk_key-KeyFits (hash bytes) (laws.hash_fits bytes)) a3 in
      let a6 = remove_At platform laws p (chunk_ref_key (hash bytes)) _ ref_fits a5 in
      let s7 = persist-Ends platform laws _ a6 in
      (
        write p (chunk_ref_key (hash bytes)) none (
            write p (chunk_key (hash bytes)) none
              (write p (data_key key) none (write p (metadata_key key) none v))),
        rw (s0.outcome, s1.outcome, one_chunk, e4, now, known, s7.outcome)
            (Ends-pure platform laws _ _ s7.state),
        simp cell_laws,
      )

  -- On a healthy keyspace, for data of one chunk over the threshold whose metadata can be
  -- serialised, a bucket and a key within the limits: when the chunk has 2 ^ 32 - 1 references, a
  -- `put_object` of the data succeeds and the count wraps to 0, and a `delete_object` of the key
  -- then removes the chunk.
  pub put_object-wraps :
      (d : Db) {v : View}
      → At platform laws d v
      → v p (chunk_ref_key (hash bytes)) ≡ some (u32_to_le most)
      → ((put_object platform stamp engine id key bytes d).0
          ≡ ok (chunked_metadata platform stamp bytes))
        × (laws.view
              (put_object platform stamp engine id key bytes d).1
              p
              (chunk_ref_key (hash bytes))
            ≡ some (u32_to_le 0))
        × (((put_object platform stamp engine id key bytes
                >> delete_object platform engine id key
                >> get_chunk platform (bucket_of engine id) (hash bytes))
              d).0
            ≡ ok none)
  unfolding get_chunk
  put_object-wraps d a full =
      let r = put_wraps d a full in
      let (u, s, gone) = delete_takes _ r.state (simp cell_laws) (simp cell_laws) in
      let e = get_At platform laws p (chunk_key (hash bytes)) _ s.state in
      (r.outcome, rw r.state.reads (simp cell_laws), rw (r.outcome, s.outcome, e, gone) refl)
