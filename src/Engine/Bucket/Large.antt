-- ===== src/Engine/Bucket/Large.antt =====
-- `put_large`, `get_metadata` and the loop of `get_large_object` on a healthy keyspace.
use wfl_db.Engine.Limits.{metadata_key-KeyFits, ShortKey}
use wfl_db.Engine.Storage.{collect_chunks}
use wfl_db.Engine.Bucket.Chunks.{store_chunks-Stores, size_from}
use wfl_db.Prelude.{
  append_assoc, bytes_eq_refl, arith, ◌∷◌, append-nil, ◌++◌, ◌≤◌, IsBytes, flatten, [], ◌^◌, ◌<◌,
  length, ◌+◌, map, All, List, some, Bytes, none, ◌≡◌,
}
use wfl_db.Core.Key.{Key}
use wfl_db.Engine.Platform.{Platform, Laws, View, write}
use wfl_db.Engine.Bucket.{
  chunk_key, get_chunk, first_size, new_chunked, done, Stamp, ObjectMetadata, ok, ContentHash,
  Bucket, metadata_key, put_large, get_metadata,
}
use wfl_db.Engine.Bucket.Store.{Refs, count, IsStore, SameObjects}
use wfl_db.Engine.Effect.{persist-Ends, insert-Ends, Ends-pure, At, Ends, get_At}

-- The metadata that `put_large` writes for some chunks.
abbrev pub large_metadata : Platform → Stamp → List Bytes → ObjectMetadata
large_metadata platform stamp chunks = new_chunked stamp (record {
  chunks = map platform.hash chunks;
  chunk_size = first_size platform chunks;
  total_size = size_from 0 chunks;
})

module _ (platform : Platform) (laws : Laws platform) (b : Bucket) where
  open platform use {Db, hash, to_vec, from_slice}

  pub get_metadata-none :
      (key : Key) (d : Db) {v : View}
      → At platform laws d v
      → v b.main_partition (metadata_key key) ≡ none
      → Ends platform laws (get_metadata platform b key d) (ok none) v
  unfolding get_metadata
  get_metadata-none key d a e =
      let s1 = get_At platform laws b.main_partition (metadata_key key) d a in
      rw (s1, e) (Ends-pure platform laws _ d a)

  pub get_metadata-some :
      (key : Key) (json : Bytes) (metadata : ObjectMetadata) (d : Db) {v : View}
      → At platform laws d v
      → v b.main_partition (metadata_key key) ≡ some json
      → from_slice json ≡ done metadata
      → Ends platform laws (get_metadata platform b key d) (ok (some metadata)) v
  unfolding get_metadata
  get_metadata-some key json metadata d a e decodes =
      let s1 = get_At platform laws b.main_partition (metadata_key key) d a in
      rw (s1, e, decodes) (Ends-pure platform laws _ d a)

  module _ (blob : ContentHash → Bytes) where
    pub put_large-Stores :
        (stamp : Stamp) (key : Key) (chunks : List Bytes) (json : Bytes) (d : Db) {refs : Refs}
        {v : View}
        → ShortKey key
        → At platform laws d v
        → IsStore b.main_partition blob refs v
        → All (λ c. blob (hash c) ≡ c) chunks
        → ((g : ContentHash) → refs g + length chunks < 2 ^ 32)
        → to_vec (large_metadata platform stamp chunks) ≡ done json
        → (w : View) × Ends platform laws
            (put_large platform stamp b key chunks d)
            (ok (large_metadata platform stamp chunks))
            (write b.main_partition (metadata_key key) (some json) w)
          × IsStore b.main_partition blob (λ g. refs g + count g (map hash chunks)) w
          × SameObjects b.main_partition v w
    unfolding put_large
    put_large-Stores stamp key chunks json d short a s known room serialised =
        let s1 = store_chunks-Stores platform laws b blob chunks [] 0 d a s known room in
        let s2 =
          insert-Ends platform laws b.main_partition (metadata_key key) json _
            (metadata_key-KeyFits key short) s1.ends.state in
        let s3 = persist-Ends platform laws _ s2.state in
        (
          s1.after,
          rw (s1.ends.outcome, serialised, s2.outcome, s3.outcome)
              (Ends-pure platform laws _ _ s3.state),
          s1.store,
          s1.same,
        )

    pub collect_chunks-Ends :
        (hs : List ContentHash) (bytes : Bytes) (d : Db) {refs : Refs} {v : View}
        → At platform laws d v
        → IsStore b.main_partition blob refs v
        → All IsBytes hs
        → ((g : ContentHash) → count g hs ≤ refs g)
        → Ends platform laws
            (collect_chunks platform b hs bytes d)
            (ok (bytes ++ flatten (map blob hs)))
            v
    unfolding collect_chunks get_chunk flatten
    collect_chunks-Ends [] bytes d a s hb held = rw append-nil (Ends-pure platform laws _ d a)
    collect_chunks-Ends (h ∷ hs) bytes d {refs} {v} a s hb held =
        let s1 = get_At platform laws b.main_partition (chunk_key h) d a in
        let there : v b.main_partition (chunk_key h) ≡ some (blob h) =
          ground (arith, s.stored h hb.0, held h, bytes_eq_refl h) in
        let rest =
          collect_chunks-Ends hs (bytes ++ blob h) d a s hb.1 (λ g. ground (arith, held g)) in
        rw (s1, there) (rw append_assoc at rest)

  pub hashes_proper : (chunks : List Bytes) → All IsBytes (map hash chunks)
  hashes_proper [] = tt
  hashes_proper (c ∷ cs) = (laws.hash_bytes c, hashes_proper cs)

  pub hashes_sized : (chunks : List Bytes) → All (λ h. length h ≤ 32) (map hash chunks)
  hashes_sized [] = tt
  hashes_sized (c ∷ cs) = (laws.hash_fits c, hashes_sized cs)
