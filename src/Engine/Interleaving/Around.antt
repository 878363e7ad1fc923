-- ===== src/Engine/Interleaving/Around.antt =====
-- `put_object` with another call between its second and its third access: between reading the
-- count of a chunk's references and writing the chunk (the loop of `put_large`).
use wfl_db.Engine.Limits.{metadata_key-KeyFits, chunk_ref_key-KeyFits, chunk_key-KeyFits, ShortKey}
use wfl_db.Core.LittleEndian.{u32_to_le}
use wfl_db.Engine.Effect.{persist-Ends, insert-Ends, get_At, open_partition-Ends, At}
use mathlib.Core.Path.{fun_ext}
use wfl_db.Engine.Bucket
use wfl_db.Engine.Storage.Chunking.{chunk_data_single}
use wfl_db.Engine.Refinement.{chunked_metadata}
use wfl_db.Engine.Interleaving.{shared, Others}
use wfl_db.Core.Outcome.{ok, done, Outcome}
use wfl_db.Core.Key.{Key}
use wfl_db.Core.Types.{new_chunked, ObjectMetadata, Stamp}
use wfl_db.Core.BucketId.{BucketId}
use wfl_db.Engine.Bucket.{
  get_chunk, data_key, release_manifest, discard, remove_object, chunk_key, chunk_ref_key,
  metadata_key, add_chunk, store_chunk, store_chunks, put_large, partition_name, StorageEngine,
}
use wfl_db.Engine.Platform.{NameFits, call, write, View, Laws, Platform}
use wfl_db.Prelude.{
  refl, none, some, eq_of_bytes_eq, arith, lt→leb, ◌≤◌, length, ◌<◌, ◌∷◌, [], ◌≡◌, Option, Bytes,
  Str,
}
use wfl_db.Engine.Storage.{chunk_size, put_object}

-- Writing what is there already changes nothing.
pub write_same : (p : Str) (k : Bytes) (x : Option Bytes) (v : View) → v p k ≡ x → write p k x v ≡ v
write_same p k x v e =
    fun_ext (λ q. fun_ext (λ j. ground (arith, eq_of_bytes_eq p q, eq_of_bytes_eq k j)))

module _ (platform : Platform) (engine : StorageEngine) (id : BucketId) where
  open platform use {Db}

  -- A `put_object`, with what the others do between its second and its third access.
  abbrev pub around :
      Stamp → Key → Bytes → (Db → Db) → Db → Outcome ObjectMetadata × (Db × Others Db)
  around stamp a bytes o d =
      put_object (shared platform) stamp engine id a bytes (d, (λ d'. d') ∷ (λ d'. d') ∷ o ∷ [])

  -- What the others do is to put the same data under another key.
  abbrev pub raced :
      Stamp → Key → Stamp → Key → Bytes → Db → Outcome ObjectMetadata × (Db × Others Db)
  raced stamp a stamp' b bytes =
      around stamp a bytes (λ d. (put_object platform stamp' engine id b bytes d).1)

module _ (platform : Platform) (laws : Laws platform) (engine : StorageEngine) (id : BucketId)
    (stamp : Stamp) (a : Key) (bytes : Bytes) where
  open platform use {Db, hash, to_vec}

  abbrev p : Str
  p = partition_name id

  pub record Leaves {A : Type 0} (r : Outcome A × (Db × Others Db)) (out : Outcome A) (v : View)
      : Type 0 where
    pub outcome : r.0 ≡ out
    pub state : At platform laws r.1.0 v

  Leaves-pure :
      {A : Type 0} (out : Outcome A) (dx : Db × Others Db) {v : View}
      → At platform laws dx.0 v
      → Leaves (out, dx) out v
  Leaves-pure out dx h = record { outcome = refl; state = h }

  pub around-Leaves :
      (o : Db → Db) (json : Bytes) (d : Db) {v w : View}
      → NameFits p
      → ShortKey a
      → At platform laws d v
      → engine.value_threshold < length bytes
      → length bytes ≤ chunk_size
      → to_vec (chunked_metadata platform stamp bytes) ≡ done json
      → v p (chunk_ref_key (hash bytes)) ≡ none
      → At platform laws (o (call (platform.open_partition p) d).1) w
      → Leaves
          (around platform engine id stamp a bytes o d)
          (ok (chunked_metadata platform stamp bytes))
          (write p (metadata_key a) (some json) (
            write p
              (chunk_ref_key (hash bytes))
              (some (u32_to_le 1))
              (write p (chunk_key (hash bytes)) (some bytes) w)))
  unfolding put_object Bucket.new put_large store_chunks store_chunk add_chunk new_chunked
      Bucket.first_size
  around-Leaves o json d named short at_v large single serialises no_count during =
      let one = chunk_data_single bytes (omega arith) single in
      let s0 = open_partition-Ends platform laws p d named at_v in
      let e1 = get_At platform laws p (chunk_ref_key (hash bytes)) _ s0.state in
      let s3 =
        insert-Ends platform laws p (chunk_key (hash bytes)) bytes _
          (chunk_key-KeyFits (hash bytes) (laws.hash_fits bytes)) during in
      let s4 =
        insert-Ends platform laws p (chunk_ref_key (hash bytes)) (u32_to_le 1) _
          (chunk_ref_key-KeyFits (hash bytes) (laws.hash_fits bytes)) s3.state in
      let s5 =
        insert-Ends platform laws p (metadata_key a) json _ (metadata_key-KeyFits a short)
          s4.state in
      let s6 = persist-Ends platform laws _ s5.state in
      let serialises' = rw one at serialises in
      rw
        (
          one,
          lt→leb (length bytes) engine.value_threshold large,
          s0.outcome,
          e1,
          no_count,
          s3.outcome,
          s4.outcome,
          serialises',
          s5.outcome,
          s6.outcome,
        )
        (Leaves-pure _ _ s6.state)
