-- ===== src/Engine/Bucket.antt =====
-- wfldb-engine/src/bucket.rs: a bucket is one partition, which holds four families of cells.
pub mod Cells
pub mod Small
pub mod Store
pub mod Chunks
pub mod Large
pub mod Scan
use wfl_db.Prelude.{
  ℕ, ◌+◌, ◌-◌, ◌%◌, ◌^◌, Option, none, some, List, [], ◌∷◌, ◌++◌, Bytes, Str, lit, length, ltb,
  if◌then◌else◌,
}
use wfl_db.Core.Outcome.{
  Outcome, ok, err, panic, internal, serialization, Exec, pure, raise, lift, ◌>>=◌, ◌>>◌,
}
use wfl_db.Core.BucketId.{BucketId}
use wfl_db.Core.Key.{Key}
use wfl_db.Core.LittleEndian.{u32_to_le, u32_from_le}
use wfl_db.Core.Types.{
  ContentHash, ChunkManifest, ObjectMetadata, Stamp, to_hex, new_inline, new_chunked,
}
use wfl_db.Engine.Platform.{Platform, Answer, done, failed, call}

-- `StorageEngine`, less its keyspace.
pub record StorageEngine : Type 0 where
  pub value_threshold : ℕ

pub record Bucket : Type 0 where
  pub id : BucketId
  pub main_partition : Str
  pub engine : StorageEngine

unfoldable pub metadata_key : Key → Bytes
metadata_key key = lit "meta:" ++ key.as_str

unfoldable pub data_key : Key → Bytes
data_key key = lit "data:" ++ key.as_str

unfoldable pub chunk_key : ContentHash → Bytes
chunk_key hash = lit "chunk:" ++ to_hex hash

unfoldable pub chunk_ref_key : ContentHash → Bytes
chunk_ref_key hash = lit "chunkref:" ++ to_hex hash

-- `format!("{}_main", id.as_str())`
unfoldable pub partition_name : BucketId → Str
partition_name id = id.as_str ++ lit "_main"

-- `map_err(WflDBError::Serialization)`
abbrev pub map_serialization : {A : Type 0} → Answer A → Outcome A
map_serialization (done a) = ok a
map_serialization (failed e) = err (serialization e)

-- `u32::from_le_bytes(ref_data[0..4].try_into().unwrap())`
abbrev pub ref_count_of : Bytes → Outcome ℕ
ref_count_of ref_data = elim (u32_from_le ref_data) [ none ↦ panic | some n ↦ ok n ]

module _ (platform : Platform) where
  open platform use {Db, open_partition, get, insert, remove, persist, hash, to_vec, from_slice}

  unfoldable pub new : StorageEngine → BucketId → Exec Db Bucket
  new engine id = do
    call (open_partition (partition_name id))
    pure (record { id = id; main_partition = partition_name id; engine = engine })

  unfoldable pub put_small : Stamp → Bucket → Key → Bytes → Exec Db ObjectMetadata
  put_small stamp b key bytes =
      if ltb b.engine.value_threshold (length bytes)
      then raise (internal (lit "Data too large for small object storage"))
      else do
        let metadata = new_inline stamp (length bytes) (hash bytes)
        metadata_json ← lift (map_serialization (to_vec metadata))
        call (insert b.main_partition (metadata_key key) metadata_json)
        call (insert b.main_partition (data_key key) bytes)
        call persist
        pure metadata

  unfoldable pub get_small : Bucket → Key → Exec Db (Option Bytes)
  get_small b key = call (get b.main_partition (data_key key))

  -- A chunk that is there already: one more reference, in a `u32` that wraps.
  unfoldable pub add_reference : Bucket → ContentHash → Bytes → Exec Db (Unit {0})
  add_reference b h ref_data = do
    ref_count ← lift (ref_count_of ref_data)
    call (insert b.main_partition (chunk_ref_key h) (u32_to_le ((ref_count + 1) % 2 ^ 32)))

  unfoldable pub add_chunk : Bucket → ContentHash → Bytes → Exec Db (Unit {0})
  add_chunk b h chunk = do
    call (insert b.main_partition (chunk_key h) chunk)
    call (insert b.main_partition (chunk_ref_key h) (u32_to_le 1))

  -- The body of the loop of `put_large`.
  unfoldable pub store_chunk : Bucket → Bytes → Exec Db (Unit {0})
  store_chunk b chunk = do
    let h = hash chunk
    existing_ref ← call (get b.main_partition (chunk_ref_key h))
    elim existing_ref [ some ref_data ↦ add_reference b h ref_data | none ↦ add_chunk b h chunk ]

  unfoldable pub store_chunks :
      Bucket → List Bytes → List ContentHash → ℕ → Exec Db (List ContentHash × ℕ)
  store_chunks b [] chunk_hashes total_size = pure (chunk_hashes, total_size)
  store_chunks b (chunk ∷ chunks) chunk_hashes total_size = do
    store_chunk b chunk
    store_chunks b chunks (chunk_hashes ++ hash chunk ∷ []) ((total_size + length chunk) % 2 ^ 64)

  -- `chunks.first().map(|c| c.len() as u32).unwrap_or(0)`
  unfoldable pub first_size : List Bytes → ℕ
  first_size [] = 0
  first_size (c ∷ cs) = length c % 2 ^ 32

  unfoldable pub put_large : Stamp → Bucket → Key → List Bytes → Exec Db ObjectMetadata
  put_large stamp b key chunks = do
    (chunk_hashes, total_size) ← store_chunks b chunks [] 0
    let metadata =
        new_chunked stamp (record {
          chunks = chunk_hashes;
          chunk_size = first_size chunks;
          total_size = total_size;
        })
    metadata_json ← lift (map_serialization (to_vec metadata))
    call (insert b.main_partition (metadata_key key) metadata_json)
    call persist
    pure metadata

  unfoldable pub get_metadata : Bucket → Key → Exec Db (Option ObjectMetadata)
  get_metadata b key = do
    found ← call (get b.main_partition (metadata_key key))
    elim found [
      | none ↦ pure none
      | some bytes ↦ do metadata ← lift (map_serialization (from_slice bytes)); pure (some metadata)
    ]

  unfoldable pub get_chunk : Bucket → ContentHash → Exec Db (Option Bytes)
  get_chunk b h = call (get b.main_partition (chunk_key h))

  -- `let _ = self.main_partition.remove(…);`
  unfoldable pub discard : Bucket → Bytes → Exec Db (Unit {0})
  discard b k d = (ok tt, (remove b.main_partition k d).1)

  unfoldable pub drop_reference : Bucket → ContentHash → Bytes → Exec Db (Unit {0})
  drop_reference b h ref_data = do
    ref_count ← lift (ref_count_of ref_data)
    (if ltb 1 ref_count
        then call (insert b.main_partition (chunk_ref_key h) (u32_to_le (ref_count - 1)))
        else (do discard b (chunk_key h); discard b (chunk_ref_key h)))

  -- The body of the loop of `delete`.
  unfoldable pub release_chunk : Bucket → ContentHash → Exec Db (Unit {0})
  release_chunk b h = do
    found ← call (get b.main_partition (chunk_ref_key h))
    elim found [ none ↦ pure tt | some ref_data ↦ drop_reference b h ref_data ]

  unfoldable pub release_chunks : Bucket → List ContentHash → Exec Db (Unit {0})
  release_chunks b [] = pure tt
  release_chunks b (h ∷ hs) = do release_chunk b h; release_chunks b hs

  unfoldable pub release_manifest : Bucket → Option ChunkManifest → Exec Db (Unit {0})
  release_manifest b none = pure tt
  release_manifest b (some m) = release_chunks b m.chunks

  unfoldable pub remove_object : Bucket → Key → Option ObjectMetadata → Exec Db (Unit {0})
  remove_object b key none = pure tt
  remove_object b key (some metadata) = do
    discard b (metadata_key key)
    discard b (data_key key)
    release_manifest b metadata.chunk_manifest

  unfoldable pub delete : Bucket → Key → Exec Db (Unit {0})
  delete b key = do
    metadata ← get_metadata b key
    remove_object b key metadata
    call persist
    pure tt
