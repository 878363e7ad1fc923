-- ===== src/Engine/Storage.antt =====
-- wfldb-engine/src/storage.rs: routing by size, chunking, reassembly and batches.
pub mod Chunking
use wfl_db.Engine.Bucket.Scan.{scan_prefix}
use wfl_db.Prelude.{
  Str, ℕ, zero, suc, ◌*◌, Option, none, some, List, [], ◌∷◌, ◌++◌, Bytes, lit, length, take, drop,
  leb, if◌then◌else◌,
}
use wfl_db.Core.Outcome.{Outcome, err, internal, storage, Exec, pure, raise, lift, ◌>>=◌, ◌>>◌}
use wfl_db.Core.BucketId.{BucketId}
use wfl_db.Core.Key.{Key}
use wfl_db.Core.Types.{
  ContentHash, ObjectMetadata, Stamp, BatchOperation, BatchResult, to_hex, new_inline, is_chunked,
}
use wfl_db.Engine.Platform.{Platform, BatchItem, done, failed, call}
use wfl_db.Engine.Bucket
use wfl_db.Engine.Bucket.{
  StorageEngine, Bucket, metadata_key, data_key, map_serialization, put_small, get_small, put_large,
  get_metadata, get_chunk, delete,
}

-- The threshold that `StorageEngine::new` sets.
abbrev pub default_engine : StorageEngine
default_engine = record { value_threshold = 64 * 1024 }

abbrev pub chunk_size : ℕ
chunk_size = 4 * 1024 * 1024

-- `slice::chunks`, with as much fuel as there are bytes.
unfoldable pub chunks_fuel {ℓ} : {A : Type ℓ} → ℕ → ℕ → List A → List (List A)
chunks_fuel zero n xs = []
chunks_fuel (suc fuel) n [] = []
chunks_fuel (suc fuel) n (x ∷ xs) = take n (x ∷ xs) ∷ chunks_fuel fuel n (drop n (x ∷ xs))

unfoldable pub chunks {ℓ} : {A : Type ℓ} → ℕ → List A → List (List A)
chunks n xs = chunks_fuel (length xs) n xs

unfoldable pub chunk_data : Bytes → List Bytes
chunk_data bytes = chunks chunk_size bytes

module _ (platform : Platform) where
  open platform use {Db, commit, persist, hash, to_vec}

  unfoldable pub put_object :
      Stamp → StorageEngine → BucketId → Key → Bytes → Exec Db ObjectMetadata
  put_object stamp engine bucket_id key bytes = do
    bucket ← Bucket.new platform engine bucket_id
    (if leb (length bytes) engine.value_threshold
        then put_small platform stamp bucket key bytes
        else put_large platform stamp bucket key (chunk_data bytes))

  -- The loop of `get_large_object`.
  unfoldable pub collect_chunks : Bucket → List ContentHash → Bytes → Exec Db Bytes
  collect_chunks bucket [] bytes = pure bytes
  collect_chunks bucket (h ∷ hs) bytes = do
    found ← get_chunk platform bucket h
    elim found [
      | some chunk ↦ collect_chunks bucket hs (bytes ++ chunk)
      | none ↦ raise (internal (lit "Missing chunk: " ++ to_hex h))
    ]

  unfoldable pub get_large_object : Bucket → ObjectMetadata → Exec Db (Option Bytes)
  get_large_object bucket metadata = elim metadata.chunk_manifest [
    | none ↦ raise (internal (lit "Missing chunk manifest"))
    | some manifest ↦ do bytes ← collect_chunks bucket manifest.chunks []; pure (some bytes)
  ]

  unfoldable pub read_object : Bucket → Key → Option ObjectMetadata → Exec Db (Option Bytes)
  read_object bucket key none = pure none
  read_object bucket key (some metadata) =
      if is_chunked metadata
      then get_large_object bucket metadata
      else get_small platform bucket key

  unfoldable pub get_object : StorageEngine → BucketId → Key → Exec Db (Option Bytes)
  get_object engine bucket_id key = do
    bucket ← Bucket.new platform engine bucket_id
    metadata ← get_metadata platform bucket key
    read_object bucket key metadata

  unfoldable pub object_metadata : StorageEngine → BucketId → Key → Exec Db (Option ObjectMetadata)
  object_metadata engine bucket_id key = do
    bucket ← Bucket.new platform engine bucket_id
    get_metadata platform bucket key

  unfoldable pub delete_object : StorageEngine → BucketId → Key → Exec Db (Unit {0})
  delete_object engine bucket_id key = do
    bucket ← Bucket.new platform engine bucket_id
    delete platform bucket key

  unfoldable pub list_objects : StorageEngine → BucketId → Str → Option ℕ → Exec Db (List Key)
  list_objects engine bucket_id prefix limit = do
    bucket ← Bucket.new platform engine bucket_id
    scan_prefix platform bucket prefix limit

  -- One round of the loop of `batch`: what is added to the batch, and the operation's result.
  unfoldable pub plan :
      Stamp → StorageEngine → Bucket → BatchOperation → Outcome (List BatchItem × BatchResult)
  plan stamp engine bucket (BatchOperation.put key bytes) =
      let p = bucket.main_partition in
      let metadata = new_inline stamp (length bytes) (hash bytes) in
      if leb (length bytes) engine.value_threshold
      then elim (map_serialization (to_vec metadata)) [
        | Outcome.ok json ↦ Outcome.ok (
          BatchItem.insert p (metadata_key key) json ∷ BatchItem.insert p (data_key key) bytes ∷ [],
          BatchResult.success,
        )
        | Outcome.err e ↦ Outcome.err e
        | Outcome.panic ↦ Outcome.panic
      ]
      else Outcome.ok
          ([], BatchResult.error (lit "Large objects not supported in batch operations yet"))
  plan stamp engine bucket (BatchOperation.delete key) =
      let p = bucket.main_partition in
      Outcome.ok (
        BatchItem.remove p (metadata_key key) ∷ BatchItem.remove p (data_key key) ∷ [],
        BatchResult.success,
      )

  -- The loop of `batch`; the i-th operation takes its stamp from the i-th reading of the clock.
  unfoldable pub plan_all :
      (ℕ → Stamp)
      → ℕ
      → StorageEngine
      → Bucket
      → List BatchOperation
      → List BatchItem
      → List BatchResult
      → Outcome (List BatchItem × List BatchResult)
  plan_all clock i engine bucket [] items results = Outcome.ok (items, results)
  plan_all clock i engine bucket (op ∷ ops) items results = elim (plan (clock i) engine bucket op) [
    | Outcome.ok (more, result) ↦
        plan_all clock (suc i) engine bucket ops (items ++ more) (results ++ result ∷ [])
    | Outcome.err e ↦ Outcome.err e
    | Outcome.panic ↦ Outcome.panic
  ]

  -- `map_err(|e| WflDBError::Storage(format!("Batch commit failed: {}", e)))`
  unfoldable pub commit_batch : List BatchItem → Exec Db (Unit {0})
  commit_batch items d =
      let (answer, d') = commit items d in
      (
        elim answer [
          | done u ↦ Outcome.ok u
          | failed e ↦ err (storage (lit "Batch commit failed: " ++ e))
        ],
        d',
      )

  unfoldable pub batch :
      (ℕ → Stamp) → StorageEngine → BucketId → List BatchOperation → Exec Db (List BatchResult)
  batch clock engine bucket_id operations = do
    bucket ← Bucket.new platform engine bucket_id
    (items, results) ← lift (plan_all clock 0 engine bucket operations [] [])
    commit_batch items
    call persist
    pure results
