-- ===== src/Tests/Storage.antt =====
-- The theorems about `Storage` at an empty bucket in memory.
use wfl_db.Engine.Limits.{ShortName-NameFits, ShortKey, ShortName}
use wfl_db.Tests.Ordered.{find}
use wfl_db.Engine.Refinement.Batch.{batch-Refines}
use wfl_db.Engine.Refinement.Operations.{too_large, run_ops}
use wfl_db.Engine.Objects.{lookup, hashes_of, assign}
use wfl_db.Engine.Storage.Chunking.{chunk_data-Splits, Splits}
use wfl_db.Tests.Codec.{metadata_out}
use wfl_db.Core.BucketId.{BucketId}
use wfl_db.Engine.Storage.{
  batch, chunk_size, get_object, chunks_fuel, put_object, chunks, chunk_data,
}
use wfl_db.Engine.Bucket.Store.{count, Refs}
use wfl_db.Core.Types.{BatchResult, BatchOperation, ContentHash, Stamp}
use wfl_db.Prelude.{ℕ, List, ◌+◌, some, arith, refl, ◌∷◌, bytes_eq, [], Bytes, lit, ◌≡◌}
use wfl_db.Core.Outcome.{ok, ◌>>◌}
use wfl_db.Core.Key.{Key}
use wfl_db.Engine.Bucket.{StorageEngine, partition_name}
use wfl_db.Engine.Invariant.{IsBucket}
use wfl_db.Engine.Refinement.{object_of, Refines, metadata_of}
use wfl_db.Engine.Refinement.Put.{put_object-Refines, Storable}
use wfl_db.Engine.Refinement.RoundTrip.{get_object-put_object}
use wfl_db.Tests.Memory.{At-memory, memory, memory_laws}

-- A threshold of two bytes, so that three bytes are stored as a chunk.
abbrev pub small_engine : StorageEngine
small_engine = record { value_threshold = 2 }

abbrev pub photos : BucketId
photos = record { as_str = lit "photos" }

abbrev pub cat : Key
cat = record { as_str = lit "cat" }

abbrev pub picture : Bytes
picture = 7 ∷ 8 ∷ 9 ∷ []

abbrev pub stamp : Stamp
stamp = record { version = 1; now = 2 }

abbrev pub blob : ContentHash → Bytes
blob h = picture

abbrev pub nothing : Refs
nothing g = 0

pub photos-ShortName : ShortName photos
photos-ShortName = omega arith

pub cat-ShortKey : ShortKey cat
cat-ShortKey = omega arith

pub empty-IsBucket : IsBucket memory (partition_name photos) blob [] nothing (find [])
empty-IsBucket = record {
  named = ShortName-NameFits photos photos-ShortName;
  unique = tt;
  metas = λ k. refl;
  sound = λ k o e. cc;
  bodies = λ k o e n. cc;
  store = record { counts = λ h hb. refl; stored = λ h hb. refl };
}

abbrev pub picture_json : Bytes
picture_json = metadata_out (metadata_of memory small_engine stamp picture)

pub picture-Storable : Storable memory small_engine blob [] nothing stamp picture picture_json
unfolding chunk_data chunks chunks_fuel
picture-Storable = record {
  serialises = refl;
  collision_free = λ _. (refl, tt);
  room = λ _ g. omega arith;
}

get_object-put_object_example :
    ((put_object memory stamp small_engine photos cat picture
        >> get_object memory small_engine photos cat)
      []).0
    ≡ ok (some picture)
unfolding bytes_eq
get_object-put_object_example =
    get_object-put_object memory memory_laws small_engine photos blob [] (At-memory [])
      empty-IsBucket stamp cat cat picture picture_json cat-ShortKey picture-Storable

put_object-Refines_example :
    Refines memory memory_laws small_engine photos blob
      (put_object memory stamp small_engine photos cat picture [])
      (ok (metadata_of memory small_engine stamp picture))
      (assign cat
        (object_of (metadata_of memory small_engine stamp picture) picture_json picture)
        [])
      (λ g. 0 + count g (hashes_of (lookup cat [])))
      (find [])
put_object-Refines_example =
    put_object-Refines memory memory_laws small_engine photos blob [] (At-memory []) empty-IsBucket
      stamp cat picture picture_json cat-ShortKey picture-Storable

chunk_data-Splits_example : Splits chunk_size picture (chunk_data picture)
chunk_data-Splits_example = chunk_data-Splits picture

abbrev pub docs : BucketId
docs = record { as_str = lit "docs" }

abbrev operations : List BatchOperation
operations =
    BatchOperation.put cat (5 ∷ [])
    ∷ BatchOperation.put cat picture
    ∷ BatchOperation.delete cat
    ∷ []

abbrev same_stamp : ℕ → Stamp
same_stamp i = stamp

batch-Refines_example :
    let s =
      run_ops memory small_engine same_stamp 0 operations
        (record { objects = []; leaked = nothing }) in
    Refines memory memory_laws small_engine photos blob
      (batch memory same_stamp small_engine photos operations [])
      (ok (BatchResult.success ∷ too_large ∷ BatchResult.success ∷ []))
      s.objects
      s.leaked
      (find [])
batch-Refines_example =
    batch-Refines memory memory_laws small_engine photos blob [] (At-memory []) empty-IsBucket
      same_stamp operations (cat-ShortKey, (cat-ShortKey, (cat-ShortKey, tt)))
      (refl, (refl, (tt, tt)))
