-- ===== src/Tests/Failing.antt =====
-- The theorems about calls that fail.
use wfl_db.Engine.Limits.{ShortName-NameFits}
use wfl_db.Tests.Flaky.{kept, kept_faults, flaky_faults, flaky}
use wfl_db.Engine.Faults.Batch.{batch-AllOrNone, AllOrNone, Applied}
use wfl_db.Core.Types.{BatchOperation, new_inline}
use wfl_db.Engine.Faults.Delete.{delete_object_unnoticed}
use wfl_db.Engine.Faults.Get.{get_object_of_Readable}
use wfl_db.Engine.Faults.Put.{put_object-OldOrNew, OldOrNew, New}
use wfl_db.Engine.Invariant.{IsBucket}
use wfl_db.Engine.Faults.Small.{put_object-torn, Stages, Done}
use wfl_db.Tests.Storage.{
  photos-ShortName, picture, nothing, cat, blob, stamp, small_engine, photos,
}
use wfl_db.Engine.Refinement.{chunked_metadata, metadata_of}
use wfl_db.Engine.Bucket.{first_size, data_key, metadata_key, partition_name}
use wfl_db.Engine.Storage.{
  batch, put_object, chunks_fuel, get_object, chunks, delete_object, chunk_data,
}
use wfl_db.Engine.Faults.Readable.{IsBucket-Readable, Readable}
use wfl_db.Tests.Codec.{metadata_out}
use wfl_db.Tests.Ordered.{find}
use wfl_db.Core.Outcome.{ok, done}
use wfl_db.Engine.Faults.{Result}
use wfl_db.Tests.Memory.{digest, memory}
use wfl_db.Prelude.{All, bytes_eq, arith, [], refl, none, ◌≡◌, ◌∷◌, Bytes, Str, List}

abbrev dot : Bytes
dot = 5 ∷ []

abbrev dot_json : Bytes
dot_json = metadata_out (metadata_of memory small_engine stamp dot)

empty-Flaky : IsBucket flaky (partition_name photos) blob [] nothing (find [])
empty-Flaky = record {
  named = ShortName-NameFits photos photos-ShortName;
  unique = tt;
  metas = λ k. refl;
  sound = λ k o e. cc;
  bodies = λ k o e n. cc;
  store = record { counts = λ h hb. refl; stored = λ h hb. refl };
}

empty-Readable : Readable flaky (partition_name photos) blob [] (find [])
empty-Readable = IsBucket-Readable flaky (partition_name photos) blob empty-Flaky

abbrev large_json : Bytes
large_json = metadata_out (chunked_metadata memory stamp picture)

large-serialises : flaky.to_vec (chunked_metadata flaky stamp picture) ≡ done large_json
unfolding first_size
large-serialises = refl

picture-known : All (λ c. blob (digest c) ≡ c) (chunk_data picture)
unfolding chunk_data chunks chunks_fuel
picture-known = (refl, tt)

-- The budget is used up after the chunk, before its count.
put_object-OldOrNew_example :
    Result
      (New flaky flaky_faults small_engine photos blob [] stamp cat picture large_json
        large-serialises picture-known)
      (OldOrNew flaky flaky_faults small_engine photos blob [] stamp cat picture large_json
        large-serialises picture-known)
      (put_object flaky stamp small_engine photos cat picture (1, [])).0
      (find (put_object flaky stamp small_engine photos cat picture (1, [])).1.1)
unfolding flaky_faults
put_object-OldOrNew_example =
    put_object-OldOrNew flaky flaky_faults small_engine photos blob [] stamp cat picture large_json
      large-serialises picture-known (1, []) (omega arith) empty-Readable

-- The budget is used up after the metadata.
put_object-torn_example :
    Result
      (Done flaky flaky_faults small_engine photos
        (find [])
        stamp
        cat
        dot
        dot_json
        (omega arith)
        refl)
      (Stages flaky flaky_faults small_engine photos
        (find [])
        stamp
        cat
        dot
        dot_json
        (omega arith)
        refl)
      (put_object flaky stamp small_engine photos cat dot (1, [])).0
      (find (put_object flaky stamp small_engine photos cat dot (1, [])).1.1)
    × Result
        (λ x w. (x ≡ none) × (w ≡ find ((partition_name photos, metadata_key cat, dot_json) ∷ [])))
        (λ w. w ≡ find ((partition_name photos, metadata_key cat, dot_json) ∷ []))
        (get_object flaky small_engine photos cat
          (0, (partition_name photos, metadata_key cat, dot_json) ∷ [])).0
        (find
          (get_object flaky small_engine photos cat
            (0, (partition_name photos, metadata_key cat, dot_json) ∷ [])).1.1)
unfolding flaky_faults
put_object-torn_example =
    put_object-torn flaky flaky_faults small_engine photos stamp cat dot dot_json (1, [])
      (0, (partition_name photos, metadata_key cat, dot_json) ∷ []) (omega arith) refl refl

get_object_of_Readable_example :
    Result
      (λ x w. (x ≡ none) × (w ≡ find []))
      (λ w. w ≡ find [])
      (get_object flaky small_engine photos cat (0, [])).0
      (find (get_object flaky small_engine photos cat (0, [])).1.1)
unfolding flaky_faults
get_object_of_Readable_example =
    get_object_of_Readable flaky flaky_faults small_engine photos blob cat (0, []) empty-Readable

abbrev with_dot : List (Str × Bytes × Bytes)
with_dot =
    (partition_name photos, metadata_key cat, dot_json)
    ∷ (partition_name photos, data_key cat, dot)
    ∷ []

delete_object_unnoticed_example :
    ((delete_object kept small_engine photos cat with_dot).0 ≡ ok tt)
    × (find (delete_object kept small_engine photos cat with_dot).1 ≡ find with_dot)
unfolding kept_faults bytes_eq partition_name metadata_key new_inline
delete_object_unnoticed_example =
    delete_object_unnoticed kept kept_faults small_engine photos cat dot_json
      (metadata_of memory small_engine stamp dot) with_dot
      (record {
        opens = λ p d. refl;
        reads = λ p k d. refl;
        persists = λ d. refl;
        removes = λ p k d. (_, refl);
        unchanged = λ p k d. refl;
      })
      refl refl refl

-- The commit fails: nothing is written.
abbrev edits : List BatchOperation
edits = BatchOperation.put cat dot ∷ BatchOperation.delete cat ∷ []

batch-AllOrNone_example :
    Result
      (Applied flaky flaky_faults small_engine photos blob [] nothing (λ i. stamp) edits)
      (AllOrNone flaky flaky_faults small_engine photos blob [] nothing (λ i. stamp) edits)
      (batch flaky (λ i. stamp) small_engine photos edits (0, [])).0
      (find (batch flaky (λ i. stamp) small_engine photos edits (0, [])).1.1)
unfolding flaky_faults
batch-AllOrNone_example =
    batch-AllOrNone flaky flaky_faults small_engine photos blob [] nothing (λ i. stamp) edits
      (0, []) empty-Flaky (refl, (tt, tt))
