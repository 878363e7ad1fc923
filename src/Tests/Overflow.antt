-- ===== src/Tests/Overflow.antt =====
-- A chunk with as many references as a `u32` holds, in memory.
use wfl_db.Core.Types.{encode, to_hex}
use wfl_db.Engine.Refinement.{bucket_of, chunked_metadata}
use wfl_db.Core.Outcome.{◌>>◌, ok}
use wfl_db.Core.LittleEndian.{u32_to_le}
use wfl_db.Tests.Storage.{
  cat-ShortKey, photos-ShortName, picture_json, cat, small_engine, picture, stamp, photos,
}
use wfl_db.Engine.Storage.{delete_object, put_object}
use wfl_db.Prelude.{some, refl, arith, none, [], ◌≡◌, ◌∷◌, bytes_eq}
use wfl_db.Tests.Memory.{At-memory, memory_laws, digest, memory, Memory}
use wfl_db.Engine.Refinement.Overflow.{put_object-wraps, most}
use wfl_db.Engine.Bucket.{get_chunk, partition_name, chunk_ref_key}

abbrev full : Memory
full = (partition_name photos, chunk_ref_key (digest picture), u32_to_le most) ∷ []

put_object-wraps_example :
    ((put_object memory stamp small_engine photos cat picture full).0
      ≡ ok (chunked_metadata memory stamp picture))
    × (memory_laws.view
          (put_object memory stamp small_engine photos cat picture full).1
          (partition_name photos)
          (chunk_ref_key (digest picture))
        ≡ some (u32_to_le 0))
    × (((put_object memory stamp small_engine photos cat picture
            >> delete_object memory small_engine photos cat
            >> get_chunk memory (bucket_of small_engine photos) (digest picture))
          full).0
        ≡ ok none)
unfolding bytes_eq partition_name chunk_ref_key to_hex encode
put_object-wraps_example =
    put_object-wraps memory memory_laws small_engine photos stamp cat picture picture_json
      (omega arith) (omega arith) photos-ShortName cat-ShortKey refl full (At-memory full) refl
