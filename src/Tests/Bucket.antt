-- ===== src/Tests/Bucket.antt =====
-- The theorems about `Storage` in a bucket in memory that holds an object of one chunk.
use wfl_db.Tests.History.{docs-ShortName}
use wfl_db.Engine.Limits.{ShortName-NameFits}
use wfl_db.Engine.Refinement.Isolation.{IsBucket-elsewhere, get_object_elsewhere}
use wfl_db.Engine.Invariant.{IsBucket}
use wfl_db.Engine.Refinement.RoundTrip.{get_object-delete_object}
use wfl_db.Engine.Refinement.Listing.{list_objects-Ends}
use wfl_db.Engine.Bucket.Scan.Keys.{IsValid, AllValid}
use wfl_db.Core.Utf8.{chars, chars?, from_utf8}
use wfl_db.Tests.Ordered.{find}
use wfl_db.Engine.Refinement.Reclaim.{get_chunk-delete_object, get_chunk-overwritten}
use wfl_db.Engine.Refinement.Delete.{delete_object-Refines}
use wfl_db.Engine.Bucket.{partition_name, get_chunk}
use wfl_db.Engine.Bucket.Store.{count}
use wfl_db.Engine.Effect.{Ends}
use wfl_db.Core.Types.{ContentHash, new_chunked}
use wfl_db.Tests.Codec.{metadata_out}
use wfl_db.Tests.Storage.{
  docs, nothing, cat-ShortKey, picture-Storable, empty-IsBucket, picture_json, picture, blob,
  photos, small_engine, cat, stamp,
}
use wfl_db.Engine.Refinement.Put.{put_object-Refines, Storable}
use wfl_db.Engine.Storage.{
  get_object, list_objects, delete_object, chunks_fuel, chunks, put_object, chunk_data,
}
use wfl_db.Engine.Objects.{Key-ext, lookup, hashes_of, refs_of, assign, Objects}
use wfl_db.Tests.Memory.{digest, At-memory, memory_laws, memory, Memory}
use wfl_db.Engine.Refinement.{bucket_of, object_of, metadata_of, Refines}
use wfl_db.Core.Outcome.{ok, ◌>>◌}
use mathlib.Core.Path.{subst}
use wfl_db.Core.Key
use wfl_db.Prelude.{
  inr, sym, inl, lit, Bool-cases, starts_with, bytes_eq, flatten, none, ◌≡◌, refl, some, ◌^◌, arith,
  ◌<◌, ◌+◌, [], ◌∷◌, Bytes,
}

abbrev put_once :
    Refines memory memory_laws small_engine photos blob
      (put_object memory stamp small_engine photos cat picture [])
      (ok (metadata_of memory small_engine stamp picture))
      (assign cat
        (object_of (metadata_of memory small_engine stamp picture) picture_json picture)
        [])
      (λ g. 0 + count g (hashes_of (lookup cat [])))
      (find [])
put_once =
    put_object-Refines memory memory_laws small_engine photos blob [] (At-memory []) empty-IsBucket
      stamp cat picture picture_json cat-ShortKey picture-Storable

abbrev filled : Memory
filled = (put_object memory stamp small_engine photos cat picture []).1

abbrev held : Objects
held =
    assign cat (object_of (metadata_of memory small_engine stamp picture) picture_json picture) []

held_small :
    (g : ContentHash) → refs_of held g + (0 + count g (hashes_of (lookup cat []))) + 1 < 2 ^ 32
unfolding chunk_data chunks chunks_fuel new_chunked bytes_eq flatten
held_small g = ground arith

abbrev dot : Bytes
dot = 5 ∷ []

abbrev dot_json : Bytes
dot_json = metadata_out (metadata_of memory small_engine stamp dot)

dot-Storable :
    Storable memory small_engine blob held
      (λ g. 0 + count g (hashes_of (lookup cat [])))
      stamp
      dot
      dot_json
dot-Storable = record {
  serialises = refl;
  collision_free = λ h. absurd (omega arith);
  room = λ h g. absurd (omega arith);
}

get_chunk-delete_object_example :
    ((delete_object memory small_engine photos cat
        >> get_chunk memory (bucket_of small_engine photos) (digest picture))
      filled).0
    ≡ ok none
unfolding chunk_data chunks chunks_fuel new_chunked bytes_eq flatten
get_chunk-delete_object_example =
    get_chunk-delete_object memory memory_laws small_engine photos blob filled put_once.ends.state
      put_once.holds cat (digest picture) cat-ShortKey (λ g. omega (arith, held_small g))
      (omega arith)

get_chunk-overwritten_example :
    ((put_object memory stamp small_engine photos cat dot
        >> delete_object memory small_engine photos cat
        >> get_chunk memory (bucket_of small_engine photos) (digest picture))
      filled).0
    ≡ ok (some picture)
unfolding chunk_data chunks chunks_fuel new_chunked bytes_eq flatten
get_chunk-overwritten_example =
    get_chunk-overwritten memory memory_laws small_engine photos blob filled put_once.ends.state
      put_once.holds stamp cat dot dot_json (digest picture) cat-ShortKey dot-Storable held_small
      (omega arith) (omega arith)

delete_object-Refines_example :
    Refines memory memory_laws small_engine photos blob
      (delete_object memory small_engine photos cat filled)
      (ok tt)
      []
      (λ g. 0 + count g (hashes_of (lookup cat [])))
      put_once.after
unfolding bytes_eq
delete_object-Refines_example =
    delete_object-Refines memory memory_laws small_engine photos blob put_once.holds
      (λ g. omega (arith, held_small g)) cat cat-ShortKey filled put_once.ends.state

cat-IsValid : IsValid cat
unfolding from_utf8 chars? Key.new Key.any_control Key.is_control chars
cat-IsValid = record { utf8 = refl; accepted = refl }

held-AllValid : AllValid held
held-AllValid k o e = elim (Bool-cases (bytes_eq k.as_str cat.as_str)) [
  | inl same ↦ subst IsValid (sym (Key-ext k cat same)) cat-IsValid
  | inr other ↦ ground (arith, other, e)
]

-- A limit of 0 still lets one key through.
list_objects-Ends_example :
    Ends memory memory_laws
      (list_objects memory small_engine photos (lit "ca") (some 0) filled)
      (ok (cat ∷ []))
      put_once.after
unfolding starts_with
list_objects-Ends_example =
    list_objects-Ends memory memory_laws small_engine photos blob filled put_once.ends.state
      put_once.holds held-AllValid (lit "ca") (some 0)

get_object-delete_object_example :
    ((delete_object memory small_engine photos cat >> get_object memory small_engine photos cat)
      filled).0
    ≡ ok none
unfolding bytes_eq
get_object-delete_object_example =
    get_object-delete_object memory memory_laws small_engine photos blob filled put_once.ends.state
      put_once.holds cat cat cat-ShortKey (λ g. omega (arith, held_small g))

no_docs-IsBucket : IsBucket memory (partition_name docs) blob [] nothing (find [])
no_docs-IsBucket = record {
  named = ShortName-NameFits docs docs-ShortName;
  unique = tt;
  metas = λ k. refl;
  sound = λ k o e. cc;
  bodies = λ k o e n. cc;
  store = record { counts = λ h hb. refl; stored = λ h hb. refl };
}

-- The other bucket holds nothing.
docs-IsBucket : IsBucket memory (partition_name docs) blob [] nothing put_once.after
unfolding bytes_eq partition_name
docs-IsBucket =
    IsBucket-elsewhere memory (partition_name docs) blob
      (λ j. put_once.elsewhere (partition_name docs) j refl) no_docs-IsBucket

blank_dot-Storable : Storable memory small_engine blob [] nothing stamp dot dot_json
blank_dot-Storable = record {
  serialises = refl;
  collision_free = λ h. absurd (omega arith);
  room = λ h g. absurd (omega arith);
}

-- A write and a deletion in one bucket, and a read of the same key in the other.
get_object_elsewhere_example :
    ((put_object memory stamp small_engine docs cat dot
        >> delete_object memory small_engine docs cat
        >> get_object memory small_engine photos cat)
      filled).0
    ≡ ok (some picture)
unfolding bytes_eq chunk_data chunks chunks_fuel new_chunked flatten
get_object_elsewhere_example =
    get_object_elsewhere memory memory_laws small_engine docs photos blob filled put_once.ends.state
      docs-IsBucket put_once.holds refl stamp cat cat cat dot dot_json cat-ShortKey cat-ShortKey
      blank_dot-Storable (λ g. omega arith)
