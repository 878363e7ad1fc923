-- ===== src/Tests/Interleaving.antt =====
-- Calls among others in memory.
use wfl_db.Engine.Limits.{ShortKey}
use wfl_db.Engine.Interleaving.Vanishing.{get_object-vanishes, deleted_meanwhile}
use wfl_db.Engine.Interleaving.Snapshot.{get_object-snapshot}
use wfl_db.Engine.Objects.{content, Object}
use wfl_db.Engine.Interleaving.Around.{raced}
use wfl_db.Core.Key.{Key}
use wfl_db.Core.Key
use wfl_db.Engine.Bucket.{first_size}
use wfl_db.Engine.Bucket.Scan.Keys.{IsValid}
use wfl_db.Core.Outcome.{internal, err, ◌>>◌, ok}
use wfl_db.Engine.Refinement.{chunked_metadata, object_of, metadata_of}
use wfl_db.Engine.Interleaving.Meanwhile.{turns}
use wfl_db.Engine.Interleaving.Reads.{get_object-shared}
use wfl_db.Engine.Interleaving.{shared}
use wfl_db.Tests.History.{docs-ShortName, dot-Storable, blank-HoldsAll, cat-IsValid, blank, dot}
use wfl_db.Core.Types.{to_hex, new_chunked, new_inline}
use wfl_db.Tests.Memory.{digest, At-memory, memory_laws, memory}
use wfl_db.Engine.Interleaving.Race.{put_object-races}
use wfl_db.Engine.History.Step.{run_all-Follows, Follows}
use wfl_db.Tests.Storage.{
  cat-ShortKey, photos-ShortName, empty-IsBucket, picture_json, picture-Storable, blob,
  small_engine, picture, cat, docs, photos, stamp,
}
use wfl_db.Core.Utf8.{chars, chars?, from_utf8}
use wfl_db.Prelude.{
  flatten, ◌++◌, refl, arith, some, ◌≡◌, none, [], ◌∷◌, str_leb, starts_with, lit, bytes_eq, List,
}
use wfl_db.Core.Key
use wfl_db.Engine.Bucket.{first_size}
use wfl_db.Engine.Storage.{delete_object, get_object, chunks_fuel, chunks, chunk_data}
use wfl_db.Engine.History.{after_all, Reply, run_all, Command}

abbrev dog : Key
dog = record { as_str = lit "dog" }

abbrev before : List Command
before = Command.put stamp photos cat picture ∷ []

before-Follows :
    Follows memory memory_laws small_engine blob
      (run_all memory small_engine before [])
      (Reply.stored (metadata_of memory small_engine stamp picture) ∷ [])
      (after_all memory small_engine blob before blank)
unfolding bytes_eq
before-Follows =
    run_all-Follows memory memory_laws small_engine blob before [] (At-memory []) blank-HoldsAll
      (((photos-ShortName, cat-ShortKey), (cat-IsValid, picture-Storable)), tt)

dog-ShortKey : ShortKey dog
dog-ShortKey = omega arith

dog-IsValid : IsValid dog
unfolding from_utf8 chars? Key.new Key.any_control Key.is_control chars
dog-IsValid = record { utf8 = refl; accepted = refl }

-- The same picture under another key, deleted after the metadata is read, before the chunk is.
abbrev meanwhile : List (List Command)
meanwhile =
    (Command.put stamp docs cat dot ∷ [])
    ∷ (Command.put stamp photos dog picture ∷ [])
    ∷ (Command.delete photos dog ∷ Command.list photos (lit "c") none ∷ [])
    ∷ []

get_object-shared_example :
    (get_object
      (shared memory)
      small_engine
      photos
      cat
      ((run_all memory small_engine before []).1, turns memory small_engine meanwhile)).0
    ≡ ok (some picture)
unfolding bytes_eq starts_with str_leb chunk_data chunks chunks_fuel new_inline new_chunked flatten
get_object-shared_example =
    get_object-shared memory memory_laws small_engine blob photos cat meanwhile
      (run_all memory small_engine before []).1 photos-ShortName before-Follows.state
      before-Follows.holds
      (
        (((docs-ShortName, cat-ShortKey), (cat-IsValid, dot-Storable)), tt),
        (refl, tt),
        (
          (
            (
              (photos-ShortName, dog-ShortKey),
              (
                dog-IsValid,
                record {
                  serialises = refl;
                  collision_free = λ _. (refl, tt);
                  room = λ _ g. ground arith;
                },
              ),
            ),
            tt,
          ),
          (refl, tt),
          (
            (((photos-ShortName, dog-ShortKey), (λ g. ground arith)), ((photos-ShortName, tt), tt)),
            (refl, (tt, tt)),
            tt,
          ),
        ),
      )

abbrev shown : Object
shown = object_of (chunked_metadata memory stamp picture) picture_json picture

get_object-snapshot_example :
    (get_object (shared memory) small_engine photos cat (
      [],
      turns memory small_engine (
          (Command.put stamp docs cat dot ∷ [])
          ∷ (Command.put stamp photos cat picture ∷ [])
          ∷ (Command.put stamp photos cat dot ∷ [])
          ∷ []),
    )).0
    ≡ ok (some picture)
unfolding bytes_eq chunk_data chunks chunks_fuel new_inline new_chunked flatten first_size
get_object-snapshot_example =
    get_object-snapshot memory memory_laws small_engine blob photos cat shown
      (record { chunks = digest picture ∷ []; chunk_size = 3; total_size = 3 })
      (Command.put stamp docs cat dot ∷ []) (Command.put stamp photos cat picture ∷ [])
      ((Command.put stamp photos cat dot ∷ []) ∷ []) [] photos-ShortName (At-memory [])
      blank-HoldsAll (((docs-ShortName, cat-ShortKey), (cat-IsValid, dot-Storable)), tt)
      (((photos-ShortName, cat-ShortKey), (cat-IsValid, picture-Storable)), tt)
      (
        (
          (
            (photos-ShortName, cat-ShortKey),
            (
              cat-IsValid,
              record {
                serialises = refl;
                collision_free = λ h. absurd (omega arith);
                room = λ h g. absurd (omega arith);
              },
            ),
          ),
          tt,
        ),
        (tt, tt),
        tt,
      )
      refl refl

get_object-vanishes_example :
    ((get_object (shared memory) small_engine photos cat (
      (run_all memory small_engine before []).1,
      turns memory small_engine (deleted_meanwhile photos cat),
    )).0
      ≡ err (internal (lit "Missing chunk: " ++ to_hex (digest picture))))
    × ((get_object memory small_engine photos cat (run_all memory small_engine before []).1).0
        ≡ ok (some (content blob shown)))
    × (((delete_object memory small_engine photos cat >> get_object memory small_engine photos cat)
          (run_all memory small_engine before []).1).0
        ≡ ok none)
unfolding bytes_eq chunk_data chunks chunks_fuel new_inline new_chunked flatten first_size
get_object-vanishes_example =
    get_object-vanishes memory memory_laws small_engine blob photos cat shown
      (record { chunks = digest picture ∷ []; chunk_size = 3; total_size = 3 }) (digest picture) []
      (run_all memory small_engine before []).1 photos-ShortName cat-ShortKey before-Follows.state
      before-Follows.holds refl refl refl (λ g. ground arith) refl

put_object-races_example :
    ((raced memory small_engine photos stamp cat stamp dog picture []).0
      ≡ ok (metadata_of memory small_engine stamp picture))
    × (((delete_object memory small_engine photos dog >> get_object memory small_engine photos cat)
          (raced memory small_engine photos stamp cat stamp dog picture []).1.0).0
        ≡ err (internal (lit "Missing chunk: " ++ to_hex (digest picture))))
unfolding bytes_eq
put_object-races_example =
    put_object-races memory memory_laws small_engine photos stamp cat picture blob stamp dog
      picture_json picture_json empty-IsBucket picture-Storable refl (omega arith) (omega arith)
      cat-ShortKey dog-ShortKey refl [] (At-memory []) refl
