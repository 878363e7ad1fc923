-- ===== src/Tests/History.antt =====
-- A history of calls on two buckets in memory.
use wfl_db.Engine.Limits.{ShortName, ShortName-NameFits}
use wfl_db.Tests.Codec.{metadata_out}
use wfl_db.Core.Types.{new_chunked, new_inline}
use wfl_db.Engine.Refinement.Put.{Storable}
use wfl_db.Engine.Refinement.{metadata_of}
use wfl_db.Engine.History.Step.{run_all-Follows, Follows}
use wfl_db.Tests.Ordered.{find}
use wfl_db.Engine.Storage.{chunks_fuel, chunks, chunk_data}
use wfl_db.Engine.Bucket.Scan.Keys.{IsValid}
use wfl_db.Tests.Storage.{
  cat-ShortKey, photos-ShortName, picture-Storable, docs, picture, cat, blob, photos, small_engine,
  nothing, stamp,
}
use wfl_db.Tests.Memory.{At-memory, memory_laws, memory}
use wfl_db.Core.Utf8.{chars, chars?, from_utf8}
use wfl_db.Engine.History.{after_all, run_all, HoldsAll, Buckets, Command, Reply}
use wfl_db.Core.Key
use wfl_db.Prelude.{
  arith, some, none, lit, refl, str_leb, starts_with, ◌∷◌, [], bytes_eq, List, Bytes,
}

abbrev pub blank : Buckets
blank id = record { objects = []; leaked = nothing }

pub blank-HoldsAll : HoldsAll memory small_engine blob blank (find [])
blank-HoldsAll = record {
  buckets = λ id short. record {
    named = ShortName-NameFits id short;
    unique = tt;
    metas = λ k. refl;
    sound = λ k o e. cc;
    bodies = λ k o e n. cc;
    store = record { counts = λ h hb. refl; stored = λ h hb. refl };
  };
  valid = λ id k o e. cc;
}

pub docs-ShortName : ShortName docs
docs-ShortName = omega arith

abbrev pub dot : Bytes
dot = 5 ∷ []

abbrev calls : List Command
calls =
    Command.put stamp photos cat picture
    ∷ Command.put stamp docs cat dot
    ∷ Command.list photos (lit "c") none
    ∷ Command.delete photos cat
    ∷ Command.get photos cat
    ∷ Command.get docs cat
    ∷ []

pub cat-IsValid : IsValid cat
unfolding from_utf8 chars? Key.new Key.any_control Key.is_control chars
cat-IsValid = record { utf8 = refl; accepted = refl }

pub dot-Storable :
    Storable memory small_engine blob [] nothing stamp dot
      (metadata_out (metadata_of memory small_engine stamp dot))
dot-Storable = record {
  serialises = refl;
  collision_free = λ h. absurd (omega arith);
  room = λ h g. absurd (omega arith);
}

run_all-Follows_example :
    Follows memory memory_laws small_engine blob
      (run_all memory small_engine calls [])
      (Reply.stored (metadata_of memory small_engine stamp picture)
        ∷ Reply.stored (metadata_of memory small_engine stamp dot)
        ∷ Reply.listed (cat ∷ [])
        ∷ Reply.deleted
        ∷ Reply.found none
        ∷ Reply.found (some dot)
        ∷ [])
      (after_all memory small_engine blob calls blank)
unfolding bytes_eq starts_with str_leb chunk_data chunks chunks_fuel new_inline new_chunked
run_all-Follows_example =
    run_all-Follows memory memory_laws small_engine blob calls [] (At-memory []) blank-HoldsAll (
      ((photos-ShortName, cat-ShortKey), (cat-IsValid, picture-Storable)),
      (
        ((docs-ShortName, cat-ShortKey), (cat-IsValid, dot-Storable)),
        (
          (photos-ShortName, tt),
          (
            ((photos-ShortName, cat-ShortKey), (λ g. ground arith)),
            ((photos-ShortName, tt), ((docs-ShortName, tt), tt)),
          ),
        ),
      ),
    )
