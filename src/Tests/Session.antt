-- ===== src/Tests/Session.antt =====
-- A session of the server on one bucket in memory.
use wfl_db.Core.Utf8.{chars?, chars}
use wfl_db.Tests.History.{cat-IsValid, blank-HoldsAll, blank}
use wfl_db.Server.Session.Follows.{serve_all-Serves, Serves}
use wfl_db.Tests.Memory.{At-memory, memory_laws, memory}
use wfl_db.Engine.Refinement.{metadata_of}
use wfl_db.Server.ObjectPath.{parse_object_path}
use wfl_db.Core.Outcome.{failed, done}
use wfl_db.Tests.Server.{is_letter, request}
use wfl_db.Engine.Storage.{chunks_fuel, chunks, chunk_data}
use wfl_db.Tests.Storage.{
  cat-ShortKey, photos-ShortName, picture-Storable, cat, photos, blob, small_engine, picture, stamp,
}
use wfl_db.Server.Http.{Method, Request, Reply, respond}
use wfl_db.Server.Session.{after_all, serve_all}
use wfl_db.Core.Types.{new_chunked, new_inline, Stamp, is_chunked}
use wfl_db.Core.BucketId
use wfl_db.Core.Key
use wfl_db.Server.ObjectPath.{parse_object_path, split, strip, join}
use wfl_db.Prelude.{flatten, all}
use wfl_db.Prelude.{arith, lit, [], ◌∷◌, starts_with, bytes_eq, List}

abbrev session : List (Stamp × Request)
session =
    (stamp, request Method.put (done picture))
    ∷ (stamp, request Method.get (done []))
    ∷ (stamp, request Method.put (failed (lit "reset")))
    ∷ (stamp, request Method.delete (done []))
    ∷ (stamp, request Method.get (done []))
    ∷ []

serve_all-Serves_example :
    let m = metadata_of memory small_engine stamp picture in
    Serves memory memory_laws is_letter small_engine blob
      (serve_all memory is_letter small_engine session [])
      (respond 201 (Reply.stored photos cat m.size m.version (is_chunked m))
        ∷ respond 200 (Reply.raw picture)
        ∷ respond 400 (Reply.error (lit "Failed to read request body"))
        ∷ respond 200 (Reply.deleted photos cat)
        ∷ respond 404 (Reply.error (lit "Object not found"))
        ∷ [])
      (after_all memory is_letter small_engine blob session blank)
unfolding bytes_eq starts_with chunk_data chunks chunks_fuel new_inline new_chunked is_chunked
    parse_object_path split strip BucketId.new BucketId.allowed chars chars? Key.new Key.any_control
    Key.is_control join flatten all
serve_all-Serves_example =
    serve_all-Serves memory memory_laws is_letter small_engine blob session [] (At-memory [])
      blank-HoldsAll
      (
        ((photos-ShortName, cat-ShortKey), (cat-IsValid, picture-Storable)),
        (
          (photos-ShortName, tt),
          (
            tt,
            (((photos-ShortName, cat-ShortKey), (λ g. ground arith)), ((photos-ShortName, tt), tt)),
          ),
        ),
      )
