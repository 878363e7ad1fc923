-- ===== src/Server/Simple.antt =====
-- `handle_request` of wfldb-server/src/simple_server_fixed.rs, which the server runs;
-- simple_server.rs has the same function for another version of hyper.
use wfl_db.Prelude.{
  if◌then◌else◌, ℕ, Bool, Option, none, some, Bytes, Str, lit, bytes_eq, starts_with,
}
use wfl_db.Core.Outcome.{Outcome, Answer, done, failed, Exec, pure, display}
use wfl_db.Core.BucketId.{BucketId}
use wfl_db.Core.Key.{Key}
use wfl_db.Core.Types.{ObjectMetadata, Stamp, is_chunked}
use wfl_db.Engine.Platform.{Platform}
use wfl_db.Engine.Bucket.{StorageEngine}
use wfl_db.Engine.Storage.{put_object, get_object, delete_object}
use wfl_db.Server.ObjectPath.{parse_object_path}
use wfl_db.Server.Http.{Method, Request, Response, Reply, respond}

abbrev pub not_found : Response
not_found = respond 404 (Reply.error (lit "Not found"))

-- The three `match` blocks on a storage result. A panic of the storage layer ends the request.
unfoldable pub answer_put : BucketId → Key → Outcome ObjectMetadata → Outcome Response
answer_put id key (Outcome.ok m) =
    Outcome.ok (respond 201 (Reply.stored id key m.size m.version (is_chunked m)))
answer_put id key (Outcome.err e) = Outcome.ok (respond 500 (Reply.error (display e)))
answer_put id key Outcome.panic = Outcome.panic

unfoldable pub answer_get : Outcome (Option Bytes) → Outcome Response
answer_get (Outcome.ok (some bytes)) = Outcome.ok (respond 200 (Reply.raw bytes))
answer_get (Outcome.ok none) = Outcome.ok (respond 404 (Reply.error (lit "Object not found")))
answer_get (Outcome.err e) = Outcome.ok (respond 500 (Reply.error (display e)))
answer_get Outcome.panic = Outcome.panic

unfoldable pub answer_delete : BucketId → Key → Outcome (Unit {0}) → Outcome Response
answer_delete id key (Outcome.ok _) = Outcome.ok (respond 200 (Reply.deleted id key))
answer_delete id key (Outcome.err e) = Outcome.ok (respond 500 (Reply.error (display e)))
answer_delete id key Outcome.panic = Outcome.panic

-- A storage call, and the response to its result.
abbrev pub answered : {D A : Type 0} → (Outcome A → Outcome Response) → Exec D A → Exec D Response
answered answer call d = let (r, d') = call d in (answer r, d')

abbrev pub unreadable : Response
unreadable = respond 400 (Reply.error (lit "Failed to read request body"))

module _ (platform : Platform) (is_alphanumeric : ℕ → Bool) (engine : StorageEngine) where
  open platform use {Db}

  unfoldable pub serve_echo : Answer Bytes → Exec Db Response
  serve_echo (done bytes) = pure (respond 200 (Reply.echo bytes))
  serve_echo (failed _) = pure unreadable

  unfoldable pub serve_put : Stamp → Answer (BucketId × Key) → Answer Bytes → Exec Db Response
  serve_put stamp (failed e) body = pure (respond 400 (Reply.error e))
  serve_put stamp (done (id, key)) (failed _) = pure unreadable
  serve_put stamp (done (id, key)) (done bytes) =
      answered (answer_put id key) (put_object platform stamp engine id key bytes)

  unfoldable pub serve_get : Answer (BucketId × Key) → Exec Db Response
  serve_get (failed e) = pure (respond 400 (Reply.error e))
  serve_get (done (id, key)) = answered answer_get (get_object platform engine id key)

  unfoldable pub serve_delete : Answer (BucketId × Key) → Exec Db Response
  serve_delete (failed e) = pure (respond 400 (Reply.error e))
  serve_delete (done (id, key)) =
      answered (answer_delete id key) (delete_object platform engine id key)

  -- The arms of the `match` on the method and the path, in order.
  unfoldable pub dispatch : Stamp → Method → Str → Answer Bytes → Exec Db Response
  dispatch stamp Method.get path body =
      if bytes_eq path (lit "/health")
      then pure (respond 200 Reply.healthy)
      else if starts_with path (lit "/v1/")
      then serve_get (parse_object_path is_alphanumeric path)
      else pure not_found
  dispatch stamp Method.post path body =
      if bytes_eq path (lit "/echo") then serve_echo body else pure not_found
  dispatch stamp Method.put path body =
      if starts_with path (lit "/v1/")
      then serve_put stamp (parse_object_path is_alphanumeric path) body
      else pure not_found
  dispatch stamp Method.delete path body =
      if starts_with path (lit "/v1/")
      then serve_delete (parse_object_path is_alphanumeric path)
      else pure not_found
  dispatch stamp Method.other path body = pure not_found

  unfoldable pub handle_request : Stamp → Request → Exec Db Response
  handle_request stamp request = dispatch stamp request.method request.path request.body
