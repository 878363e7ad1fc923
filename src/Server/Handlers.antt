-- ===== src/Server/Handlers.antt =====
-- `handle_request` of wfldb-server/src/handlers.rs, and the responses of server.rs that it builds.
-- A handler returns a `Result`; any error, of a path or of the connection, becomes one response.
use wfl_db.Prelude.{
  if◌then◌else◌, ℕ, Bool, true, Option, none, some, List, [], ◌∷◌, length, Bytes, Str, lit,
  bytes_eq, starts_with,
}
use wfl_db.Core.Decimal.{to_string}
use wfl_db.Core.Outcome.{Outcome, Answer, done, failed, Exec, pure, display}
use wfl_db.Core.BucketId.{BucketId}
use wfl_db.Core.Key.{Key}
use wfl_db.Core.Types.{ObjectMetadata, Stamp, is_chunked}
use wfl_db.Engine.Platform.{Platform}
use wfl_db.Engine.Bucket.{StorageEngine}
use wfl_db.Engine.Storage.{put_object, get_object, delete_object}
use wfl_db.Net.Json.{Json}
use wfl_db.Server.ObjectPath.{parse_object_path}
use wfl_db.Server.Http.{Method, Request}

-- A response as it is sent.
pub record Sent : Type 0 where
  pub status : ℕ
  pub headers : List (Str × Str)
  pub body : Bytes

unfoldable pub simple_response : ℕ → Bytes → Sent
simple_response status body = record {
  status = status;
  headers = (lit "content-type", lit "application/json") ∷ (lit "server", lit "wfldb/0.1.0") ∷ [];
  body = body;
}

unfoldable pub streaming_response : Bytes → Sent
streaming_response bytes = record {
  status = 200;
  headers =
      (lit "content-type", lit "application/octet-stream")
      ∷ (lit "content-length", to_string (length bytes))
      ∷ (lit "server", lit "wfldb/0.1.0")
      ∷ [];
  body = bytes;
}

-- A call, and what a `match` makes of its result.
abbrev pub matched : {D A B : Type 0} → (Outcome A → Outcome B) → Exec D A → Exec D B
matched f call d = let (r, d') = call d in (f r, d')

-- `String::from_utf8_lossy`, the text of a version, and the time that an echo shows, are arguments.
module _ (json : Json) (from_utf8_lossy : Bytes → Str) (version_text : ℕ → Str)
    (timestamp : Str) where
  open json use {Value, string, number, bool, object}

  -- `json!({ ... }).to_string()`
  abbrev text_of : List (Str × Value) → Bytes
  text_of fields = json.to_string (object fields)

  abbrev pub error_response : ℕ → Str → Sent
  error_response status e = simple_response status (text_of ((lit "error", string e) ∷ []))

  -- The three `match` blocks on a storage result. A panic of the storage layer ends the request.
  unfoldable pub put_response : BucketId → Key → Outcome ObjectMetadata → Outcome (Answer Sent)
  put_response id key (Outcome.ok m) = Outcome.ok (
      done (
        simple_response 201 (
          text_of (
            (lit "success", bool true)
            ∷ (lit "bucket", string id.as_str)
            ∷ (lit "key", string key.as_str)
            ∷ (lit "size", number m.size)
            ∷ (lit "version", string (version_text m.version))
            ∷ (lit "chunked", bool (is_chunked m))
            ∷ []))))
  put_response id key (Outcome.err e) = Outcome.ok (done (error_response 500 (display e)))
  put_response id key Outcome.panic = Outcome.panic

  unfoldable pub get_response : Outcome (Option Bytes) → Outcome (Answer Sent)
  get_response (Outcome.ok (some bytes)) = Outcome.ok (done (streaming_response bytes))
  get_response (Outcome.ok none) = Outcome.ok (done (error_response 404 (lit "Object not found")))
  get_response (Outcome.err e) = Outcome.ok (done (error_response 500 (display e)))
  get_response Outcome.panic = Outcome.panic

  unfoldable pub delete_response : BucketId → Key → Outcome (Unit {0}) → Outcome (Answer Sent)
  delete_response id key (Outcome.ok _) = Outcome.ok (
      done (
        simple_response 200 (
          text_of (
            (lit "success", bool true)
            ∷ (lit "bucket", string id.as_str)
            ∷ (lit "key", string key.as_str)
            ∷ (lit "deleted", bool true)
            ∷ []))))
  delete_response id key (Outcome.err e) = Outcome.ok (done (error_response 500 (display e)))
  delete_response id key Outcome.panic = Outcome.panic

  -- The `match` on the result of a handler.
  unfoldable pub finish : Outcome (Answer Sent) → Outcome Sent
  finish (Outcome.ok (done response)) = Outcome.ok response
  finish (Outcome.ok (failed e)) = Outcome.ok (error_response 500 (lit "Internal server error"))
  finish (Outcome.err e) = Outcome.err e
  finish Outcome.panic = Outcome.panic

  module _ (platform : Platform) (is_alphanumeric : ℕ → Bool) (engine : StorageEngine) where
    open platform use {Db}

    unfoldable pub handle_health : Exec Db (Answer Sent)
    handle_health = pure (
        done (
          simple_response 200 (
            text_of (
              (lit "status", string (lit "healthy"))
              ∷ (lit "version", string (lit "0.1.0"))
              ∷ (lit "service", string (lit "wfldb"))
              ∷ []))))

    unfoldable pub handle_echo : Answer Bytes → Exec Db (Answer Sent)
    handle_echo (failed e) = pure (failed e)
    handle_echo (done bytes) = pure (
        done (
          simple_response 200 (
            text_of (
              (lit "echo", string (from_utf8_lossy bytes))
              ∷ (lit "size", number (length bytes))
              ∷ (lit "timestamp", string timestamp)
              ∷ []))))

    unfoldable pub handle_put_object :
        Stamp → Answer (BucketId × Key) → Answer Bytes → Exec Db (Answer Sent)
    handle_put_object stamp (failed e) body = pure (failed e)
    handle_put_object stamp (done (id, key)) (failed e) = pure (failed e)
    handle_put_object stamp (done (id, key)) (done bytes) =
        matched (put_response id key) (put_object platform stamp engine id key bytes)

    unfoldable pub handle_get_object : Answer (BucketId × Key) → Exec Db (Answer Sent)
    handle_get_object (failed e) = pure (failed e)
    handle_get_object (done (id, key)) = matched get_response (get_object platform engine id key)

    unfoldable pub handle_delete_object : Answer (BucketId × Key) → Exec Db (Answer Sent)
    handle_delete_object (failed e) = pure (failed e)
    handle_delete_object (done (id, key)) =
        matched (delete_response id key) (delete_object platform engine id key)

    abbrev pub no_route : Exec Db (Answer Sent)
    no_route = pure (done (error_response 404 (lit "Not found")))

    -- The arms of the `match` on the method and the path, in order.
    unfoldable pub route : Stamp → Method → Str → Answer Bytes → Exec Db (Answer Sent)
    route stamp Method.get path body =
        if bytes_eq path (lit "/health")
        then handle_health
        else if starts_with path (lit "/v1/")
        then handle_get_object (parse_object_path is_alphanumeric path)
        else no_route
    route stamp Method.post path body =
        if bytes_eq path (lit "/echo") then handle_echo body else no_route
    route stamp Method.put path body =
        if starts_with path (lit "/v1/")
        then handle_put_object stamp (parse_object_path is_alphanumeric path) body
        else no_route
    route stamp Method.delete path body =
        if starts_with path (lit "/v1/")
        then handle_delete_object (parse_object_path is_alphanumeric path)
        else no_route
    route stamp Method.other path body = no_route

    unfoldable pub handle_request : Stamp → Request → Exec Db Sent
    handle_request stamp request =
        matched finish (route stamp request.method request.path request.body)
