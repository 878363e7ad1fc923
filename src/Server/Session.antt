-- ===== src/Server/Session.antt =====
-- Requests to the server, one after another: what they ask of `Storage`, and what they are to show.
pub mod Follows
use wfl_db.Server.ObjectPath.{parse_object_path}
use wfl_db.Server.Simple.{handle_request, answered}
use wfl_db.Engine.Bucket.{StorageEngine}
use wfl_db.Core.Key.{Key}
use wfl_db.Core.BucketId.{BucketId}
use wfl_db.Engine.Platform.{Platform}
use wfl_db.Core.Types.{ContentHash, is_chunked, Stamp}
use wfl_db.Engine.History
use wfl_db.Engine.History.{Command, Reply, Buckets}
use wfl_db.Server.Http
use wfl_db.Server.Http.{Method, Request, Response, respond}
use wfl_db.Core.Outcome.{done, Exec, failed, display, Outcome, Answer, ◌>>=◌, pure}
use wfl_db.Core.Outcome
use wfl_db.Prelude.{
  [], ◌∷◌, inr, starts_with, List, bytes_eq, lit, inl, some, if◌then◌else◌, Bool, Bytes, ℕ, ◌⊎◌,
  Str,
}

-- What a request asks for: a response at once, or a call and a response to its result.
abbrev pub Action : Type 0
Action = Response ⊎ Command

abbrev pub unknown_path : Response
unknown_path = respond 404 (Http.Reply.error (lit "Not found"))

abbrev pub put_action : Stamp → Answer (BucketId × Key) → Answer Bytes → Action
put_action stamp (failed e) body = inl (respond 400 (Http.Reply.error e))
put_action stamp (done (id, key)) (failed _) =
    inl (respond 400 (Http.Reply.error (lit "Failed to read request body")))
put_action stamp (done (id, key)) (done bytes) = inr (Command.put stamp id key bytes)

abbrev pub get_action : Answer (BucketId × Key) → Action
get_action (failed e) = inl (respond 400 (Http.Reply.error e))
get_action (done (id, key)) = inr (Command.get id key)

abbrev pub delete_action : Answer (BucketId × Key) → Action
delete_action (failed e) = inl (respond 400 (Http.Reply.error e))
delete_action (done (id, key)) = inr (Command.delete id key)

abbrev pub echo_action : Answer Bytes → Action
echo_action (failed _) = inl (respond 400 (Http.Reply.error (lit "Failed to read request body")))
echo_action (done bytes) = inl (respond 200 (Http.Reply.echo bytes))

-- What is shown of a reply of `Storage`.
abbrev pub shown : Command → Reply → Response
shown (Command.put stamp id key bytes) (Reply.stored m) =
    respond 201 (Http.Reply.stored id key m.size m.version (is_chunked m))
shown (Command.get id key) (Reply.found (some bytes)) = respond 200 (Http.Reply.raw bytes)
shown (Command.delete id key) Reply.deleted = respond 200 (Http.Reply.deleted id key)
shown _ _ = respond 404 (Http.Reply.error (lit "Object not found"))

abbrev pub shown_outcome : Command → Outcome Reply → Outcome Response
shown_outcome c (Outcome.ok r) = Outcome.ok (shown c r)
shown_outcome c (Outcome.err e) = Outcome.ok (respond 500 (Http.Reply.error (display e)))
shown_outcome c Outcome.panic = Outcome.panic

module _ (is_alphanumeric : ℕ → Bool) where
  abbrev pub action : Stamp → Method → Str → Answer Bytes → Action
  action stamp Method.get path body =
      if bytes_eq path (lit "/health")
      then inl (respond 200 Http.Reply.healthy)
      else if starts_with path (lit "/v1/")
      then get_action (parse_object_path is_alphanumeric path)
      else inl unknown_path
  action stamp Method.post path body =
      if bytes_eq path (lit "/echo") then echo_action body else inl unknown_path
  action stamp Method.put path body =
      if starts_with path (lit "/v1/")
      then put_action stamp (parse_object_path is_alphanumeric path) body
      else inl unknown_path
  action stamp Method.delete path body =
      if starts_with path (lit "/v1/")
      then delete_action (parse_object_path is_alphanumeric path)
      else inl unknown_path
  action stamp Method.other path body = inl unknown_path

  abbrev pub action_of : Stamp × Request → Action
  action_of (stamp, request) = action stamp request.method request.path request.body

module _ (platform : Platform) (is_alphanumeric : ℕ → Bool) (engine : StorageEngine) where
  open platform use {Db}

  abbrev pub perform : Action → Exec Db Response
  perform (inl r) = pure r
  perform (inr c) = answered (shown_outcome c) (History.run platform engine c)

  -- The server, with what the clock and the generator of versions give for each request.
  abbrev pub serve_all : List (Stamp × Request) → Db → List (Outcome Response) × Db
  serve_all [] d = ([], d)
  serve_all ((stamp, request) ∷ requests) d =
      let (r, d1) = handle_request platform is_alphanumeric engine stamp request d in
      let (rs, d2) = serve_all requests d1 in (r ∷ rs, d2)

module _ (platform : Platform) (is_alphanumeric : ℕ → Bool) (engine : StorageEngine)
    (blob : ContentHash → Bytes) where
  abbrev pub response : Action → Buckets → Response
  response (inl r) s = r
  response (inr c) s = shown c (History.reply platform engine blob c s)

  abbrev pub after : Action → Buckets → Buckets
  after (inl r) s = s
  after (inr c) s = History.after platform engine blob c s

  abbrev pub Fits : Action → Buckets → Type 0
  Fits (inl r) s = Unit
  Fits (inr c) s = History.Fits platform engine blob c s

  abbrev pub AllFit : List (Stamp × Request) → Buckets → Type 0
  AllFit [] s = Unit
  AllFit (x ∷ xs) s =
      Fits (action_of is_alphanumeric x) s × AllFit xs (after (action_of is_alphanumeric x) s)

  abbrev pub responses : List (Stamp × Request) → Buckets → List Response
  responses [] s = []
  responses (x ∷ xs) s =
      response (action_of is_alphanumeric x) s
      ∷ responses xs (after (action_of is_alphanumeric x) s)

  abbrev pub after_all : List (Stamp × Request) → Buckets → Buckets
  after_all [] s = s
  after_all (x ∷ xs) s = after_all xs (after (action_of is_alphanumeric x) s)
