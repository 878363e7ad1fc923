-- ===== src/Server/Session/Follows.antt =====
-- The server answers a sequence of requests as the maps of its buckets say.
use wfl_db.Server.ObjectPath.{parse_object_path}
use wfl_db.Engine.Storage.{get_object, delete_object, put_object}
use wfl_db.Engine.Effect.{Ends-pure, At, Ends}
use wfl_db.Core.Key.{Key}
use wfl_db.Core.BucketId.{BucketId}
use wfl_db.Core.Types.{Stamp, ContentHash}
use wfl_db.Server.Simple.{
  answer_delete, answer_get, answer_put, serve_echo, serve_delete, serve_get, serve_put,
}
use wfl_db.Engine.Bucket.{StorageEngine}
use wfl_db.Server.Session.{
  action, action_of, responses, serve_all, response, delete_action, get_action, put_action,
  echo_action, shown_outcome, Action, perform, answered, shown,
}
use wfl_db.Engine.Platform.{View, Laws, Platform}
use wfl_db.Engine.History
use wfl_db.Engine.History.{HoldsAll, reply_with, Command, Reply, Buckets}
use wfl_db.Engine.History.Step.{step}
use wfl_db.Server.Http
use wfl_db.Server.Http.{Method, Request, Response, respond}
use wfl_db.Core.Outcome.{done, continue, failed, Answer, display, WflDbError, Exec, Outcome, pure}
use wfl_db.Server.Session.{Fits, AllFit, after, after_all}
use wfl_db.Server.Simple.{handle_request, dispatch}
use wfl_db.Prelude.{
  starts_with, lit, bytes_eq, [], inr, none, ◌∷◌, inl, some, refl, Option, map, List, false, Bytes,
  true, if◌then◌else◌, ℕ, ◌≡◌, Bool,
}

-- A call, and the response to its result, in the two ways to write it.
answered-reply_with :
    {D A : Type 0} (answer : Outcome A → Outcome Response) (c : Command) (f : A → Reply)
    (m : Exec D A) (d : D)
    → ((a : A) → answer (Outcome.ok a) ≡ Outcome.ok (shown c (f a)))
    → ((e : WflDbError)
        → answer (Outcome.err e) ≡ Outcome.ok (respond 500 (Http.Reply.error (display e))))
    → answer Outcome.panic ≡ Outcome.panic
    → answered answer m d ≡ answered (shown_outcome c) (reply_with f m) d
answered-reply_with {D} {A} answer c f m d good bad worst = by_result (m d).0
  where
    by_result :
        (r : Outcome A)
        → (answer r, (m d).1)
          ≡ answered (shown_outcome c) (λ _. continue r (λ a. pure (f a)) (m d).1) d
    by_result (Outcome.ok a) = rw (good a)
    by_result (Outcome.err e) = rw (bad e)
    by_result Outcome.panic = rw worst

if-perform :
    {A D R : Type 0} (f : A → D → R) (b : Bool) (x y : A) (u w : D → R) (d : D)
    → u d ≡ f x d
    → w d ≡ f y d
    → (if b then u else w) d ≡ f (if b then x else y) d
if-perform f true x y u w d e e' = e
if-perform f false x y u w d e e' = e'

module _ (platform : Platform) (is_alphanumeric : ℕ → Bool) (engine : StorageEngine) where
  open platform use {Db}

  put-perform :
      (stamp : Stamp) (target : Answer (BucketId × Key)) (body : Answer Bytes) (d : Db)
      → serve_put platform is_alphanumeric engine stamp target body d
        ≡ perform platform is_alphanumeric engine (put_action stamp target body) d
  unfolding serve_put answer_put History.run
  put-perform stamp (failed e) body d = refl
  put-perform stamp (done (id, key)) (failed e) d = refl
  put-perform stamp (done (id, key)) (done bytes) d =
      answered-reply_with (answer_put id key) (Command.put stamp id key bytes) Reply.stored
        (put_object platform stamp engine id key bytes) d (λ m. refl) (λ e. refl) refl

  get-perform :
      (target : Answer (BucketId × Key)) (d : Db)
      → serve_get platform is_alphanumeric engine target d
        ≡ perform platform is_alphanumeric engine (get_action target) d
  unfolding serve_get answer_get History.run
  get-perform (failed e) d = refl
  get-perform (done (id, key)) d =
      answered-reply_with answer_get (Command.get id key) Reply.found
        (get_object platform engine id key) d shown_found (λ e. refl) refl
    where
      shown_found :
          (x : Option Bytes)
          → answer_get (Outcome.ok x) ≡ Outcome.ok (shown (Command.get id key) (Reply.found x))
      shown_found none = refl
      shown_found (some bytes) = refl

  delete-perform :
      (target : Answer (BucketId × Key)) (d : Db)
      → serve_delete platform is_alphanumeric engine target d
        ≡ perform platform is_alphanumeric engine (delete_action target) d
  unfolding serve_delete answer_delete History.run
  delete-perform (failed e) d = refl
  delete-perform (done (id, key)) d =
      answered-reply_with (answer_delete id key) (Command.delete id key) (λ _. Reply.deleted)
        (delete_object platform engine id key) d (λ m. refl) (λ e. refl) refl

  echo-perform :
      (body : Answer Bytes) (d : Db)
      → serve_echo platform is_alphanumeric engine body d
        ≡ perform platform is_alphanumeric engine (echo_action body) d
  unfolding serve_echo
  echo-perform (failed e) d = refl
  echo-perform (done bytes) d = refl

  handle_request-perform :
      (stamp : Stamp) (request : Request) (d : Db)
      → handle_request platform is_alphanumeric engine stamp request d
        ≡ perform platform is_alphanumeric engine (action_of is_alphanumeric (stamp, request)) d
  unfolding handle_request dispatch
  handle_request-perform stamp request d = by_method request.method
    where
      does : Action → Exec Db Response
      does = perform platform is_alphanumeric engine

      by_method :
          (method : Method)
          → dispatch platform is_alphanumeric engine stamp method request.path request.body d
            ≡ does (action is_alphanumeric stamp method request.path request.body) d
      by_method Method.get =
          if-perform does (bytes_eq request.path (lit "/health")) _ _ _ _ d refl (
            if-perform does (starts_with request.path (lit "/v1/")) _ _ _ _ d
              (get-perform (parse_object_path is_alphanumeric request.path) d) refl)
      by_method Method.post =
          if-perform does (bytes_eq request.path (lit "/echo")) _ _ _ _ d
            (echo-perform request.body d) refl
      by_method Method.put =
          if-perform does (starts_with request.path (lit "/v1/")) _ _ _ _ d
            (put-perform stamp (parse_object_path is_alphanumeric request.path) request.body d) refl
      by_method Method.delete =
          if-perform does (starts_with request.path (lit "/v1/")) _ _ _ _ d
            (delete-perform (parse_object_path is_alphanumeric request.path) d) refl
      by_method Method.other = refl

module _ (platform : Platform) (laws : Laws platform) (is_alphanumeric : ℕ → Bool)
    (engine : StorageEngine) (blob : ContentHash → Bytes) where
  open platform use {Db}

  -- Every request is answered, and the keyspace holds the maps.
  pub record Serves (r : List (Outcome Response) × Db) (rs : List Response) (s : Buckets)
      : Type 0 where
    pub outcomes : r.0 ≡ map Outcome.ok rs
    pub view : View
    pub state : At platform laws r.1 view
    pub holds : HoldsAll platform engine blob s view

  record Answered (r : Outcome Response × Db) (out : Response) (s : Buckets) : Type 0 where
    view : View
    ends : Ends platform laws r (Outcome.ok out) view
    holds : HoldsAll platform engine blob s view

  perform-Answered :
      (x : Action) {s : Buckets} {v : View} (d : Db)
      → At platform laws d v
      → HoldsAll platform engine blob s v
      → Fits platform is_alphanumeric engine blob x s
      → Answered
          (perform platform is_alphanumeric engine x d)
          (response platform is_alphanumeric engine blob x s)
          (after platform is_alphanumeric engine blob x s)
  perform-Answered (inl r) {s} {v} d a h fits = record {
    view = v;
    ends = Ends-pure platform laws (Outcome.ok r) d a;
    holds = h;
  }
  perform-Answered (inr c) d a h fits =
      let l = step platform laws engine blob d a h c fits in
      record {
        view = l.view;
        ends = record { outcome = rw l.ends.outcome refl; state = l.ends.state };
        holds = l.holds;
      }

  -- On a healthy keyspace that holds a map of objects in every bucket with a name of at most 250
  -- bytes, any sequence of requests whose calls have their preconditions one after another, names
  -- and keys within the limits among them, is answered, request by request, with the responses that
  -- the maps give, and the keyspace then holds the maps that the requests make one after another.
  pub serve_all-Serves :
      (xs : List (Stamp × Request)) {s : Buckets} {v : View} (d : Db)
      → At platform laws d v
      → HoldsAll platform engine blob s v
      → AllFit platform is_alphanumeric engine blob xs s
      → Serves
          (serve_all platform is_alphanumeric engine xs d)
          (responses platform is_alphanumeric engine blob xs s)
          (after_all platform is_alphanumeric engine blob xs s)
  serve_all-Serves [] {s} {v} d a h fits = record {
    outcomes = refl;
    view = v;
    state = a;
    holds = h;
  }
  serve_all-Serves (x ∷ xs) d a h fits =
      let e = handle_request-perform platform is_alphanumeric engine x.0 x.1 d in
      let l = perform-Answered (action_of is_alphanumeric x) d a h fits.0 in
      let r = serve_all-Serves xs _ l.ends.state l.holds fits.1 in
      record {
        outcomes = rw (e, l.ends.outcome, r.outcomes) refl;
        view = r.view;
        state = rw e r.state;
        holds = r.holds;
      }
