-- ===== src/Server/Service.antt =====
-- The two request handlers, side by side.
pub mod RoundTrip
use wfl_db.Prelude.{ap, ◌++◌, some, List, [], ◌∷◌, map, lit, Bytes, Bool, Str, ◌⊎◌, ℕ, ◌≡◌}
use wfl_db.Core.BucketId.{BucketId}
use wfl_db.Core.Key.{Key}
use wfl_db.Core.Outcome.{Exec, Outcome, Answer, ok, panic, done}
use wfl_db.Engine.Platform.{Platform}
use wfl_db.Engine.Bucket.{StorageEngine}
use wfl_db.Net.Json.{Json, JsonLaws}
use wfl_db.Server.Http.{Reply, Response, respond}
use wfl_db.Server.JsonText.{Value}
use wfl_db.Server.Headers.{headers}
use wfl_db.Server.Body.Escapes.{members}
use wfl_db.Server.Simple
use wfl_db.Server.Handlers
use wfl_db.Server.Handlers.{Sent, finish, matched}

module _ (json : Json) (laws : JsonLaws json) (from_utf8_lossy : Bytes → Str)
    (version_text : ℕ → Str) (timestamp : Str) where
  abbrev to_value : Value → json.Value
  to_value (Value.text s) = json.string s
  to_value (Value.number n) = json.number n
  to_value (Value.flag b) = json.bool b

  abbrev fields_of : List (Str × Value) → List (Str × json.Value)
  fields_of = map (λ (m : Str × Value). (m.0, to_value m.1))

  -- The body is the bytes of the object, or parses to the JSON object of what the reply shows.
  abbrev pub BodyShows : Reply → Bytes → Type 0
  BodyShows (Reply.raw bytes) body = body ≡ bytes
  BodyShows r body =
      (ms : List (Str × Value)) × (members from_utf8_lossy version_text timestamp r ≡ some ms)
      × (json.from_str body ≡ done (json.object (fields_of ms)))

  -- The same status, the same headers and one more, and a body that shows the same.
  pub record Shows (r : Response) (s : Sent) : Type 0 where
    pub status : s.status ≡ r.status
    pub headers : s.headers ≡ headers r.reply ++ (lit "server", lit "wfldb/0.1.0") ∷ []
    pub body : BodyShows r.reply s.body

  -- A refusal with its reason, which the other handler gives as an error without one.
  pub record Coarser (r : Response) (s : Sent) : Type 0 where
    pub refused : (e : Str) × (r ≡ respond 400 (Reply.error e))
    pub shows : Shows (respond 500 (Reply.error (lit "Internal server error"))) s

  abbrev pub Alike : Outcome Response → Outcome Sent → Type 0
  Alike r s =
      ((a : Response) × (b : Sent) × (r ≡ ok a) × (s ≡ ok b) × (Shows a b ⊎ Coarser a b))
      ⊎ ((r ≡ panic) × (s ≡ panic))

  abbrev pub Agree : {D : Type 0} → Outcome Response × D → Outcome Sent × D → Type 0
  Agree r s = (r.1 ≡ s.1) × Alike r.0 s.0

  module _ (platform : Platform) (is_alphanumeric : ℕ → Bool) (engine : StorageEngine) where
    open platform use {Db}

    abbrev finished : Exec Db (Answer Sent) → Exec Db Sent
    finished = matched (finish json from_utf8_lossy version_text timestamp)
