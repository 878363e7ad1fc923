-- ===== src/Tests/Body.antt =====
-- A body whose key has a quotation mark, and the headers of an object.
use wfl_db.Server.Body.Escapes.{body_text_iff}
use wfl_db.Tests.Storage.{photos}
use wfl_db.Server.JsonText.{AllPlain, Value, object_text}
use wfl_db.Prelude.{◌∷◌, true, refl, ◌↔◌, ◌≡◌, Str, lit, [], List}
use wfl_db.Core.Key.{Key}
use wfl_db.Server.Body.{body_text}
use wfl_db.Server.Http.{Reply}

abbrev quoted : Key
quoted = record { as_str = lit "say \"hi\"" }

abbrev shown : List (Str × Value)
shown =
    (lit "success", Value.flag true)
    ∷ (lit "bucket", Value.text (lit "photos"))
    ∷ (lit "key", Value.text (lit "say \"hi\""))
    ∷ (lit "deleted", Value.flag true)
    ∷ []

-- The printer's text, against the body that is sent.
printed :
    object_text shown
    ≡ lit "{\"success\":true,\"bucket\":\"photos\",\"key\":\"say \\\"hi\\\"\",\"deleted\":true}"
printed = refl

sent :
    body_text (λ b. b) (λ n. []) [] (Reply.deleted photos quoted)
    ≡ lit "{\"success\":true,\"bucket\":\"photos\",\"key\":\"say \"hi\"\",\"deleted\":true}"
unfolding body_text
sent = refl

body_text_iff_example :
    (body_text (λ b. b) (λ n. []) [] (Reply.deleted photos quoted) ≡ object_text shown)
    ↔ AllPlain shown
body_text_iff_example = body_text_iff (λ b. b) (λ n. []) [] (Reply.deleted photos quoted) shown refl
