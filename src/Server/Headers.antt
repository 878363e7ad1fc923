-- ===== src/Server/Headers.antt =====
-- The headers that handle_request of simple_server_fixed.rs sets on its responses.
use wfl_db.Server.Body.{body_text}
use wfl_db.Prelude.{
  refl, ◌≡◌, ◌^◌, ◌<◌, bytes_eq, [], length, some, if◌then◌else◌, false, ◌∷◌, ℕ, none, true, lit,
  Option, Str, Bool, Bytes, List,
}
use wfl_db.Core.Decimal.{read_decimal-to_string, read_decimal, to_string}
use wfl_db.Server.Http.{Reply}

unfoldable pub headers : Reply → List (Str × Str)
headers (Reply.raw bytes) =
    (lit "content-type", lit "application/octet-stream")
    ∷ (lit "content-length", to_string (length bytes))
    ∷ []
headers reply = (lit "content-type", lit "application/json") ∷ []

-- The response has the bytes of an object.
abbrev pub is_raw : Reply → Bool
is_raw (Reply.raw bytes) = true
is_raw reply = false

-- The value of the first header with a name.
abbrev pub header : Str → List (Str × Str) → Option Str
header name [] = none
header name ((n, v) ∷ hs) = let rest = header name hs in if bytes_eq n name then some v else rest

-- What a peer reads from a `content-length`.
abbrev pub length_read : Option Str → Option ℕ
length_read none = none
length_read (some s) = read_decimal s

module _ (from_utf8_lossy : Bytes → Str) (version_text : ℕ → Str) (timestamp : Str) where
  -- The length of the body, if it is an object.
  abbrev pub object_length : Reply → Option ℕ
  object_length r =
      if is_raw r then some (length (body_text from_utf8_lossy version_text timestamp r)) else none

  -- For a body shorter than 2 ^ 64 bytes: a response with the bytes of an object has a
  -- `content-length` that reads as the length of its body, and no other response has one.
  pub content_length_reads :
      (r : Reply)
      → length (body_text from_utf8_lossy version_text timestamp r) < 2 ^ 64
      → length_read (header (lit "content-length") (headers r)) ≡ object_length r
  unfolding headers body_text bytes_eq
  content_length_reads (Reply.raw bytes) h = read_decimal-to_string (length bytes) h
  content_length_reads Reply.healthy h = refl
  content_length_reads (Reply.echo bytes) h = refl
  content_length_reads (Reply.stored id key size version chunked) h = refl
  content_length_reads (Reply.deleted id key) h = refl
  content_length_reads (Reply.error e) h = refl
