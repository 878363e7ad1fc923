-- ===== src/Net/Message/Request/Cases.antt =====
-- What `RequestMessage::from_bytes` does with any bytes.
use wfl_db.Core.Utf8.{from_utf8}
use wfl_db.Net.Message.{type_text, RequestType}
use wfl_db.Net.Json.{Json}
use wfl_db.Net.Message.Request.{
  request_of, text_at, from_bytes, from_value, RequestMessage, type_of_text,
}
use wfl_db.Core.Outcome.{ok, err, internal, done, failed, Outcome, Answer}
use wfl_db.Net.Message.Request.RoundTrip.{type_of_text-type_text}
use wfl_db.Prelude.{
  arith, refl, inr, inl, ◌++◌, Option, lit, ◌≢◌, eq_of_bytes_eq, Bytes, ◌⊎◌, none, some, ◌≡◌, Str,
}

type_text_of-type_of_text : (s : Str) (t : RequestType) → type_of_text s ≡ some t → type_text t ≡ s
unfolding type_of_text
type_text_of-type_of_text s t e = ground (
  arith,
  eq_of_bytes_eq s (lit "Get"),
  eq_of_bytes_eq s (lit "Put"),
  eq_of_bytes_eq s (lit "Delete"),
  eq_of_bytes_eq s (lit "Scan"),
  eq_of_bytes_eq s (lit "Batch"),
)

no_type : (s : Str) → type_of_text s ≡ none → (t : RequestType) → type_text t ≢ s
no_type s e t h = let known = rw h at (type_of_text-type_text t) in cc

module _ (json : Json) where
  open json use {Value, from_str}

  abbrev pub Unknown : Value → Outcome RequestMessage → Type 0
  Unknown value r =
      ((t : RequestType) → type_text t ≢ text_at json value (lit "request_type"))
      × (r ≡ err (internal (lit "Invalid request type")))

  abbrev pub Known : Value → Outcome RequestMessage → Type 0
  Known value r =
      (m : RequestMessage) × (r ≡ ok m)
      × (type_text m.request_type ≡ text_at json value (lit "request_type"))

  from_value_cases :
      (value : Value) → Unknown value (from_value json value) ⊎ Known value (from_value json value)
  unfolding from_value
  from_value_cases value = by_type (type_of_text text) refl
    where
      text : Str
      text = text_at json value (lit "request_type")

      by_type :
          (t : Option RequestType)
          → type_of_text text ≡ t
          → Unknown value (from_value json value) ⊎ Known value (from_value json value)
      by_type none e = inl (no_type text e, rw (from_value, e) refl)
      by_type (some t) e =
          inr (request_of json value t, rw (from_value, e) refl, type_text_of-type_of_text text t e)

  -- Not UTF-8, not JSON, a type that is none of the five, or a request of the type that the text names.
  abbrev pub Decoded : Bytes → Outcome RequestMessage → Type 0
  Decoded bytes r =
      ((from_utf8 bytes ≡ none) × (r ≡ err (internal (lit "Invalid UTF-8"))))
      ⊎ (((s e : Str) × (from_utf8 bytes ≡ some s)
            × (from_str s ≡ failed e)
            × (r ≡ err (internal (lit "JSON parse error: " ++ e))))
          ⊎ ((s : Str) × (value : Value) × (from_utf8 bytes ≡ some s)
              × (from_str s ≡ done value)
              × (Unknown value r ⊎ Known value r)))

  -- Which error or which request `from_bytes` returns for any bytes: not UTF-8, not JSON, a type
  -- that is none of the five, or a request of the type that the text names. It never panics.
  pub from_bytes_request_cases : (bytes : Bytes) → Decoded bytes (from_bytes json bytes)
  unfolding from_bytes
  from_bytes_request_cases bytes = decoded (from_utf8 bytes) refl
    where
      decoded : (o : Option Str) → from_utf8 bytes ≡ o → Decoded bytes (from_bytes json bytes)
      decoded none e = inl (e, rw (from_bytes, e) refl)
      decoded (some s) e = parsed (from_str s) refl
        where
          parsed : (a : Answer Value) → from_str s ≡ a → Decoded bytes (from_bytes json bytes)
          parsed (failed x) p = inr (inl (s, x, e, p, rw (from_bytes, e, p) refl))
          parsed (done value) p =
              inr (inr (s, value, e, p, rw (from_bytes, e, p) (from_value_cases value)))
