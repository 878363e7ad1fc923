-- ===== src/Net/Message/Response/RoundTrip.antt =====
-- What a reader of a response's bytes finds in them.
use wfl_db.Core.Outcome.{done}
use wfl_db.Net.Message.Request.RoundTrip.{bytes_at-object, number_at-object, text_at-object}
use wfl_db.Net.Message.Request.{bytes_at, number_at, text_at}
use wfl_db.Net.Message.{status_text, ResponseStatus}
use wfl_db.Net.Message.Response.{to_bytes, response_fields, ResponseMessage}
use wfl_db.Net.Json.{optional_string, last_at, unwrap_or, JsonLaws, Json}
use wfl_db.Prelude.{
  refl, IsBytes, none, Bytes, false, ◌≡◌, some, List, ◌^◌, lit, if◌then◌else◌, ◌<◌, Bool, bytes_eq,
  Option, Str,
}
use mathlib.Core.Option

abbrev pub status_of_text : Str → Option ResponseStatus
status_of_text s =
    if bytes_eq s (lit "Ok")
    then some ResponseStatus.ok
    else if bytes_eq s (lit "NotFound")
    then some ResponseStatus.not_found
    else if bytes_eq s (lit "Error")
    then some ResponseStatus.error
    else if bytes_eq s (lit "Unauthorized")
    then some ResponseStatus.unauthorized
    else none

status_of_text-status_text : (t : ResponseStatus) → status_of_text (status_text t) ≡ some t
unfolding bytes_eq
status_of_text-status_text ResponseStatus.ok = refl
status_of_text-status_text ResponseStatus.not_found = refl
status_of_text-status_text ResponseStatus.error = refl
status_of_text-status_text ResponseStatus.unauthorized = refl

module _ (json : Json) where
  open json use {Value, index, as_str, as_bool, from_str}

  abbrev pub bool_at : Value → Str → Bool
  bool_at value k = unwrap_or (as_bool (index value k)) false

  -- The code has no parser of responses: this one reads each field by its name.
  abbrev pub response_of : Value → Option ResponseMessage
  response_of value =
      Option.map
        (λ status. record {
          request_id = text_at json value (lit "request_id");
          status = status;
          error_message = as_str (index value (lit "error_message"));
          content_length = number_at json value (lit "content_length");
          content_hash = bytes_at json value (lit "content_hash");
          version = as_str (index value (lit "version"));
          is_chunked = bool_at value (lit "is_chunked");
        })
        (status_of_text (text_at json value (lit "status")))

-- A length that a `u64` holds and bytes in the hash.
pub record IsValid (m : ResponseMessage) : Type 0 where
  pub content_length : m.content_length < 2 ^ 64
  pub content_hash : (h : Bytes) → m.content_hash ≡ some h → IsBytes h

module _ (json : Json) (laws : JsonLaws json) where
  open json use {Value, object, from_str, index, as_str, bool}

  optional_at-object :
      (fields : List (Str × Value)) (k : Str) (s : Option Str)
      → last_at json.null k fields ≡ optional_string json s
      → as_str (index (object fields) k) ≡ s
  optional_at-object fields k none e = rw (laws.index-object fields k, e, laws.as_str-null)
  optional_at-object fields k (some s) e = rw (laws.index-object fields k, e, laws.as_str-string s)

  bool_at-object :
      (fields : List (Str × Value)) (k : Str) (b : Bool)
      → last_at json.null k fields ≡ bool b
      → bool_at json (object fields) k ≡ b
  bool_at-object fields k b e = rw (laws.index-object fields k, e, laws.as_bool-bool b)

  response_of-object :
      (m : ResponseMessage)
      → IsValid m
      → response_of json (object (response_fields json m)) ≡ some m
  unfolding response_fields bytes_eq
  response_of-object m h =
      let fields = response_fields json m in
      rw (
        text_at-object json laws fields (lit "status") (status_text m.status) refl,
        status_of_text-status_text m.status,
        text_at-object json laws fields (lit "request_id") m.request_id refl,
        optional_at-object fields (lit "error_message") m.error_message refl,
        number_at-object json laws fields (lit "content_length") m.content_length h.content_length
            refl,
        bytes_at-object json laws fields (lit "content_hash") m.content_hash h.content_hash refl,
        optional_at-object fields (lit "version") m.version refl,
        bool_at-object fields (lit "is_chunked") m.is_chunked refl,
      )

  -- The bytes of a response whose length is below 2 ^ 64 and whose hash is of bytes are the text of
  -- a JSON value in which every field of the response is found under its name.
  pub response_of-to_bytes :
      (m : ResponseMessage)
      → IsValid m
      → (value : Value) × (from_str (to_bytes json m) ≡ done value)
        × (response_of json value ≡ some m)
  unfolding to_bytes
  response_of-to_bytes m h = (_, laws.from_str-to_string _, response_of-object m h)
