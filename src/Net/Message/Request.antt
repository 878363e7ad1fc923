-- ===== src/Net/Message/Request.antt =====
-- `RequestMessage` of wfldb-net/src/lib.rs. The time and the nonce of a new message are arguments.
pub mod RoundTrip
pub mod Cases
use wfl_db.Core.Utf8.{from_utf8}
use wfl_db.Core.Outcome.{done, failed, ok, internal, err, Outcome}
use wfl_db.Net.Json.{optional_bytes, unwrap_or, Json}
use wfl_db.Net.Message.{type_text, RequestType}
use mathlib.Core.Option
use wfl_db.Prelude.{
  map, ◌++◌, ◌∷◌, ◌%◌, [], lit, bytes_eq, some, List, if◌then◌else◌, none, Bytes, Option, ℕ, Str,
}

pub record RequestMessage : Type 0 where
  pub request_id : Str
  pub bucket : Str
  pub key : Str
  pub request_type : RequestType
  pub timestamp : ℕ
  pub nonce : Str
  pub content_length : ℕ
  pub content_hash : Option Bytes

unfoldable pub new_get : ℕ → Str → Str → Str → Str → RequestMessage
new_get timestamp nonce request_id bucket key = record {
  request_id = request_id;
  bucket = bucket;
  key = key;
  request_type = RequestType.get;
  timestamp = timestamp;
  nonce = nonce;
  content_length = 0;
  content_hash = none;
}

unfoldable pub new_put : ℕ → Str → Str → Str → Str → ℕ → Bytes → RequestMessage
new_put timestamp nonce request_id bucket key content_length content_hash = record {
  request_id = request_id;
  bucket = bucket;
  key = key;
  request_type = RequestType.put;
  timestamp = timestamp;
  nonce = nonce;
  content_length = content_length;
  content_hash = some content_hash;
}

-- The `match` on the text of `request_type`.
unfoldable pub type_of_text : Str → Option RequestType
type_of_text s =
    if bytes_eq s (lit "Get")
    then some RequestType.get
    else if bytes_eq s (lit "Put")
    then some RequestType.put
    else if bytes_eq s (lit "Delete")
    then some RequestType.delete
    else if bytes_eq s (lit "Scan")
    then some RequestType.scan
    else if bytes_eq s (lit "Batch")
    then some RequestType.batch
    else none

module _ (json : Json) where
  open json use {
    Value, object, string, number, to_string, from_str, index, as_str, as_u64, as_array,
  }

  unfoldable pub request_fields : RequestMessage → List (Str × Value)
  request_fields m =
      (lit "request_id", string m.request_id)
      ∷ (lit "bucket", string m.bucket)
      ∷ (lit "key", string m.key)
      ∷ (lit "request_type", string (type_text m.request_type))
      ∷ (lit "timestamp", number m.timestamp)
      ∷ (lit "nonce", string m.nonce)
      ∷ (lit "content_length", number m.content_length)
      ∷ (lit "content_hash", optional_bytes json m.content_hash)
      ∷ []

  unfoldable pub to_bytes : RequestMessage → Bytes
  to_bytes m = to_string (object (request_fields m))

  -- `value[k].as_str().unwrap_or("")`
  unfoldable pub text_at : Value → Str → Str
  text_at value k = unwrap_or (as_str (index value k)) []

  -- `value[k].as_u64().unwrap_or(0)`
  unfoldable pub number_at : Value → Str → ℕ
  number_at value k = unwrap_or (as_u64 (index value k)) 0

  -- `v.as_u64().unwrap_or(0) as u8`
  unfoldable pub byte_of : Value → ℕ
  byte_of v = unwrap_or (as_u64 v) 0 % 256

  unfoldable pub bytes_at : Value → Str → Option Bytes
  bytes_at value k = Option.map (map byte_of) (as_array (index value k))

  -- The request with the fields of a value and a type that is known.
  abbrev pub request_of : Value → RequestType → RequestMessage
  request_of value request_type = record {
    request_id = text_at value (lit "request_id");
    bucket = text_at value (lit "bucket");
    key = text_at value (lit "key");
    request_type = request_type;
    timestamp = number_at value (lit "timestamp");
    nonce = text_at value (lit "nonce");
    content_length = number_at value (lit "content_length");
    content_hash = bytes_at value (lit "content_hash");
  }

  unfoldable pub from_value : Value → Outcome RequestMessage
  from_value value = elim (type_of_text (text_at value (lit "request_type"))) [
    | none ↦ err (internal (lit "Invalid request type"))
    | some request_type ↦ ok (request_of value request_type)
  ]

  unfoldable pub from_bytes : Bytes → Outcome RequestMessage
  from_bytes bytes = elim (from_utf8 bytes) [
    | none ↦ err (internal (lit "Invalid UTF-8"))
    | some json_str ↦ elim (from_str json_str) [
      | failed e ↦ err (internal (lit "JSON parse error: " ++ e))
      | done value ↦ from_value value
    ]
  ]
