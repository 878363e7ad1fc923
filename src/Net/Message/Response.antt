-- ===== src/Net/Message/Response.antt =====
-- `ResponseMessage` of wfldb-net/src/lib.rs.
pub mod RoundTrip
use wfl_db.Net.Json.{optional_bytes, optional_string, Json}
use wfl_db.Net.Message.{status_text, ResponseStatus}
use wfl_db.Prelude.{[], ◌∷◌, Bool, lit, false, ℕ, Bytes, List, some, none, Option, Str}

pub record ResponseMessage : Type 0 where
  pub request_id : Str
  pub status : ResponseStatus
  pub error_message : Option Str
  pub content_length : ℕ
  pub content_hash : Option Bytes
  pub version : Option Str
  pub is_chunked : Bool

unfoldable pub ok : Str → ResponseMessage
ok request_id = record {
  request_id = request_id;
  status = ResponseStatus.ok;
  error_message = none;
  content_length = 0;
  content_hash = none;
  version = none;
  is_chunked = false;
}

unfoldable pub error : Str → Str → ResponseMessage
error request_id message = record {
  request_id = request_id;
  status = ResponseStatus.error;
  error_message = some message;
  content_length = 0;
  content_hash = none;
  version = none;
  is_chunked = false;
}

module _ (json : Json) where
  open json use {Value, object, string, number, bool, to_string}

  unfoldable pub response_fields : ResponseMessage → List (Str × Value)
  response_fields m =
      (lit "request_id", string m.request_id)
      ∷ (lit "status", string (status_text m.status))
      ∷ (lit "error_message", optional_string json m.error_message)
      ∷ (lit "content_length", number m.content_length)
      ∷ (lit "content_hash", optional_bytes json m.content_hash)
      ∷ (lit "version", optional_string json m.version)
      ∷ (lit "is_chunked", bool m.is_chunked)
      ∷ []

  unfoldable pub to_bytes : ResponseMessage → Bytes
  to_bytes m = to_string (object (response_fields m))
