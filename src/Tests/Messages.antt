-- ===== src/Tests/Messages.antt =====
-- The theorems about messages and the client.
use wfl_db.Net.Json.{unwrap_or}
use wfl_db.Tests.Net.{buffer-Takes, buffer}
use wfl_db.Tests.Json.{emit_number, emit_string, emit, postfix_laws, postfix}
use wfl_db.Net.Message.Request.Cases.{from_bytes_request_cases, Decoded}
use wfl_db.Net.Message.Request.RoundTrip.{from_bytes-to_bytes_request}
use wfl_db.Net.Message.Response.RoundTrip.{response_of-to_bytes, response_of}
use wfl_db.Net.Message.Request.{request_fields, from_bytes, RequestMessage}
use wfl_db.Net.Message.Request
use wfl_db.Net.Message.Response.{ResponseMessage}
use wfl_db.Net.Message.Response
use wfl_db.Core.Outcome.{done, ok}
use wfl_db.Net.Client.{Stream, send_request}
use wfl_db.Net.Client.Delivery.{send_request-Delivers, Delivers}
use wfl_db.Net.Message.{RequestType, ResponseStatus}
use wfl_db.Net.Metrics.{Float, new}
use wfl_db.Net.Metrics.Totals.{
  record_events-Counts, Event, record_events, Counts, parsed, frame_sent, frame_received,
  serialized,
}
use mathlib.Core.Path.{subst}
use wfl_db.Prelude.{◌*◌, ℕ, List, refl, IsBytes, true, none, some, [], ◌∷◌, ◌≡◌, arith, lit}

-- An upload of two bytes.
abbrev upload : RequestMessage
upload = record {
  request_id = lit "1";
  bucket = lit "p";
  key = lit "c";
  request_type = RequestType.put;
  timestamp = 3;
  nonce = lit "a";
  content_length = 2;
  content_hash = some (5 ∷ 6 ∷ []);
}

upload-IsValid : Request.RoundTrip.IsValid upload
upload-IsValid = record {
  timestamp = omega arith;
  content_length = omega arith;
  content_hash = λ h e. subst (λ o. IsBytes (unwrap_or o [])) e (omega arith);
}

from_bytes-to_bytes_request_example :
    from_bytes postfix (Request.to_bytes postfix upload) ≡ ok upload
from_bytes-to_bytes_request_example =
    from_bytes-to_bytes_request postfix postfix_laws upload upload-IsValid

from_bytes_request_cases_example : Decoded postfix (b'[' ∷ []) (from_bytes postfix (b'[' ∷ []))
from_bytes_request_cases_example = from_bytes_request_cases postfix (b'[' ∷ [])

abbrev refusal : ResponseMessage
refusal = record {
  request_id = lit "1";
  status = ResponseStatus.unauthorized;
  error_message = some (lit "no");
  content_length = 2;
  content_hash = some (5 ∷ []);
  version = none;
  is_chunked = true;
}

refusal-IsValid : Response.RoundTrip.IsValid refusal
refusal-IsValid = record {
  content_length = omega arith;
  content_hash = λ h e. subst (λ o. IsBytes (unwrap_or o [])) e (omega arith);
}

response_of-to_bytes_example :
    (value : postfix.Value) × (postfix.from_str (Response.to_bytes postfix refusal) ≡ done value)
    × (response_of postfix value ≡ some refusal)
response_of-to_bytes_example = response_of-to_bytes postfix postfix_laws refusal refusal-IsValid

-- A stream that keeps what is written, to a peer that sends a line.
abbrev wire : Stream
wire = record { writer = buffer; read_line = λ w. (done (lit "no"), w) }

send_request-Delivers_example :
    Delivers postfix wire
      (λ w. w)
      upload
      (5 ∷ 6 ∷ [])
      (send_request postfix wire upload (5 ∷ 6 ∷ []) [])
unfolding Request.to_bytes request_fields emit emit_string emit_number
send_request-Delivers_example =
    send_request-Delivers postfix postfix_laws wire (λ w. w) upload (5 ∷ 6 ∷ []) [] buffer-Takes
      refl upload-IsValid (omega arith)

-- Two frames received and one sent.
abbrev traffic : List Event
traffic =
    frame_sent 1024
    ∷ frame_received 2048
    ∷ parsed 100
    ∷ frame_received 10
    ∷ serialized 50
    ∷ parsed 60
    ∷ []

-- Fractions in the place of floating-point numbers.
abbrev fractions : Float
fractions = record {
  F = ℕ × ℕ;
  zero = (0, 1);
  of_u64 = λ n. (n, 1);
  div = λ a b. (a.0 * b.1, a.1 * b.0);
}

record_events-Counts_example : Counts fractions traffic (record_events traffic new)
record_events-Counts_example = record_events-Counts fractions traffic
