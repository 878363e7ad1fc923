-- ===== src/Net/Client.antt =====
-- `WireClient` of wfldb-net/src/wire.rs, over a stream to the peer.
pub mod Delivery
use wfl_db.Net.Json.{Json}
use wfl_db.Core.Outcome.{done, failed, Answer}
use wfl_db.Net.Codec.{then_flush, Writer}
use wfl_db.Net.Frame
use wfl_db.Net.Message.Response.{ok, ResponseMessage}
use wfl_db.Net.Message.Request.{to_bytes, RequestMessage}
use wfl_db.Prelude.{[], Bytes, Str}

-- A `TcpStream`: what is written, and `read_line` of a `BufReader` on it.
pub record Stream : Type 1 where
  pub writer : Writer
  pub read_line : writer.W → Answer Str × writer.W

-- `?` after a call on the stream.
abbrev pub after : {S A B : Type 0} → Answer A → (A → S → Answer B × S) → S → Answer B × S
after (failed e) next s = (failed e, s)
after (done a) next s = next a s

module _ (json : Json) (stream : Stream) where
  abbrev S : Type 0
  S = stream.writer.W

  -- Waits for a line and does not look at it.
  unfoldable pub await_response : Str → S → Answer (ResponseMessage × Bytes) × S
  await_response request_id s =
      let (line, s') = stream.read_line s in
      after line (λ _ s''. (done (ok request_id, []), s'')) s'

  unfoldable pub send_request : RequestMessage → Bytes → S → Answer (ResponseMessage × Bytes) × S
  send_request request body s =
      let frame_bytes = Frame.to_bytes (record { header = to_bytes json request; body = body }) in
      let (written, s1) = stream.writer.write_all frame_bytes s in
      let (sent, s2) = then_flush stream.writer written s1 in
      after sent (λ _. await_response request.request_id) s2
