-- ===== src/Net/Client/Delivery.antt =====
-- What a request leaves at the peer, and what the client returns.
use wfl_db.Net.Codec.Agreement.{Takes}
use wfl_db.Net.Frame.{WireFrame}
use wfl_db.Net.Client.{after, send_request, await_response, Stream}
use wfl_db.Net.Json.{JsonLaws, Json}
use wfl_db.Core.Outcome.{done, failed, Answer}
use wfl_db.Core.Outcome
use wfl_db.Net.Frame
use wfl_db.Net.Message.Response.{ok, ResponseMessage}
use wfl_db.Net.Message.Request.{to_bytes, from_bytes, RequestMessage}
use wfl_db.Net.Message.Request.RoundTrip.{IsValid, from_bytes-to_bytes_request}
use wfl_db.Net.Frame.RoundTrip
use wfl_db.Prelude.{◌^◌, ◌<◌, refl, length, [], ◌≡◌, Bytes, Str}

-- The client's result, from the answer of `read_line`.
abbrev pub answered : Str → Answer Str → Answer (ResponseMessage × Bytes)
answered request_id (failed e) = failed e
answered request_id (done line) = done (ok request_id, [])

module _ (json : Json) (stream : Stream) (written : stream.writer.W → Bytes) where
  -- `s` is the stream when the client begins to wait: what is written parses to a frame that holds
  -- the request and the body.
  pub record Delivers (request : RequestMessage) (body : Bytes)
      (result : Answer (ResponseMessage × Bytes) × stream.writer.W) : Type 0 where
    pub waiting : stream.writer.W
    pub frame : WireFrame
    pub framed : Frame.from_bytes (written waiting) ≡ Outcome.ok frame
    pub header : from_bytes json frame.header ≡ Outcome.ok request
    pub body_kept : frame.body ≡ body
    pub returns :
        result
        ≡ (answered request.request_id (stream.read_line waiting).0, (stream.read_line waiting).1)

module _ (json : Json) (laws : JsonLaws json) (stream : Stream)
    (written : stream.writer.W → Bytes) where
  await_response-answered :
      (request_id : Str) (s : stream.writer.W)
      → await_response json stream request_id s
        ≡ (answered request_id (stream.read_line s).0, (stream.read_line s).1)
  unfolding await_response
  await_response-answered request_id s = by_answer (stream.read_line s).0
    where
      by_answer :
          (line : Answer Str)
          → after line (λ _ s''. (done (ok request_id, []), s'')) (stream.read_line s).1
            ≡ (answered request_id line, (stream.read_line s).1)
      by_answer (failed e) = refl
      by_answer (done line) = refl

  -- On a stream that takes everything and on which nothing is written, for a request that is valid
  -- and whose text is shorter than 4 GiB: when `send_request` begins to wait for the response, what
  -- it has written parses to a frame that holds the request and the body, and its result then is a
  -- positive response with an empty body whatever line the peer sends, and an error only if no line
  -- can be read.
  pub send_request-Delivers :
      (request : RequestMessage) (body : Bytes) (s : stream.writer.W)
      → Takes stream.writer written
      → written s ≡ []
      → IsValid request
      → length (to_bytes json request) < 2 ^ 32
      → Delivers json stream written request body (send_request json stream request body s)
  unfolding send_request
  send_request-Delivers request body s t empty valid short =
      let f : WireFrame = record { header = to_bytes json request; body = body } in
      let s1 = (stream.writer.write_all (Frame.to_bytes f) s).1 in
      let all : written (stream.writer.flush s1).1 ≡ Frame.to_bytes f =
        rw (t.flush_written s1, t.write_all_written (Frame.to_bytes f) s, empty) refl in
      record {
        waiting = (stream.writer.flush s1).1;
        frame = f;
        framed = rw all (RoundTrip.from_bytes-to_bytes f short);
        header = from_bytes-to_bytes_request json laws request valid;
        body_kept = refl;
        returns =
            rw (t.write_all_done (Frame.to_bytes f) s, t.flush_done s1)
              (await_response-answered request.request_id (stream.writer.flush s1).1);
      }
