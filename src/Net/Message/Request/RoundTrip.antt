-- ===== src/Net/Message/Request/RoundTrip.antt =====
-- A request comes back from its bytes, and what `from_bytes` does with any bytes.
use wfl_db.Core.Outcome.{ok}
use wfl_db.Net.Message.{type_text, RequestType}
use wfl_db.Net.Json.{optional_bytes, last_at, JsonLaws, Json}
use wfl_db.Net.Message.Request.{
  to_bytes, request_fields, from_bytes, from_value, bytes_at, number_at, text_at, byte_of,
  RequestMessage, type_of_text,
}
use wfl_db.Prelude.{
  [], arith, none, ◌%◌, refl, ◌∷◌, lit, map, some, Option, ℕ, IsBytes, ◌≡◌, List, Bytes, ◌^◌, ◌<◌,
  bytes_eq, Str,
}

pub type_of_text-type_text : (t : RequestType) → type_of_text (type_text t) ≡ some t
unfolding type_of_text bytes_eq
type_of_text-type_text RequestType.get = refl
type_of_text-type_text RequestType.put = refl
type_of_text-type_text RequestType.delete = refl
type_of_text-type_text RequestType.scan = refl
type_of_text-type_text RequestType.batch = refl

-- Numbers that a `u64` holds and bytes in the hash.
pub record IsValid (m : RequestMessage) : Type 0 where
  pub timestamp : m.timestamp < 2 ^ 64
  pub content_length : m.content_length < 2 ^ 64
  pub content_hash : (h : Bytes) → m.content_hash ≡ some h → IsBytes h

module _ (json : Json) (laws : JsonLaws json) where
  open json use {Value, object, string, number, array}

  byte_of-number : (bs : Bytes) → IsBytes bs → map (byte_of json) (map number bs) ≡ bs
  unfolding byte_of
  byte_of-number [] h = refl
  byte_of-number (b ∷ bs) h =
      let e : b % 256 ≡ b = omega (arith, h.0) in
      rw (laws.as_u64-number b (omega (arith, h.0)), e, byte_of-number bs h.1)

  -- What the three ways to read a field give for a value that was written.
  pub text_at-object :
      (fields : List (Str × Value)) (k s : Str)
      → last_at json.null k fields ≡ string s
      → text_at json (object fields) k ≡ s
  unfolding text_at
  text_at-object fields k s e = rw (laws.index-object fields k, e, laws.as_str-string s)

  pub number_at-object :
      (fields : List (Str × Value)) (k : Str) (n : ℕ)
      → n < 2 ^ 64
      → last_at json.null k fields ≡ number n
      → number_at json (object fields) k ≡ n
  unfolding number_at
  number_at-object fields k n h e = rw (laws.index-object fields k, e, laws.as_u64-number n h)

  pub bytes_at-object :
      (fields : List (Str × Value)) (k : Str) (bytes : Option Bytes)
      → ((h : Bytes) → bytes ≡ some h → IsBytes h)
      → last_at json.null k fields ≡ optional_bytes json bytes
      → bytes_at json (object fields) k ≡ bytes
  unfolding bytes_at
  bytes_at-object fields k none h e = rw (laws.index-object fields k, e, laws.as_array-null)
  bytes_at-object fields k (some bytes) h e = rw (
    laws.index-object fields k,
    e,
    laws.as_array-array (map number bytes),
    byte_of-number bytes (h bytes refl),
  )

  from_value-object :
      (m : RequestMessage) → IsValid m → from_value json (object (request_fields json m)) ≡ ok m
  unfolding from_value request_fields bytes_eq
  from_value-object m h =
      let fields = request_fields json m in
      rw (
        from_value,
        text_at-object fields (lit "request_type") (type_text m.request_type) refl,
        type_of_text-type_text m.request_type,
        text_at-object fields (lit "request_id") m.request_id refl,
        text_at-object fields (lit "bucket") m.bucket refl,
        text_at-object fields (lit "key") m.key refl,
        number_at-object fields (lit "timestamp") m.timestamp h.timestamp refl,
        text_at-object fields (lit "nonce") m.nonce refl,
        number_at-object fields (lit "content_length") m.content_length h.content_length refl,
        bytes_at-object fields (lit "content_hash") m.content_hash h.content_hash refl,
      )

  -- A request whose numbers are below 2 ^ 64 and whose hash is of bytes comes back from its bytes.
  pub from_bytes-to_bytes_request :
      (m : RequestMessage) → IsValid m → from_bytes json (to_bytes json m) ≡ ok m
  unfolding from_bytes to_bytes
  from_bytes-to_bytes_request m h =
      rw (from_bytes, to_bytes, laws.utf8, laws.from_str-to_string, from_value-object m h)
