-- ===== src/Net/Canonical.antt =====
-- `CanonicalRequest` of wfldb-net/src/protocol.rs: the text that a request signature covers.
pub mod Order
use wfl_db.Core.Decimal.{to_string}
use wfl_db.Prelude.{
  str_leb, zero, ◌&&◌, ◌%◌, ◌==◌, ◌+◌, ◌||◌, ltb, lit, ◌/◌, false, suc, map, if◌then◌else◌, true,
  ◌++◌, ◌∷◌, [], Bool, List, Str, ℕ,
}

-- `join` of a slice of strings.
unfoldable pub join_with : Str → List Str → Str
join_with separator [] = []
join_with separator (s ∷ []) = s
join_with separator (s ∷ t ∷ rest) = s ++ (separator ++ join_with separator (t ∷ rest))

abbrev pub Header : Type 0
Header = Str × Str

pub record CanonicalRequest : Type 0 where
  pub method : Str
  pub uri : Str
  pub query_string : Str
  pub headers : List Header
  pub payload_hash : Str
  pub timestamp : ℕ
  pub nonce : Str

unfoldable pub with_timestamp : ℕ → CanonicalRequest → CanonicalRequest
with_timestamp timestamp r = record r { timestamp = timestamp }

unfoldable pub with_nonce : Str → CanonicalRequest → CanonicalRequest
with_nonce nonce r = record r { nonce = nonce }

unfoldable pub with_payload_hash : Str → CanonicalRequest → CanonicalRequest
with_payload_hash hash r = record r { payload_hash = hash }

-- `sort_by` is stable: a header goes in front of the first one whose name is not smaller.
unfoldable pub insert_header : Header → List Header → List Header
insert_header h [] = h ∷ []
insert_header h (g ∷ gs) =
    let rest = insert_header h gs in if str_leb h.0 g.0 then h ∷ g ∷ gs else g ∷ rest

unfoldable pub sort_headers : List Header → List Header
unfolding insert_header
sort_headers [] = []
sort_headers (h ∷ hs) = insert_header h (sort_headers hs)

-- `to_uppercase`, `to_lowercase` and `trim` read the Unicode tables of the standard library.
module _ (to_uppercase to_lowercase trim : Str → Str) where
  unfoldable pub new : Str → Str → CanonicalRequest
  new method uri = record {
    method = to_uppercase method;
    uri = uri;
    query_string = [];
    headers = [];
    payload_hash = [];
    timestamp = 0;
    nonce = [];
  }

  unfoldable pub add_header : Str → Str → CanonicalRequest → CanonicalRequest
  add_header name value r = record r { headers = r.headers ++ (to_lowercase name, value) ∷ [] }

  -- The text of a request whose headers are sorted.
  unfoldable pub canonical_text : CanonicalRequest → Str
  canonical_text r = join_with (10 ∷ []) (
      r.method
      ∷ r.uri
      ∷ r.query_string
      ∷ join_with (10 ∷ []) (map (λ (h : Header). h.0 ++ (lit ":" ++ trim h.1)) r.headers)
      ∷ join_with (lit ";") (map (λ (h : Header). h.0) r.headers)
      ∷ r.payload_hash
      ∷ to_string r.timestamp
      ∷ r.nonce
      ∷ [])

  -- `build` sorts the headers in place; the text, and the request after the call.
  unfoldable pub build : CanonicalRequest → Str × CanonicalRequest
  build r =
      let sorted : CanonicalRequest = record r { headers = sort_headers r.headers } in
      (canonical_text sorted, sorted)
