-- ===== src/Tests/Canonical.antt =====
-- The theorems about signed requests.
use wfl_db.Core.Decimal.{to_string}
use wfl_db.Net.Canonical.Order.{build-Perm}
use wfl_db.Net.Canonical.{
  insert_header, sort_headers, join_with, canonical_text, build, CanonicalRequest, Header,
}
use mathlib.Core.List.Perm
use wfl_db.Prelude.{str_leb, refl, ◌++◌, ◌∷◌, [], ◌≡◌, lit, Str}

abbrev same : Str → Str
same s = s

abbrev accept : Header
accept = (lit "accept", lit "1")

abbrev host : Header
host = (lit "host", lit "2")

abbrev signed : CanonicalRequest
signed = record {
  method = lit "GET";
  uri = lit "/v1/a/b";
  query_string = [];
  headers = host ∷ accept ∷ [];
  payload_hash = [];
  timestamp = 1234567890;
  nonce = lit "n";
}

build-Perm_example :
    build same same same signed
    ≡ build same same same (record signed { headers = accept ∷ host ∷ [] })
build-Perm_example =
    build-Perm same same same signed (accept ∷ host ∷ []) (((λ e. cc), tt), (tt, tt))
      (Perm.swap accept host [])

-- The text of the request, by lines.
signed_text :
    (build same same same signed).0
    ≡ lit "GET"
      ++ (10 ∷ [])
      ++ lit "/v1/a/b"
      ++ (10 ∷ 10 ∷ [])
      ++ lit "accept:1"
      ++ (10 ∷ [])
      ++ lit "host:2"
      ++ (10 ∷ [])
      ++ lit "accept;host"
      ++ (10 ∷ 10 ∷ [])
      ++ lit "1234567890"
      ++ (10 ∷ [])
      ++ lit "n"
unfolding build canonical_text join_with to_string sort_headers insert_header str_leb
signed_text = refl
