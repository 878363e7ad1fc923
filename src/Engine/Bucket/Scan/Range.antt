-- ===== src/Engine/Bucket/Scan/Range.antt =====
-- The loop of `scan_prefix` over a whole range: it stops at the right place.
use wfl_db.Core.Outcome.{panic, err, WflDbError}
use wfl_db.Engine.Bucket.{Outcome, done, ok, metadata_key}
use wfl_db.Engine.Bucket.Scan.{scan_items, strip_meta, listed_key}
use wfl_db.Core.Utf8.{from_utf8-ascii, from_utf8}
use wfl_db.Core.Key.{has_prefix, Key}
use wfl_db.Prelude.{
  ◌∙◌, ◌⊎◌, ◌+◌, append_assoc, leb, length-append, Bool-cases, append-nil, ◌-◌, take, inr, map, inl,
  str_leb_total, ◌<◌, starts_with_between, Option-cases, [], length, str_ltb, none, refl, All,
  false, arith, true, ◌∷◌, Ascending, str_leb, ◌++◌, some, zero, lit, ◌≡◌, List, suc, starts_with,
  Bytes, Str, Option, ℕ,
}
use wfl_db.Core.Key

abbrev consider : Option Key → List Key → List Key
consider none keys = keys
consider (some key) keys = key ∷ keys

-- The keys of all cells that have the prefix.
abbrev pub keys_of : Str → List (Bytes × Bytes) → List Key
keys_of prefix [] = []
keys_of prefix ((k, x) ∷ cells) = consider (listed_key prefix k) (keys_of prefix cells)

abbrev pub key_name : Key → Str
key_name k = k.as_str

abbrev pub cell_name : Bytes × Bytes → Str
cell_name c = c.0

-- A key that a cell is listed as: the cell is the metadata cell of that key.
pub record IsListed (prefix : Str) (key_bytes : Bytes) (key : Key) : Type 0 where
  pub cell : key_bytes ≡ metadata_key key
  pub prefixed : starts_with key.as_str prefix ≡ true
  pub found : starts_with key_bytes (lit "meta:" ++ prefix) ≡ true

strip_meta_lem : (s t : Str) → strip_meta s ≡ some t → s ≡ lit "meta:" ++ t
strip_meta_lem (a ∷ b ∷ c ∷ d ∷ e ∷ s) t h = ground arith
strip_meta_lem _ t h = cc

pub starts_with_meta :
    (prefix s : Str) → starts_with (lit "meta:" ++ s) (lit "meta:" ++ prefix) ≡ starts_with s prefix
unfolding starts_with
starts_with_meta prefix s = refl

from_utf8_lem : (s t : Bytes) → from_utf8 s ≡ some t → s ≡ t
unfolding from_utf8
from_utf8_lem s t h = ground arith

Outcome-cases :
    {A : Type 0} (r : Outcome A)
    → ((a : A) × (r ≡ ok a)) ⊎ (((e : WflDbError) × (r ≡ err e)) ⊎ (r ≡ panic))
Outcome-cases (ok a) = inl (a, refl)
Outcome-cases (err e) = inr (inl (e, refl))
Outcome-cases panic = inr (inr refl)

pub listed_key-IsListed :
    (prefix : Str) (key_bytes : Bytes) (key : Key)
    → listed_key prefix key_bytes ≡ some key
    → IsListed prefix key_bytes key
unfolding listed_key has_prefix
listed_key-IsListed prefix key_bytes key h = elim (Option-cases (from_utf8 key_bytes)) [
  | inl e ↦ let x = rw (e, listed_key) at h in cc
  | inr (s, e) ↦
      let same : key_bytes ≡ s = from_utf8_lem key_bytes s e in
      elim (Option-cases (strip_meta s)) [
        | inl e1 ↦ let x = rw (e, e1, listed_key) at h in cc
        | inr (t, e1) ↦ elim (Outcome-cases (Key.new t)) [
          | inl (k, e2) ↦
              let name = Key.as_str-new t k e2 in
              let tested : (k ≡ key) × (starts_with k.as_str prefix ≡ true) =
                ground (arith, e, e1, e2, h) in
              let cell_of : key_bytes ≡ metadata_key key =
                same
                ∙ strip_meta_lem s t e1
                ∙ rw (← tested.0, name) (unfold metadata_key in refl) in
              let prefixed : starts_with key.as_str prefix ≡ true = rw (← tested.0) tested.1 in
              record {
                cell = cell_of;
                prefixed = prefixed;
                found =
                    rw cell_of
                      (unfold metadata_key in starts_with_meta prefix key.as_str ∙ prefixed);
              }
          | inr bad ↦ let x = rw (e, e1, listed_key) at h in ground (arith, bad)
        ]
      ]
]

-- A valid key with the prefix is listed.
pub listed_key-metadata_key :
    (prefix : Str) (key : Key)
    → from_utf8 key.as_str ≡ some key.as_str
    → Key.new key.as_str ≡ ok key
    → starts_with key.as_str prefix ≡ true
    → listed_key prefix (metadata_key key) ≡ some key
unfolding listed_key has_prefix metadata_key
listed_key-metadata_key prefix key utf8 valid prefixed =
    let utf8_cell : from_utf8 (lit "meta:" ++ key.as_str) ≡ some (lit "meta:" ++ key.as_str) =
      from_utf8-ascii b'm' _ (omega arith) (
        from_utf8-ascii b'e' _ (omega arith) (
          from_utf8-ascii b't' _ (omega arith)
            (from_utf8-ascii b'a' _ (omega arith) (from_utf8-ascii b':' _ (omega arith) utf8)))) in
    ground (arith, utf8_cell, valid, prefixed)

unlisted :
    (prefix : Str) (key_bytes : Bytes)
    → starts_with key_bytes (lit "meta:" ++ prefix) ≡ false
    → listed_key prefix key_bytes ≡ none
unlisted prefix key_bytes h = elim (Option-cases (listed_key prefix key_bytes)) [
  | inl e ↦ e
  | inr (key, e) ↦ let l = (listed_key-IsListed prefix key_bytes key e).found in cc
]

-- From the first cell without the prefix on no cell has it.
keys_of_past :
    (prefix : Str) (k : Bytes) (cells : List (Bytes × Bytes))
    → str_leb (lit "meta:" ++ prefix) k ≡ true
    → starts_with k (lit "meta:" ++ prefix) ≡ false
    → All (λ c. str_ltb k (cell_name c) ≡ true) cells
    → keys_of prefix cells ≡ []
keys_of_past prefix k [] above none_here later = refl
keys_of_past prefix k ((j, x) ∷ cells) above none_here later =
    let here : listed_key prefix j ≡ none =
      unlisted prefix j
        (ground (arith, starts_with_between (lit "meta:" ++ prefix) k j, str_leb_total k j)) in
    rw (here, keys_of_past prefix k cells above none_here later.1)

-- A limit of 0 is taken as 1.
abbrev pub at_least_one : ℕ → ℕ
at_least_one zero = 1
at_least_one (suc n) = suc n

limit_full : (n m : ℕ) → leb n (m + 1) ≡ true → m < at_least_one n → at_least_one n - m ≡ 1
limit_full zero m h k = omega arith
limit_full (suc n) m h k = ground arith

limit_open :
    (n m : ℕ)
    → leb n (m + 1) ≡ false
    → (at_least_one n - m ≡ suc (at_least_one n - (m + 1))) × (m + 1 < at_least_one n)
limit_open zero m h = ground arith
limit_open (suc n) m h = ground arith

take_nil : (n : ℕ) → take {A = Key} n [] ≡ []
take_nil zero = refl
take_nil (suc n) = refl

-- The loop collects the keys of the cells that have the prefix, up to the limit.
pub scan_items-eq-take :
    (prefix : Str) (max_results : ℕ) (cells : List (Bytes × Bytes)) (keys : List Key)
    → Ascending cell_name cells
    → All (λ c. str_leb (lit "meta:" ++ prefix) (cell_name c) ≡ true) cells
    → length keys < at_least_one max_results
    → scan_items prefix (lit "meta:" ++ prefix) max_results (map done cells) keys
      ≡ ok (keys ++ take (at_least_one max_results - length keys) (keys_of prefix cells))
unfolding scan_items
scan_items-eq-take prefix n [] keys asc above room =
    rw (take_nil (at_least_one n - length keys), append-nil keys)
scan_items-eq-take prefix n ((k, x) ∷ cells) keys asc above room =
    elim (Bool-cases (starts_with k (lit "meta:" ++ prefix))) [
      | inl has ↦ elim (Option-cases (listed_key prefix k)) [
        | inl no_key ↦ rw (has, no_key, scan_items-eq-take prefix n cells keys asc.1 above.1 room)
        | inr (key, e) ↦
            let longer = length-append {0} keys (key ∷ []) in
            elim (Bool-cases (leb n (length (keys ++ key ∷ [])))) [
              | inl full ↦
                  let one : at_least_one n - length keys ≡ 1 =
                    limit_full n (length keys) (rw longer at full) room in
                  rw (has, e, full, one)
              | inr open_still ↦
                  let more : at_least_one n - length keys
                      ≡ suc (at_least_one n - length (keys ++ key ∷ [])) =
                    (rw longer (limit_open n (length keys) (rw longer at open_still)).0) in
                  let less : length (keys ++ key ∷ []) < at_least_one n =
                    (rw longer (limit_open n (length keys) (rw longer at open_still)).1) in
                  rw (
                    has,
                    e,
                    open_still,
                    more,
                    scan_items-eq-take prefix n cells (keys ++ key ∷ []) asc.1 above.1 less,
                    append_assoc keys (key ∷ []) _,
                  )
            ]
      ]
      | inr past ↦ rw (
        past,
        unlisted prefix k past,
        keys_of_past prefix k cells above.0 past asc.0,
        take_nil (at_least_one n - length keys),
        append-nil keys,
      )
    ]
