-- ===== src/Engine/Bucket/Scan/Keys.antt =====
-- The keys that a range of a partition is listed as.
use wfl_db.Engine.Bucket.Cells.{meta-meta}
use wfl_db.Core.Outcome.{ok}
use wfl_db.Engine.Objects.Listing.{is_some, After, has_key}
use wfl_db.Engine.Platform.{cell_at}
use wfl_db.Engine.Bucket.Scan.{listed_key, max_results_of}
use wfl_db.Engine.Bucket.Scan.Range.{
  listed_key-metadata_key, listed_key-IsListed, keys_of, key_name, cell_name, at_least_one,
}
use wfl_db.Core.Utf8.{from_utf8}
use wfl_db.Engine.Bucket.{metadata_key}
use wfl_db.Engine.Objects.{json_of, Key-ext, lookup, Object, Objects}
use wfl_db.Core.Key.{Key}
use wfl_db.Prelude.{
  zero, suc, ◌<◌, none, ◌∙◌, eq_of_bytes_eq, sym, Bool-cases, inr, bytes_eq_symm, inl,
  bytes_eq-str_leb, ◌&&◌, arith, starts_with, Option-cases, false, bytes_eq_refl, bytes_eq, [],
  refl, true, some, ◌∷◌, Ascending, ◌≡◌, str_leb, Bytes, str_ltb, All, take, Str, List, Option, ℕ,
}
use wfl_db.Core.Key

-- What holds of every `Key`: it is well-formed UTF-8 and `Key::new` accepted it.
pub record IsValid (key : Key) : Type 0 where
  pub utf8 : from_utf8 key.as_str ≡ some key.as_str
  pub accepted : Key.new key.as_str ≡ ok key

abbrev pub AllValid : Objects → Type 0
AllValid objs = (k : Key) (o : Object) → lookup k objs ≡ some o → IsValid k

-- The part of a listing that a limit lets through.
abbrev pub limited : Option ℕ → List Key → List Key
limited limit = take (at_least_one (max_results_of limit))

pub All-map :
    {A : Type 0} (P Q : A → Type 0) (xs : List A) → ((x : A) → P x → Q x) → All P xs → All Q xs
All-map P Q [] f a = tt
All-map P Q (x ∷ xs) f a = (f x a.0, All-map P Q xs f a.1)

All-map₂ :
    {A : Type 0} (P R Q : A → Type 0) (xs : List A)
    → ((x : A) → P x → R x → Q x)
    → All P xs
    → All R xs
    → All Q xs
All-map₂ P R Q [] f a b = tt
All-map₂ P R Q (x ∷ xs) f a b = (f x a.0 b.0, All-map₂ P R Q xs f a.1 b.1)

ltb-ne : (s t : Str) → str_ltb s t ≡ true → bytes_eq s t ≡ false
ltb-ne s t h = ground (arith, bytes_eq-str_leb t s, bytes_eq_symm s t)

pub is_some-json_of : (o : Option Object) → is_some (json_of o) ≡ is_some o
is_some-json_of none = refl
is_some-json_of (some o) = refl

pub at_least_one_pos : (n : ℕ) → 0 < at_least_one n
at_least_one_pos zero = omega arith
at_least_one_pos (suc n) = omega arith

metadata_key_injective : (k j : Key) → metadata_key k ≡ metadata_key j → k ≡ j
metadata_key_injective k j e =
    Key-ext k j (sym (meta-meta k j) ∙ rw e (bytes_eq_refl (metadata_key j)))

-- In a range no cell hides another.
pub cell_at_self :
    (cells : List (Bytes × Bytes))
    → Ascending cell_name cells
    → All (λ c. cell_at c.0 cells ≡ some c.1) cells
cell_at_self [] a = tt
cell_at_self ((k, x) ∷ cells) a = (
  rw bytes_eq_refl,
  All-map₂ (λ c. cell_at c.0 cells ≡ some c.1) (λ c. str_ltb k (cell_name c) ≡ true)
      (λ c. cell_at c.0 ((k, x) ∷ cells) ≡ some c.1) cells (λ c e l. rw (ltb-ne k c.0 l) e)
      (cell_at_self cells a.1) a.0,
)

metadata_key-leb :
    (k j : Key) → str_leb (metadata_key k) (metadata_key j) ≡ str_leb k.as_str j.as_str
unfolding metadata_key str_leb
metadata_key-leb k j = refl

keys_of-After :
    (prefix : Str) (key : Key) (cells : List (Bytes × Bytes))
    → All (λ c. str_ltb (metadata_key key) (cell_name c) ≡ true) cells
    → After key (keys_of prefix cells)
keys_of-After prefix key [] a = tt
keys_of-After prefix key ((j, x) ∷ cells) a = elim (Option-cases (listed_key prefix j)) [
  | inl e ↦ rw e (keys_of-After prefix key cells a.1)
  | inr (k, e) ↦
      let cell = (listed_key-IsListed prefix j k e).cell in
      let later : str_ltb key.as_str k.as_str ≡ true =
        rw (← metadata_key-leb k key) (rw cell at a.0) in
      rw e (later, keys_of-After prefix key cells a.1)
]

pub keys_of-Ascending :
    (prefix : Str) (cells : List (Bytes × Bytes))
    → Ascending cell_name cells
    → Ascending key_name (keys_of prefix cells)
keys_of-Ascending prefix [] a = tt
keys_of-Ascending prefix ((j, x) ∷ cells) a = elim (Option-cases (listed_key prefix j)) [
  | inl e ↦ rw e (keys_of-Ascending prefix cells a.1)
  | inr (k, e) ↦
      let cell = (listed_key-IsListed prefix j k e).cell in
      rw e (keys_of-After prefix k cells (rw cell at a.0), keys_of-Ascending prefix cells a.1)
]

-- The cells of a range that are metadata cells belong to valid keys.
abbrev pub ValidCells : List (Bytes × Bytes) → Type 0
ValidCells = All (λ (c : Bytes × Bytes). (key : Key) → c.0 ≡ metadata_key key → IsValid key)

pub has_key-keys_of :
    (x : Key) (prefix : Str) (cells : List (Bytes × Bytes))
    → ValidCells cells
    → has_key x (keys_of prefix cells)
      ≡ starts_with x.as_str prefix && is_some (cell_at (metadata_key x) cells)
has_key-keys_of x prefix [] v = ground arith
has_key-keys_of x prefix ((j, y) ∷ cells) v =
    let ih = has_key-keys_of x prefix cells v.1 in
    elim (Bool-cases (bytes_eq j (metadata_key x))) [
      | inl here ↦
          let cell : j ≡ metadata_key x = eq_of_bytes_eq j (metadata_key x) here in
          elim (Bool-cases (starts_with x.as_str prefix)) [
            | inl has ↦
                let valid = v.0 x cell in
                let found : listed_key prefix j ≡ some x =
                  rw cell (listed_key-metadata_key prefix x valid.utf8 valid.accepted has) in
                rw (found, here, has, bytes_eq_refl)
            | inr lacks ↦
                let found : listed_key prefix j ≡ none = elim (Option-cases (listed_key prefix j)) [
                  | inl e ↦ e
                  | inr (k, e) ↦
                      let l = listed_key-IsListed prefix j k e in
                      let same : k ≡ x = metadata_key_injective k x (sym l.cell ∙ cell) in
                      let p = rw same at l.prefixed in cc
                ] in
                rw (found, ih, lacks)
          ]
      | inr there ↦ elim (Option-cases (listed_key prefix j)) [
        | inl e ↦ rw (e, there, ih)
        | inr (k, e) ↦
            let l = listed_key-IsListed prefix j k e in
            let other : bytes_eq x.as_str k.as_str ≡ false =
              bytes_eq_symm x.as_str k.as_str ∙ sym (meta-meta k x) ∙ rw (← l.cell) there in
            rw (e, there, other, ih)
      ]
    ]
