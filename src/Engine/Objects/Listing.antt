-- ===== src/Engine/Objects/Listing.antt =====
-- The keys of a map that have a prefix, by ascending name: what `list_objects` is meant to return.
use wfl_db.Engine.Objects.{Key-ext, lookup, Unique, Objects}
use wfl_db.Core.Key.{Key}
use wfl_db.Prelude.{
  ◌∙◌, inr, str_leb_total, none, refl, inl, bytes_eq_refl, eq_of_bytes_eq, bytes_eq_symm,
  str_leb-bytes_eq, str_leb_trans, bytes_eq-str_leb, [], some, Bool-cases, ◌&&◌, arith,
  if◌then◌else◌, true, starts_with, ◌||◌, false, Ascending, str_ltb, bytes_eq, All, ◌≡◌, Bool, ◌∷◌,
  List, Option, Str,
}

abbrev pub key_name : Key → Str
key_name k = k.as_str

abbrev pub insert_key : Key → List Key → List Key
insert_key k [] = k ∷ []
insert_key k (j ∷ js) =
    let rest = insert_key k js in if str_ltb k.as_str j.as_str then k ∷ j ∷ js else j ∷ rest

abbrev pub listing : Str → Objects → List Key
listing prefix [] = []
listing prefix ((k, o) ∷ objs) =
    let rest = listing prefix objs in
    if starts_with k.as_str prefix then insert_key k rest else rest

abbrev pub has_key : Key → List Key → Bool
has_key k [] = false
has_key k (j ∷ js) = bytes_eq k.as_str j.as_str || has_key k js

abbrev pub is_some {ℓ} : {A : Type ℓ} → Option A → Bool
is_some none = false
is_some (some a) = true

has_key-insert_key :
    (x k : Key) (js : List Key)
    → has_key x (insert_key k js) ≡ bytes_eq x.as_str k.as_str || has_key x js
has_key-insert_key x k [] = refl
has_key-insert_key x k (j ∷ js) = ground (arith, has_key-insert_key x k js)

pub has_key-listing :
    (x : Key) (prefix : Str) (objs : Objects)
    → has_key x (listing prefix objs) ≡ starts_with x.as_str prefix && is_some (lookup x objs)
has_key-listing x prefix [] = ground arith
has_key-listing x prefix ((k, o) ∷ objs) = ground (
  arith,
  has_key-listing x prefix objs,
  has_key-insert_key x k (listing prefix objs),
  eq_of_bytes_eq x.as_str k.as_str,
)

-- Every key of the list comes after `k`.
abbrev pub After : Key → List Key → Type 0
After k = All (λ (j : Key). str_ltb k.as_str j.as_str ≡ true)

ltb_irrefl : (k j : Key) → bytes_eq k.as_str j.as_str ≡ true → str_ltb j.as_str k.as_str ≡ false
ltb_irrefl k j h = ground (arith, bytes_eq-str_leb k.as_str j.as_str)

ltb_trans :
    (i j k : Key)
    → str_ltb i.as_str j.as_str ≡ true
    → str_ltb j.as_str k.as_str ≡ true
    → str_ltb i.as_str k.as_str ≡ true
ltb_trans i j k h g =
    ground (arith, str_leb_trans k.as_str i.as_str j.as_str, str_leb_total i.as_str j.as_str)

ltb_of_not :
    (k j : Key)
    → str_ltb k.as_str j.as_str ≡ false
    → bytes_eq k.as_str j.as_str ≡ false
    → str_ltb j.as_str k.as_str ≡ true
ltb_of_not k j h g = ground (arith, str_leb-bytes_eq k.as_str j.as_str)

After-trans :
    (i j : Key) (ks : List Key) → str_ltb i.as_str j.as_str ≡ true → After j ks → After i ks
After-trans i j [] h a = tt
After-trans i j (k ∷ ks) h a = (ltb_trans i j k h a.0, After-trans i j ks h a.1)

After-insert_key :
    (i k : Key) (js : List Key)
    → str_ltb i.as_str k.as_str ≡ true
    → After i js
    → After i (insert_key k js)
After-insert_key i k [] h a = (h, tt)
After-insert_key i k (j ∷ js) h a = elim (Bool-cases (str_ltb k.as_str j.as_str)) [
  | inl first ↦ rw first (h, a)
  | inr later ↦ rw later (a.0, After-insert_key i k js h a.1)
]

insert_key-Ascending :
    (k : Key) (js : List Key)
    → has_key k js ≡ false
    → Ascending key_name js
    → Ascending key_name (insert_key k js)
insert_key-Ascending k [] h a = (tt, tt)
insert_key-Ascending k (j ∷ js) h a = elim (Bool-cases (str_ltb k.as_str j.as_str)) [
  | inl first ↦ rw first ((first, After-trans k j js first a.0), a)
  | inr later ↦
      let other : bytes_eq k.as_str j.as_str ≡ false = ground (arith, h) in
      let rest : has_key k js ≡ false = ground (arith, h) in
      rw later (
        After-insert_key j k js (ltb_of_not k j later other) a.0,
        insert_key-Ascending k js rest a.1,
      )
]

pub listing-Ascending :
    (prefix : Str) (objs : Objects) → Unique objs → Ascending key_name (listing prefix objs)
listing-Ascending prefix [] u = tt
listing-Ascending prefix ((k, o) ∷ objs) u = elim (Bool-cases (starts_with k.as_str prefix)) [
  | inl has ↦ rw has (
      insert_key-Ascending k (listing prefix objs)
        (ground (arith, has_key-listing k prefix objs, u.0)) (listing-Ascending prefix objs u.1))
  | inr other ↦ rw other (listing-Ascending prefix objs u.1)
]

not-has_key : (k : Key) (ks : List Key) → After k ks → has_key k ks ≡ false
not-has_key k [] a = refl
not-has_key k (j ∷ js) a =
    ground (arith, not-has_key k js a.1, ltb_irrefl j k, bytes_eq_symm k.as_str j.as_str)

has_key-After :
    (i k : Key) (ks : List Key)
    → After i ks
    → has_key k ks ≡ true
    → str_ltb i.as_str k.as_str ≡ true
has_key-After i k [] a h = cc
has_key-After i k (j ∷ js) a h =
    ground (arith, has_key-After i k js a.1, eq_of_bytes_eq k.as_str j.as_str, a.0)

-- A list by ascending name is known by its keys.
pub Ascending-ext :
    (ks js : List Key)
    → Ascending key_name ks
    → Ascending key_name js
    → ((x : Key) → has_key x ks ≡ has_key x js)
    → ks ≡ js
Ascending-ext [] [] a b h = refl
Ascending-ext [] (j ∷ js) a b h = ground (arith, h j, bytes_eq_refl j.as_str)
Ascending-ext (k ∷ ks) [] a b h = ground (arith, h k, bytes_eq_refl k.as_str)
Ascending-ext (k ∷ ks) (j ∷ js) a b h =
    let same : bytes_eq k.as_str j.as_str ≡ true = ground (
      arith,
      h k,
      h j,
      bytes_eq_refl k.as_str,
      bytes_eq_refl j.as_str,
      bytes_eq_symm k.as_str j.as_str,
      has_key-After j k js b.0,
      has_key-After k j ks a.0,
      str_leb_total k.as_str j.as_str,
    ) in
    let tails : (x : Key) → has_key x ks ≡ has_key x js = λ x.
      elim (Bool-cases (bytes_eq x.as_str k.as_str)) [
        | inl here ↦
            let at_k : x ≡ k = Key-ext x k here in
            let at_j : x ≡ j = at_k ∙ Key-ext k j same in
            let no_k : has_key x ks ≡ false = rw at_k (not-has_key k ks a.0) in
            let no_j : has_key x js ≡ false = rw at_j (not-has_key j js b.0) in rw (no_k, no_j)
        | inr there ↦ ground (arith, h x, eq_of_bytes_eq k.as_str j.as_str same)
      ] in
    rw (Key-ext k j same, Ascending-ext ks js a.1 b.1 tails)
