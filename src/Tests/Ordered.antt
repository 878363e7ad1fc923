-- ===== src/Tests/Ordered.antt =====
-- A range of the keyspace in memory, as a list of cells by ascending key.
use wfl_db.Engine.Platform.{IsRange, cell_at}
use wfl_db.Prelude.{
  str_leb-bytes_eq, str_leb_total, bytes_eq_refl, inr, str_leb_trans, eq_of_bytes_eq, [], inl, ◌&&◌,
  arith, some, str_leb, true, bytes_eq, none, Bool-cases, ◌≡◌, if◌then◌else◌, Option, Ascending,
  str_ltb, All, ◌∷◌, List, Str, Bytes,
}

abbrev pub put_cell : Bytes → Bytes → List (Bytes × Bytes) → List (Bytes × Bytes)
put_cell k x [] = (k, x) ∷ []
put_cell k x ((j, y) ∷ cells) =
    let rest = put_cell k x cells in
    if bytes_eq k j
    then (k, x) ∷ cells
    else if str_ltb k j
    then (k, x) ∷ (j, y) ∷ cells
    else (j, y) ∷ rest

cell_at-put_cell :
    (i k x : Bytes) (cells : List (Bytes × Bytes))
    → cell_at i (put_cell k x cells) ≡ (if bytes_eq k i then some x else cell_at i cells)
cell_at-put_cell i k x [] = ground arith
cell_at-put_cell i k x ((j, y) ∷ cells) = ground (
  arith,
  cell_at-put_cell i k x cells,
  eq_of_bytes_eq k j,
  eq_of_bytes_eq k i,
  eq_of_bytes_eq j i,
  bytes_eq_refl k,
  bytes_eq_refl i,
)

abbrev cell_key : Bytes × Bytes → Bytes
cell_key c = c.0

Above : Bytes → List (Bytes × Bytes) → Type 0
Above k = All (λ (c : Bytes × Bytes). str_ltb k c.0 ≡ true)

Above-trans :
    (i k : Bytes) (cells : List (Bytes × Bytes))
    → str_ltb i k ≡ true
    → Above k cells
    → Above i cells
unfolding Above
Above-trans i k [] h a = tt
Above-trans i k ((j, y) ∷ cells) h a =
    (ground (arith, str_leb_trans j i k, str_leb_total i k, a.0), Above-trans i k cells h a.1)

Above-put_cell :
    (i k x : Bytes) (cells : List (Bytes × Bytes))
    → str_ltb i k ≡ true
    → Above i cells
    → Above i (put_cell k x cells)
unfolding Above
Above-put_cell i k x [] h a = (h, tt)
Above-put_cell i k x ((j, y) ∷ cells) h a = elim (Bool-cases (bytes_eq k j)) [
  | inl same ↦ rw same (h, a.1)
  | inr other ↦ elim (Bool-cases (str_ltb k j)) [
    | inl first ↦ rw (other, first) (h, a)
    | inr later ↦ rw (other, later) (a.0, Above-put_cell i k x cells h a.1)
  ]
]

put_cell-Ascending :
    (k x : Bytes) (cells : List (Bytes × Bytes))
    → Ascending cell_key cells
    → Ascending cell_key (put_cell k x cells)
unfolding Above
put_cell-Ascending k x [] a = (tt, tt)
put_cell-Ascending k x ((j, y) ∷ cells) a = elim (Bool-cases (bytes_eq k j)) [
  | inl same ↦ rw same (rw (eq_of_bytes_eq k j same) a.0, a.1)
  | inr other ↦ elim (Bool-cases (str_ltb k j)) [
    | inl first ↦ rw (other, first) ((first, Above-trans k j cells first a.0), a)
    | inr later ↦
        let before : str_ltb j k ≡ true = ground (arith, str_leb-bytes_eq k j, later, other) in
        rw (other, later) (Above-put_cell j k x cells before a.0, put_cell-Ascending k x cells a.1)
  ]
]

-- The cells of partition `p` from the key `k` on. Newer entries stand in front.
abbrev pub range : Str → Bytes → List (Str × Bytes × Bytes) → List (Bytes × Bytes)
range p k [] = []
range p k ((q, j, x) ∷ d) =
    let rest = range p k d in if bytes_eq q p && str_leb k j then put_cell j x rest else rest

abbrev pub find : List (Str × Bytes × Bytes) → Str → Bytes → Option Bytes
find [] q j = none
find ((p, k, x) ∷ d) q j = if bytes_eq p q && bytes_eq k j then some x else find d q j

range-Ascending :
    (p : Str) (k : Bytes) (d : List (Str × Bytes × Bytes)) → Ascending cell_key (range p k d)
range-Ascending p k [] = tt
range-Ascending p k ((q, j, x) ∷ d) = elim (Bool-cases (bytes_eq q p && str_leb k j)) [
  | inl inside ↦ rw inside (put_cell-Ascending j x (range p k d) (range-Ascending p k d))
  | inr outside ↦ rw outside (range-Ascending p k d)
]

cell_at-range :
    (p : Str) (k i : Bytes) (d : List (Str × Bytes × Bytes))
    → cell_at i (range p k d) ≡ (if str_leb k i then find d p i else none)
cell_at-range p k i [] = ground arith
cell_at-range p k i ((q, j, x) ∷ d) =
    ground (arith, cell_at-range p k i d, cell_at-put_cell i j x (range p k d), eq_of_bytes_eq j i)

pub range-IsRange :
    (p : Str) (k : Bytes) (d : List (Str × Bytes × Bytes)) → IsRange (find d) p k (range p k d)
range-IsRange p k d = record {
  ascending = range-Ascending p k d;
  cells_at = λ i. cell_at-range p k i d;
}
