-- ===== src/Core/Decimal.antt =====
-- Numbers and Booleans as `format!` and `to_string` show them.
use wfl_db.Prelude.{
  ap, refl, ◌∙◌, ◌≤◌, inr, ◌&&◌, inl, leb, Bool-cases, ◌-◌, arith, ◌*◌, ◌^◌, none, some, ◌<◌, ◌≡◌,
  Option, false, true, lit, Bool, zero, ◌%◌, ◌++◌, ◌∷◌, ◌+◌, ltb, if◌then◌else◌, ◌/◌, suc, [], Str,
  ℕ,
}

-- The decimal digits of a number; a `u64` has at most twenty.
abbrev digits : ℕ → ℕ → Str
digits zero n = []
digits (suc fuel) n =
    let rest = digits fuel (n / 10) in
    if ltb n 10 then (48 + n) ∷ [] else rest ++ (48 + n % 10) ∷ []

unfoldable pub to_string : ℕ → Str
to_string n = digits 20 n

abbrev pub bool_text : Bool → Str
bool_text true = lit "true"
bool_text false = lit "false"

-- The number that a text of decimal digits stands for, if it is one.
abbrev read_digits : Str → ℕ → Option ℕ
read_digits [] n = some n
read_digits (c ∷ s) n =
    let rest = read_digits s (n * 10 + (c - 48)) in if leb 48 c && leb c 57 then rest else none

abbrev pub read_decimal : Str → Option ℕ
read_decimal [] = none
read_decimal (c ∷ s) = read_digits (c ∷ s) 0

read_digits-append :
    (s : Str) (c n m : ℕ)
    → read_digits s n ≡ some m
    → c < 10
    → read_digits (s ++ (48 + c) ∷ []) n ≡ some (m * 10 + c)
read_digits-append [] c n m e small = ground (arith, e)
read_digits-append (x ∷ s) c n m e small = elim (Bool-cases (leb 48 x && leb x 57)) [
  | inl digit ↦
      let rest = read_digits-append s c (n * 10 + (x - 48)) m (rw digit at e) small in rw digit rest
  | inr other ↦ absurd (ground (arith, other, e))
]

more_digits : (fuel n : ℕ) → n < 10 ^ suc fuel → 10 ≤ n → 0 < fuel
more_digits zero n h large = absurd (omega arith)
more_digits (suc fuel) n h large = omega arith

shorter : (fuel n : ℕ) → n < 10 ^ suc fuel → n / 10 < 10 ^ fuel
shorter fuel n h = omega arith

read_digits-digits :
    (fuel n : ℕ) → 0 < fuel → n < 10 ^ fuel → read_digits (digits fuel n) 0 ≡ some n
read_digits-digits zero n pos h = absurd (omega arith)
read_digits-digits (suc fuel) n pos h = elim (Bool-cases (ltb n 10)) [
  | inl small ↦ rw small (ground arith)
  | inr large ↦
      let more : 0 < fuel = more_digits fuel n h (ground (arith, large)) in
      let rest = read_digits-digits fuel (n / 10) more (shorter fuel n h) in
      rw large (
        read_digits-append (digits fuel (n / 10)) (n % 10) 0 (n / 10) rest (omega arith)
        ∙ ap some (omega arith))
]

read_decimal-snoc : (s : Str) (c : ℕ) → read_decimal (s ++ c ∷ []) ≡ read_digits (s ++ c ∷ []) 0
read_decimal-snoc [] c = refl
read_decimal-snoc (x ∷ s) c = refl

-- A number of at most twenty digits, such as a `u64`, is read back from its text.
pub read_decimal-to_string : (n : ℕ) → n < 2 ^ 64 → read_decimal (to_string n) ≡ some n
unfolding to_string
read_decimal-to_string n h =
    let read = read_digits-digits 20 n (omega arith) (omega arith) in
    elim (Bool-cases (ltb n 10)) [
      | inl small ↦ rw small (ground arith)
      | inr large ↦
          rw large (read_decimal-snoc (digits 19 (n / 10)) (48 + n % 10) ∙ (rw large at read))
    ]
