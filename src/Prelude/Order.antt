-- ===== src/Prelude/Order.antt =====
-- The order of byte strings.
use mathlib.Core.Path.{◌≡◌, refl}
use mathlib.Core.Logic.{◌⊎◌, inl, inr}
use mathlib.Core.Bool.{Bool, true, false, not, ◌&&◌, ◌||◌}
use mathlib.Core.List.{List, [], ◌∷◌}
use native.Mathlib.Omega.{arith}
use wfl_db.Prelude.Tests.{◌==◌, ltb}
use wfl_db.Prelude.Lists.{All}
use wfl_db.Prelude.Strings.{Str, starts_with, bytes_eq}

-- `Ord for str`: by bytes, a prefix first; whether `s` is at most `t`.
unfoldable pub str_leb : Str → Str → Bool
str_leb [] t = true
str_leb (x ∷ s) [] = false
str_leb (x ∷ s) (y ∷ t) = ltb x y || (x == y && str_leb s t)

pub str_leb_total : (s t : Str) → (str_leb s t ≡ true) ⊎ (str_leb t s ≡ true)
unfolding str_leb
str_leb_total [] t = inl refl
str_leb_total (x ∷ s) [] = inr refl
str_leb_total (x ∷ s) (y ∷ t) = ground (arith, str_leb_total s t)

pub str_leb_antisymm : (s t : Str) → str_leb s t ≡ true → str_leb t s ≡ true → s ≡ t
unfolding str_leb
str_leb_antisymm [] [] h k = refl
str_leb_antisymm [] (y ∷ t) h k = cc
str_leb_antisymm (x ∷ s) [] h k = cc
str_leb_antisymm (x ∷ s) (y ∷ t) h k = ground (arith, str_leb_antisymm s t)

pub str_leb_trans : (s t u : Str) → str_leb s t ≡ true → str_leb t u ≡ true → str_leb s u ≡ true
unfolding str_leb
str_leb_trans [] t u h k = refl
str_leb_trans (x ∷ s) [] u h k = cc
str_leb_trans (x ∷ s) (y ∷ t) [] h k = cc
str_leb_trans (x ∷ s) (y ∷ t) (z ∷ u) h k = ground (arith, str_leb_trans s t u)

pub str_leb_refl : (s : Str) → str_leb s s ≡ true
unfolding str_leb
str_leb_refl [] = refl
str_leb_refl (x ∷ s) = ground (arith, str_leb_refl s)

pub str_leb-bytes_eq : (s t : Str) → str_leb s t ≡ true → str_leb t s ≡ true → bytes_eq s t ≡ true
unfolding str_leb bytes_eq
str_leb-bytes_eq [] [] h k = refl
str_leb-bytes_eq [] (y ∷ t) h k = cc
str_leb-bytes_eq (x ∷ s) [] h k = cc
str_leb-bytes_eq (x ∷ s) (y ∷ t) h k = ground (arith, str_leb-bytes_eq s t)

pub bytes_eq-str_leb : (s t : Str) → bytes_eq s t ≡ true → str_leb s t ≡ true
unfolding str_leb bytes_eq
bytes_eq-str_leb [] [] h = refl
bytes_eq-str_leb [] (y ∷ t) h = cc
bytes_eq-str_leb (x ∷ s) [] h = cc
bytes_eq-str_leb (x ∷ s) (y ∷ t) h = ground (arith, bytes_eq-str_leb s t)

-- A prefix comes first.
pub starts_with-str_leb : (s p : Str) → starts_with s p ≡ true → str_leb p s ≡ true
unfolding str_leb starts_with
starts_with-str_leb s [] h = refl
starts_with-str_leb [] (y ∷ p) h = cc
starts_with-str_leb (x ∷ s) (y ∷ p) h = ground (arith, starts_with-str_leb s p)

-- What lies between a prefix and a string that starts with it starts with it too.
pub starts_with_between :
    (p s t : Str)
    → str_leb p s ≡ true
    → str_leb s t ≡ true
    → starts_with t p ≡ true
    → starts_with s p ≡ true
unfolding str_leb starts_with
starts_with_between [] s t h k e = refl
starts_with_between (z ∷ p) [] t h k e = cc
starts_with_between (z ∷ p) (x ∷ s) [] h k e = cc
starts_with_between (z ∷ p) (x ∷ s) (y ∷ t) h k e = ground (arith, starts_with_between p s t)

-- One string is strictly before another.
abbrev pub str_ltb : Str → Str → Bool
str_ltb s t = not (str_leb t s)

module _ {ℓ} {A : Type ℓ} (name : A → Str) where
  abbrev pub Ascending : List A → Type 0
  Ascending [] = Unit
  Ascending (x ∷ xs) = All (λ y. str_ltb (name x) (name y) ≡ true) xs × Ascending xs
