-- ===== src/Core/LittleEndian.antt =====
-- `u32::to_le_bytes` and `u32::from_le_bytes`.
use wfl_db.Prelude.{
  ℕ, ◌+◌, ◌*◌, ◌/◌, ◌%◌, ◌^◌, ◌<◌, ◌≡◌, Option, none, some, [], ◌∷◌, Bytes, IsBytes, ap, arith,
}

unfoldable pub u32_to_le : ℕ → Bytes
u32_to_le n = n % 256 ∷ n / 256 % 256 ∷ n / 2 ^ 16 % 256 ∷ n / 2 ^ 24 % 256 ∷ []

-- The number in the first four bytes, if there are as many.
unfoldable pub u32_from_le : Bytes → Option ℕ
u32_from_le (a ∷ b ∷ c ∷ d ∷ rest) = some (a + b * 256 + c * 2 ^ 16 + d * 2 ^ 24)
u32_from_le _ = none

pub u32_from_le-u32_to_le : (n : ℕ) → n < 2 ^ 32 → u32_from_le (u32_to_le n) ≡ some n
unfolding u32_to_le u32_from_le
u32_from_le-u32_to_le n h = ap some (omega arith)

pub u32_to_le-u32_from_le :
    (a b c d n : ℕ)
    → IsBytes (a ∷ b ∷ c ∷ d ∷ [])
    → u32_from_le (a ∷ b ∷ c ∷ d ∷ []) ≡ some n
    → u32_to_le n ≡ a ∷ b ∷ c ∷ d ∷ []
unfolding u32_to_le u32_from_le
u32_to_le-u32_from_le a b c d n h e = ground arith
