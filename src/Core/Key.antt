-- ===== src/Core/Key.antt =====
-- `Key` of wfldb-core/src/types.rs.
use wfl_db.Prelude.{
  arith, ◌≡◌, ℕ, Bool, false, ◌||◌, ◌&&◌, List, [], ◌∷◌, Str, lit, starts_with, ltb, leb,
  if◌then◌else◌,
}
use wfl_db.Core.Outcome.{Outcome, ok, err, invalid_key}
use wfl_db.Core.Utf8.{chars}

pub record Key : Type 0 where
  pub as_str : Str

-- `char::is_control`: U+0000 to U+001F and U+007F to U+009F.
unfoldable pub is_control : ℕ → Bool
is_control c = ltb c 0x20 || (leb 0x7f c && leb c 0x9f)

unfoldable pub any_control : List ℕ → Bool
unfolding is_control
any_control [] = false
any_control (c ∷ cs) = is_control c || any_control cs

unfoldable pub new : Str → Outcome Key
unfolding any_control
new [] = err (invalid_key (lit "empty key"))
new (b ∷ bs) =
    if any_control (chars (b ∷ bs))
    then err (invalid_key (lit "control characters not allowed"))
    else ok (record { as_str = b ∷ bs })

unfoldable pub has_prefix : Key → Str → Bool
has_prefix k prefix = starts_with k.as_str prefix

pub as_str-new : (s : Str) (key : Key) → new s ≡ ok key → key.as_str ≡ s
unfolding new
as_str-new [] key h = cc
as_str-new (b ∷ bs) key h = ground arith
