-- ===== src/Core/BucketId.antt =====
-- `BucketId` of wfldb-core/src/types.rs.
use wfl_db.Prelude.{
  refl, true, ◌≢◌, ◌↔◌, arith, ◌≡◌, ℕ, Bool, ◌||◌, [], ◌∷◌, ◌++◌, Str, lit, all, ◌==◌,
  if◌then◌else◌,
}
use wfl_db.Core.Outcome.{Outcome, ok, err, invalid_bucket_name}
use wfl_db.Core.Utf8.{chars}

pub record BucketId : Type 0 where
  pub as_str : Str

-- `char::is_alphanumeric` reads the Unicode tables of the standard library: a parameter.
module _ (is_alphanumeric : ℕ → Bool) where
  unfoldable pub allowed : ℕ → Bool
  allowed c = is_alphanumeric c || (c == b'-' || c == b'_')

  unfoldable pub new : Str → Outcome BucketId
  unfolding allowed all
  new [] = err (invalid_bucket_name (lit "empty name"))
  new (b ∷ bs) =
      if all allowed (chars (b ∷ bs))
      then ok (record { as_str = b ∷ bs })
      else err (invalid_bucket_name (lit "invalid characters in '" ++ (b ∷ bs) ++ lit "'"))

  pub as_str-new : (s : Str) (id : BucketId) → new s ≡ ok id → id.as_str ≡ s
  unfolding new
  as_str-new [] id h = cc
  as_str-new (b ∷ bs) id h = ground arith

  -- A name is accepted exactly if it is not empty and has only the characters that are allowed.
  pub new_iff :
      (s : Str) → (new s ≡ ok (record { as_str = s })) ↔ ((s ≢ []) × (all allowed (chars s) ≡ true))
  unfolding new
  new_iff [] = (λ h. cc, λ h. absurd (h.0 refl))
  new_iff (b ∷ bs) = (λ h. (λ e. cc, ground arith), λ h. ground arith)
