-- ===== src/Core/Outcome.antt =====
-- wfldb-core/src/error.rs, and the shape of a fallible operation.
use wfl_db.Prelude.{◌++◌, lit, Str, ◌≡◌}

-- The payloads of `Serialization` and `Io` are errors of serde_json and of std: kept as their text.
pub data WflDbError : Type 0 where
  storage : Str → WflDbError
  invalid_bucket_name : Str → WflDbError
  invalid_key : Str → WflDbError
  object_not_found : Str → WflDbError
  serialization : Str → WflDbError
  io : Str → WflDbError
  internal : Str → WflDbError

-- `Result<A, WflDBError>`, or a panic.
pub data Outcome {ℓ} (A : Type ℓ) : Type ℓ where
  ok : A → Outcome A
  err : WflDbError → Outcome A
  panic : Outcome A

-- The result of a call into a library: its value, or the text of its error.
pub data Answer (A : Type 0) : Type 0 where
  done : A → Answer A
  failed : Str → Answer A

-- What a step that may change a state and may fail does. What was written before a failure stays.
abbrev pub Exec {ℓ} : Type ℓ → Type ℓ → Type ℓ
Exec S A = S → Outcome A × S

module _ {ℓ} {S A : Type ℓ} where
  abbrev pub pure : A → Exec S A
  pure a s = (ok a, s)

  abbrev pub raise : WflDbError → Exec S A
  raise e s = (err e, s)

  abbrev pub lift : Outcome A → Exec S A
  lift r s = (r, s)

module _ {ℓ} {S A B : Type ℓ} where
  abbrev pub continue : Outcome A → (A → Exec S B) → Exec S B
  continue (ok a) f s = f a s
  continue (err e) f s = (err e, s)
  continue panic f s = (panic, s)

  infixl 10 ◌>>=◌ ◌>>◌
  -- `?`
  abbrev pub ◌>>=◌ : Exec S A → (A → Exec S B) → Exec S B
  ◌>>=◌ m f s = let (r, s') = m s in continue r f s'

  abbrev pub ◌>>◌ : Exec S A → Exec S B → Exec S B
  m >> n = m >>= λ _. n

-- A step that returns `a` and leaves `s'`, followed by the rest.
pub bind-ok {ℓ} :
    {S A B : Type ℓ} (m : Exec S A) (f : A → Exec S B) (s : S) (a : A) (s' : S)
    → m s ≡ (ok a, s')
    → (m >>= f) s ≡ f a s'
bind-ok m f s a s' h = rw (h, ◌>>=◌)

-- The `Display` of an error.
unfoldable pub display : WflDbError → Str
display (storage e) = lit "Storage error: " ++ e
display (invalid_bucket_name e) = lit "Invalid bucket name: " ++ e
display (invalid_key e) = lit "Invalid key: " ++ e
display (object_not_found key) = lit "Object not found: " ++ key
display (serialization e) = lit "Serialization error: " ++ e
display (io e) = lit "IO error: " ++ e
display (internal e) = lit "Internal error: " ++ e
