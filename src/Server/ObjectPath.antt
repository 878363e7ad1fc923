-- ===== src/Server/ObjectPath.antt =====
-- `parse_object_path`, the same function in simple_server.rs, simple_server_fixed.rs and
-- handlers.rs of wfldb-server/src, which differ in how they wrap its error.
pub mod RoundTrip
use wfl_db.Prelude.{◌&&◌, ℕ, Bool, List, [], ◌∷◌, ◌++◌, Str, lit, ◌==◌, if◌then◌else◌}
use wfl_db.Core.Outcome.{Outcome, Answer, done, failed}
use wfl_db.Core.BucketId
use wfl_db.Core.BucketId.{BucketId}
use wfl_db.Core.Key
use wfl_db.Core.Key.{Key}

-- `str::split('/')`: at least one part.
abbrev pub prepend_to_first : ℕ → List Str → List Str
prepend_to_first c [] = (c ∷ []) ∷ []
prepend_to_first c (part ∷ parts) = (c ∷ part) ∷ parts

unfoldable pub split : Str → List Str
split [] = [] ∷ []
split (c ∷ s) = let parts = split s in if c == b'/' then [] ∷ parts else prepend_to_first c parts

-- `join("/")`
unfoldable pub join : List Str → Str
join [] = []
join (part ∷ []) = part
join (part ∷ next ∷ parts) = part ++ (b'/' ∷ join (next ∷ parts))

-- `path.strip_prefix("/v1/").unwrap_or("")`
unfoldable pub strip : Str → Str
strip (a ∷ b ∷ c ∷ d ∷ s) = if a == b'/' && (b == b'v' && (c == b'1' && d == b'/')) then s else []
strip _ = []

abbrev pub invalid_format : Str
invalid_format = lit "Invalid path format. Expected /v1/{bucket}/{key}"

-- `map_err(|_| message)?`
abbrev pub or_message : {A : Type 0} {B : Type 0} → Outcome A → Str → (A → Answer B) → Answer B
or_message (Outcome.ok a) message f = f a
or_message _ message f = failed message

-- The last step, with the rest of the parts joined.
abbrev pub with_key : Str → BucketId → Answer (BucketId × Key)
with_key key_part bucket_id =
    or_message (Key.new key_part) (lit "Invalid key") λ key. done (bucket_id, key)

module _ (is_alphanumeric : ℕ → Bool) where
  unfoldable pub parse_parts : List Str → Answer (BucketId × Key)
  parse_parts ((a ∷ s) ∷ (b ∷ t) ∷ parts) =
      or_message (BucketId.new is_alphanumeric (a ∷ s)) (lit "Invalid bucket name")
        (with_key (join ((b ∷ t) ∷ parts)))
  parse_parts _ = failed invalid_format

  unfoldable pub parse_object_path : Str → Answer (BucketId × Key)
  unfolding parse_parts
  parse_object_path path = parse_parts (split (strip path))
