-- ===== src/Server/ObjectPath/RoundTrip.antt =====
-- Object paths and pairs of a bucket and a key determine each other.
use mathlib.Core.Path.{ap₂}
use wfl_db.Prelude.{
  arith, ==_iff, starts_with, sym, Bool, ◌∙◌, inr, refl, inl, false, [], Bool-cases, ◌==◌, ◌∷◌,
  ◌++◌, lit, All, List, Str, ℕ, ◌≡◌,
}
use wfl_db.Core.BucketId
use wfl_db.Core.BucketId.{BucketId}
use wfl_db.Core.Key
use wfl_db.Core.Key.{Key}
use wfl_db.Core.Outcome.{Outcome, ok, err, panic, Answer, done}
use wfl_db.Server.ObjectPath.{
  with_key, split, join, strip, parse_object_path, parse_parts, or_message, prepend_to_first,
}

abbrev pub NoSlash : Str → Type 0
NoSlash = All (λ c. (c == b'/') ≡ false)

-- The path of an object.
abbrev pub path_of : Str → Str → Str
path_of bucket key = lit "/v1/" ++ (bucket ++ (b'/' ∷ key))

split-append : (s t : Str) → NoSlash s → split (s ++ (b'/' ∷ t)) ≡ s ∷ split t
unfolding split
split-append [] t h = refl
split-append (c ∷ s) t h = rw (h.0, split-append s t h.1)

join-prepend : (c : ℕ) (parts : List Str) → join (prepend_to_first c parts) ≡ c ∷ join parts
unfolding join
join-prepend c [] = refl
join-prepend c (part ∷ []) = refl
join-prepend c (part ∷ next ∷ parts) = refl

split_cons : (s : Str) → (part : Str) × (parts : List Str) × (split s ≡ part ∷ parts)
unfolding split
split_cons [] = ([], [], refl)
split_cons (c ∷ s) =
    let (part, parts, e) = split_cons s in
    elim (Bool-cases (c == b'/')) [
      | inl slash ↦ ([], split s, rw slash)
      | inr other ↦ (c ∷ part, parts, rw (other, e))
    ]

join_empty_first : (s : Str) → join ([] ∷ split s) ≡ b'/' ∷ join (split s)
unfolding join
join_empty_first s = let (part, parts, e) = split_cons s in rw e

join-split : (s : Str) → join (split s) ≡ s
unfolding split
join-split [] = unfold join in refl
join-split (c ∷ s) =
    let (part, parts, e) = split_cons s in
    elim (Bool-cases (c == b'/')) [
      | inl slash ↦
          rw slash (join_empty_first s ∙ ap₂ ◌∷◌ (sym ((==_iff c b'/').0 slash)) (join-split s))
      | inr other ↦ rw (other, join-prepend, join-split s)
    ]

or_message-done :
    {A B : Type 0} (m : Outcome A) (message : Str) (f : A → Answer B) (b : B)
    → or_message m message f ≡ done b
    → (a : A) × (m ≡ ok a) × (f a ≡ done b)
or_message-done (ok a) message f b h = (a, refl, h)
or_message-done (err e) message f b h = cc
or_message-done panic message f b h = cc

strip_lem : (path s t : Str) → strip path ≡ s ++ (b'/' ∷ t) → path ≡ lit "/v1/" ++ (s ++ (b'/' ∷ t))
unfolding strip
strip_lem (a ∷ b ∷ c ∷ d ∷ r) [] t h = ground arith
strip_lem (a ∷ b ∷ c ∷ d ∷ r) (x ∷ s) t h = ground arith
strip_lem _ [] t h = cc
strip_lem _ (x ∷ s) t h = cc

module _ (is_alphanumeric : ℕ → Bool) where
  parse_at :
      (a b : ℕ) (s t : Str) (id : BucketId) (key : Key)
      → BucketId.new is_alphanumeric (a ∷ s) ≡ ok id
      → Key.new (b ∷ t) ≡ ok key
      → NoSlash (a ∷ s)
      → (b == b'/') ≡ false
      → parse_object_path is_alphanumeric (path_of (a ∷ s) (b ∷ t)) ≡ done (id, key)
  unfolding parse_object_path strip
  parse_at a b s t id key new_id new_key clean first =
      let (part, parts, e) = split_cons t in
      let parts_of : split (b ∷ t) ≡ (b ∷ part) ∷ parts = unfold split in rw (first, e) in
      let whole : join ((b ∷ part) ∷ parts) ≡ b ∷ t = rw (← parts_of) (join-split (b ∷ t)) in
      rw (split-append (a ∷ s) (b ∷ t) clean, parts_of, new_id, whole, new_key)

  -- The path of a valid bucket name without a slash and of a valid key that does not begin with a
  -- slash is parsed to that bucket and that key.
  pub parse_object_path-path_of :
      (id : BucketId) (key : Key)
      → BucketId.new is_alphanumeric id.as_str ≡ ok id
      → Key.new key.as_str ≡ ok key
      → NoSlash id.as_str
      → starts_with key.as_str (lit "/") ≡ false
      → parse_object_path is_alphanumeric (path_of id.as_str key.as_str) ≡ done (id, key)
  unfolding BucketId.new Key.new starts_with
  parse_object_path-path_of id key new_id new_key clean first =
      go id.as_str key.as_str new_id new_key clean first
    where
      go :
          (s t : Str)
          → BucketId.new is_alphanumeric s ≡ ok id
          → Key.new t ≡ ok key
          → NoSlash s
          → starts_with t (lit "/") ≡ false
          → parse_object_path is_alphanumeric (path_of s t) ≡ done (id, key)
      go [] t p q c f = cc
      go (a ∷ s) [] p q c f = cc
      go (a ∷ s) (b ∷ t) p q c f = parse_at a b s t id key p q c (ground arith)

  invert_parts :
      (parts : List Str) (id : BucketId) (key : Key)
      → parse_parts is_alphanumeric parts ≡ done (id, key)
      → join parts ≡ id.as_str ++ (b'/' ∷ key.as_str)
  unfolding parse_parts
  invert_parts ((a ∷ p) ∷ (b ∷ q) ∷ parts) id key h =
      let (id', new_id, h1) =
        or_message-done (BucketId.new is_alphanumeric (a ∷ p)) (lit "Invalid bucket name")
          (with_key (join ((b ∷ q) ∷ parts))) (id, key) h in
      let (key', new_key, h2) =
        or_message-done (Key.new (join ((b ∷ q) ∷ parts))) (lit "Invalid key") (λ k. done (id', k))
          (id, key) h1 in
      let bucket : id.as_str ≡ a ∷ p =
        ground (arith, BucketId.as_str-new is_alphanumeric (a ∷ p) id') in
      let rest : key.as_str ≡ join ((b ∷ q) ∷ parts) =
        ground (arith, Key.as_str-new (join ((b ∷ q) ∷ parts)) key') in
      rw (bucket, rest) (unfold join in refl)
  invert_parts _ id key h = cc

  -- A path that is parsed is the path of what it is parsed to.
  pub path_of-parse_object_path :
      (path : Str) (id : BucketId) (key : Key)
      → parse_object_path is_alphanumeric path ≡ done (id, key)
      → path ≡ path_of id.as_str key.as_str
  unfolding parse_object_path
  path_of-parse_object_path path id key h =
      let parts = invert_parts (split (strip path)) id key h in
      let stripped : strip path ≡ id.as_str ++ (b'/' ∷ key.as_str) =
        sym (join-split (strip path)) ∙ parts in
      strip_lem path id.as_str key.as_str stripped
