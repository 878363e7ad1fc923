-- ===== src/Server/Body/Escapes.antt =====
-- When a body is the JSON text of what it shows.
use wfl_db.Server.Http.{Reply}
use wfl_db.Server.Body.{Reply, body_text}
use wfl_db.Prelude.{
  append_assoc, ◌∙◌, none, true, lit, some, Option, ap, ◌↔◌, Bytes, All, refl, length-append, ◌-◌,
  [], ◌++◌, arith, false, ◌+◌, ◌∷◌, ◌≡◌, length, List, Str, ℕ,
}
use wfl_db.Server.JsonText.{
  object_text, members_text, AllPlain, member_text, PlainValue, value_text, escape_char, PlainText,
  needs_escape, Value, escape,
}

-- How much longer the escapes make a text.
abbrev extra_char : ℕ → ℕ
extra_char c = length (escape_char c) - 1

abbrev extra : Str → ℕ
extra [] = 0
extra (c ∷ s) = extra_char c + extra s

escape_char_plain : (c : ℕ) → needs_escape c ≡ false → escape_char c ≡ c ∷ []
escape_char_plain c h = ground arith

length-escape_char : (c : ℕ) → length (escape_char c) ≡ 1 + extra_char c
length-escape_char c = ground arith

extra_char_zero : (c : ℕ) → extra_char c ≡ 0 → needs_escape c ≡ false
extra_char_zero c h = ground arith

escape_plain : (s : Str) → PlainText s → escape s ≡ s
escape_plain [] h = refl
escape_plain (c ∷ s) h = rw (escape_char_plain c h.0, escape_plain s h.1)

length-escape : (s : Str) → length (escape s) ≡ length s + extra s
length-escape [] = refl
length-escape (c ∷ s) =
    omega (arith, length-append (escape_char c) (escape s), length-escape_char c, length-escape s)

PlainText-of_extra : (s : Str) → extra s ≡ 0 → PlainText s
PlainText-of_extra [] h = tt
PlainText-of_extra (c ∷ s) h = (extra_char_zero c (omega arith), PlainText-of_extra s (omega arith))

-- The text without escapes.
abbrev raw_value : Value → Str
raw_value (Value.text s) = 34 ∷ s ++ 34 ∷ []
raw_value v = value_text v

abbrev raw_member : Str × Value → Str
raw_member (name, v) = 34 ∷ name ++ 34 ∷ 58 ∷ raw_value v

abbrev raw_members : List (Str × Value) → Str
raw_members [] = []
raw_members (m ∷ []) = raw_member m
raw_members (m ∷ n ∷ ms) = raw_member m ++ 44 ∷ raw_members (n ∷ ms)

abbrev raw_object : List (Str × Value) → Str
raw_object ms = 123 ∷ raw_members ms ++ 125 ∷ []

abbrev extra_value : Value → ℕ
extra_value (Value.text s) = extra s
extra_value v = 0

abbrev extras : List (Str × Value) → ℕ
extras [] = 0
extras (m ∷ ms) = extra_value m.1 + extras ms

length-value_text : (v : Value) → length (value_text v) ≡ length (raw_value v) + extra_value v
length-value_text (Value.text s) =
    omega (arith, length-append (escape s) (34 ∷ []), length-append s (34 ∷ []), length-escape s)
length-value_text (Value.number n) = omega arith
length-value_text (Value.flag b) = omega arith

value_text_plain : (v : Value) → PlainValue v → value_text v ≡ raw_value v
value_text_plain (Value.text s) h = rw (escape_plain s h)
value_text_plain (Value.number n) h = refl
value_text_plain (Value.flag b) h = refl

PlainValue-of_extra : (v : Value) → extra_value v ≡ 0 → PlainValue v
PlainValue-of_extra (Value.text s) h = PlainText-of_extra s h
PlainValue-of_extra (Value.number n) h = tt
PlainValue-of_extra (Value.flag b) h = tt

-- The names are printed as they are.
abbrev Named : List (Str × Value) → Type 0
Named = All (λ (m : Str × Value). escape m.0 ≡ m.0)

member_text_plain :
    (m : Str × Value) → escape m.0 ≡ m.0 → PlainValue m.1 → member_text m ≡ raw_member m
member_text_plain m e h = rw (e, value_text_plain m.1 h)

length-member_text :
    (m : Str × Value)
    → escape m.0 ≡ m.0
    → length (member_text m) ≡ length (raw_member m) + extra_value m.1
length-member_text m e = rw e (
    omega (
      arith,
      length-append m.0 (34 ∷ 58 ∷ value_text m.1),
      length-append m.0 (34 ∷ 58 ∷ raw_value m.1),
      length-value_text m.1,
    ))

members_text_plain :
    (ms : List (Str × Value)) → Named ms → AllPlain ms → members_text ms ≡ raw_members ms
members_text_plain [] n h = refl
members_text_plain (m ∷ []) n h = member_text_plain m n.0 h.0
members_text_plain (m ∷ k ∷ ms) n h =
    ap (λ t. t ++ 44 ∷ members_text (k ∷ ms)) (member_text_plain m n.0 h.0)
    ∙ ap (λ t. raw_member m ++ 44 ∷ t) (members_text_plain (k ∷ ms) n.1 h.1)

length-members_text :
    (ms : List (Str × Value))
    → Named ms
    → length (members_text ms) ≡ length (raw_members ms) + extras ms
length-members_text [] n = refl
length-members_text (m ∷ []) n = omega (arith, length-member_text m n.0)
length-members_text (m ∷ k ∷ ms) n =
    let rest = length-members_text (k ∷ ms) n.1 in
    omega (
      arith,
      rest,
      length-member_text m n.0,
      length-append (member_text m) (44 ∷ members_text (k ∷ ms)),
      length-append (raw_member m) (44 ∷ raw_members (k ∷ ms)),
    )

AllPlain-of_extras : (ms : List (Str × Value)) → extras ms ≡ 0 → AllPlain ms
AllPlain-of_extras [] h = tt
AllPlain-of_extras (m ∷ ms) h =
    (PlainValue-of_extra m.1 (omega arith), AllPlain-of_extras ms (omega arith))

raw_object_iff :
    (ms : List (Str × Value)) → Named ms → (raw_object ms ≡ object_text ms) ↔ AllPlain ms
raw_object_iff ms n = (
  λ e. AllPlain-of_extras ms (
      omega (
        arith,
        ap length e,
        length-append (members_text ms) (125 ∷ []),
        length-append (raw_members ms) (125 ∷ []),
        length-members_text ms n,
      )),
  λ h. rw (members_text_plain ms n h) refl,
)

with_members :
    (body : Str) (ms0 ms : List (Str × Value))
    → some ms0 ≡ some ms
    → body ≡ raw_object ms0
    → Named ms0
    → (body ≡ object_text ms) ↔ AllPlain ms
with_members body ms0 ms e shown named =
    let same : ms ≡ ms0 = cc in rw (shown, same) (raw_object_iff ms0 named)

module _ (from_utf8_lossy : Bytes → Str) (version_text : ℕ → Str) (timestamp : Str) where
  -- What a body shows, if it is not the bytes of an object.
  abbrev pub members : Reply → Option (List (Str × Value))
  members Reply.healthy = some (
      (lit "status", Value.text (lit "healthy"))
      ∷ (lit "version", Value.text (lit "0.1.0"))
      ∷ (lit "service", Value.text (lit "wfldb"))
      ∷ [])
  members (Reply.echo bytes) = some (
      (lit "echo", Value.text (from_utf8_lossy bytes))
      ∷ (lit "size", Value.number (length bytes))
      ∷ (lit "timestamp", Value.text timestamp)
      ∷ [])
  members (Reply.stored id key size version chunked) = some (
      (lit "success", Value.flag true)
      ∷ (lit "bucket", Value.text id.as_str)
      ∷ (lit "key", Value.text key.as_str)
      ∷ (lit "size", Value.number size)
      ∷ (lit "version", Value.text (version_text version))
      ∷ (lit "chunked", Value.flag chunked)
      ∷ [])
  members (Reply.raw bytes) = none
  members (Reply.deleted id key) = some (
      (lit "success", Value.flag true)
      ∷ (lit "bucket", Value.text id.as_str)
      ∷ (lit "key", Value.text key.as_str)
      ∷ (lit "deleted", Value.flag true)
      ∷ [])
  members (Reply.error e) = some ((lit "error", Value.text e) ∷ [])

  -- The body of a response that is not the bytes of an object is the text of the JSON object of what
  -- it shows exactly if no text in it has a quotation mark, a backslash or a control character.
  pub body_text_iff :
      (r : Reply) (ms : List (Str × Value))
      → members r ≡ some ms
      → (body_text from_utf8_lossy version_text timestamp r ≡ object_text ms) ↔ AllPlain ms
  unfolding body_text
  body_text_iff Reply.healthy ms e = with_members _ _ ms e refl (refl, (refl, (refl, tt)))
  body_text_iff (Reply.echo bytes) ms e =
      with_members _ _ ms e (simp append_assoc) (refl, (refl, (refl, tt)))
  body_text_iff (Reply.stored id key size version chunked) ms e =
      with_members _ _ ms e (simp append_assoc) (refl, (refl, (refl, (refl, (refl, (refl, tt))))))
  body_text_iff (Reply.raw bytes) ms e = cc
  body_text_iff (Reply.deleted id key) ms e =
      with_members _ _ ms e (simp append_assoc) (refl, (refl, (refl, (refl, tt))))
  body_text_iff (Reply.error text) ms e = with_members _ _ ms e (simp append_assoc) (refl, tt)
