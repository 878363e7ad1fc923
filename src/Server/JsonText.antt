-- ===== src/Server/JsonText.antt =====
-- The text of a JSON object, as its standard (RFC 8259) defines it: what a body is meant to be.
use wfl_db.Core.Decimal.{to_string, bool_text}
use wfl_db.Prelude.{
  ◌%◌, false, ◌/◌, [], ◌≡◌, ◌++◌, ◌||◌, lit, ◌+◌, All, ◌∷◌, ◌==◌, ltb, List, Bool, if◌then◌else◌,
  Str, ℕ,
}

pub data Value : Type 0 where
  text : Str → Value
  number : ℕ → Value
  flag : Bool → Value

abbrev hex_digit : ℕ → ℕ
hex_digit n = if ltb n 10 then 48 + n else 87 + n

-- A control character: by its letter, or by its code.
abbrev pub escape_control : ℕ → Str
escape_control c =
    if c == 8
    then lit "\\b"
    else if c == 9
    then lit "\\t"
    else if c == 10
    then lit "\\n"
    else if c == 12
    then lit "\\f"
    else if c == 13
    then lit "\\r"
    else lit "\\u00" ++ hex_digit (c / 16) ∷ hex_digit (c % 16) ∷ []

-- A quotation mark, a backslash and a control character cannot stand in a string as they are.
abbrev pub needs_escape : ℕ → Bool
needs_escape c = c == 34 || c == 92 || ltb c 32

abbrev pub escape_char : ℕ → Str
escape_char c =
    if c == 34
    then lit "\\\""
    else if c == 92
    then lit "\\\\"
    else if ltb c 32
    then escape_control c
    else c ∷ []

abbrev pub escape : Str → Str
escape [] = []
escape (c ∷ s) = escape_char c ++ escape s

abbrev pub value_text : Value → Str
value_text (Value.text s) = 34 ∷ escape s ++ 34 ∷ []
value_text (Value.number n) = to_string n
value_text (Value.flag b) = bool_text b

abbrev pub member_text : Str × Value → Str
member_text (name, v) = 34 ∷ escape name ++ 34 ∷ 58 ∷ value_text v

-- The members, separated by commas.
abbrev pub members_text : List (Str × Value) → Str
members_text [] = []
members_text (m ∷ []) = member_text m
members_text (m ∷ n ∷ ms) = member_text m ++ 44 ∷ members_text (n ∷ ms)

abbrev pub object_text : List (Str × Value) → Str
object_text ms = 123 ∷ members_text ms ++ 125 ∷ []

-- Nothing in the text needs an escape.
abbrev pub PlainText : Str → Type 0
PlainText = All (λ c. needs_escape c ≡ false)

abbrev pub PlainValue : Value → Type 0
PlainValue (Value.text s) = PlainText s
PlainValue v = Unit

abbrev pub AllPlain : List (Str × Value) → Type 0
AllPlain = All (λ (m : Str × Value). PlainValue m.1)
