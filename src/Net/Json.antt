-- ===== src/Net/Json.antt =====
-- What the messages of wfldb-net use of serde_json, as an interface.
use wfl_db.Core.Utf8.{from_utf8}
use wfl_db.Core.Outcome.{Answer, done}
use wfl_db.Prelude.{
  ◌^◌, ◌<◌, map, bytes_eq, Bytes, ◌≡◌, Bool, if◌then◌else◌, Option, none, some, List, [], ◌∷◌, Str,
  ℕ,
}

-- The value of a key in a list of fields: of the last one, if the key is there twice.
abbrev pub last_at : {A : Type 0} → A → Str → List (Str × A) → A
last_at other k [] = other
last_at other k ((j, x) ∷ fields) = last_at (if bytes_eq j k then x else other) k fields

-- `serde_json::Value` with the conversions that `json!` makes, printing, parsing and indexing.
pub record Json : Type 1 where
  pub Value : Type 0
  pub null : Value
  pub bool : Bool → Value
  pub number : ℕ → Value
  pub string : Str → Value
  pub array : List Value → Value
  pub object : List (Str × Value) → Value
  pub to_string : Value → Str
  pub from_str : Str → Answer Value
  pub index : Value → Str → Value
  pub as_str : Value → Option Str
  pub as_u64 : Value → Option ℕ
  pub as_bool : Value → Option Bool
  pub as_array : Value → Option (List Value)

-- The documented behaviour of serde_json.
pub record JsonLaws (json : Json) : Type 0 where
  pub from_str-to_string : (v : json.Value) → json.from_str (json.to_string v) ≡ done v
  pub utf8 : (v : json.Value) → from_utf8 (json.to_string v) ≡ some (json.to_string v)
  pub index-object :
      (fields : List (Str × json.Value)) (k : Str)
      → json.index (json.object fields) k ≡ last_at json.null k fields
  pub as_str-string : (s : Str) → json.as_str (json.string s) ≡ some s
  pub as_str-null : json.as_str json.null ≡ none
  pub as_u64-number : (n : ℕ) → n < 2 ^ 64 → json.as_u64 (json.number n) ≡ some n
  pub as_bool-bool : (b : Bool) → json.as_bool (json.bool b) ≡ some b
  pub as_array-array : (vs : List json.Value) → json.as_array (json.array vs) ≡ some vs
  pub as_array-null : json.as_array json.null ≡ none

-- `Option<T>` in `json!`.
module _ (json : Json) where
  open json use {Value, null, string, array, number}

  abbrev pub optional_string : Option Str → Value
  optional_string none = null
  optional_string (some s) = string s

  abbrev pub optional_bytes : Option Bytes → Value
  optional_bytes none = null
  optional_bytes (some bytes) = array (map number bytes)

-- `unwrap_or`
abbrev pub unwrap_or : {A : Type 0} → Option A → A → A
unwrap_or none other = other
unwrap_or (some a) other = a
