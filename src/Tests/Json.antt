-- ===== src/Tests/Json.antt =====
-- JSON values in memory, whose text is a program in postfix notation: every token builds a value from
-- those on the stack.
use wfl_db.Core.Utf8.{chars?, from_utf8-ascii, from_utf8}
use wfl_db.Core.Outcome.{failed, done, Answer}
use wfl_db.Net.Json.{last_at, JsonLaws, Json}
use mathlib.Core.Option
use wfl_db.Prelude.{
  lit, zero, false, refl, arith, true, suc, none, [], ◌≡◌, ◌==◌, ◌∷◌, some, bytes_eq, Bytes, ℕ,
  Option, if◌then◌else◌, List, Bool, Str,
}

pub data Value : Type 0 where
  null : Value
  bool : Bool → Value
  number : ℕ → Value
  string : Str → Value
  end_array : Value
  item : Value → Value → Value
  end_object : Value
  field : Str → Value → Value → Value

abbrev array : List Value → Value
array [] = end_array
array (v ∷ vs) = item v (array vs)

abbrev object : List (Str × Value) → Value
object [] = end_object
object ((k, v) ∷ fields) = field k v (object fields)

abbrev at_key : Value → Str → Value → Value
at_key other k (field j v rest) = at_key (if bytes_eq j k then v else other) k rest
at_key other k _ = other

abbrev items_of : Value → Option (List Value)
items_of end_array = some []
items_of (item v rest) = Option.map (λ vs. v ∷ vs) (items_of rest)
items_of _ = none

abbrev str_of : Value → Option Str
str_of (string s) = some s
str_of _ = none

abbrev u64_of : Value → Option ℕ
u64_of (number n) = some n
u64_of _ = none

abbrev bool_of : Value → Option Bool
bool_of (bool b) = some b
bool_of _ = none

-- The tokens of a number, a text and a value, followed by `rest`.
unfoldable pub emit_number : ℕ → Bytes → Bytes
emit_number zero rest = b'0' ∷ rest
emit_number (suc n) rest = emit_number n (b'+' ∷ rest)

unfoldable pub emit_string : Str → Bytes → Bytes
unfolding emit_number
emit_string [] rest = b'"' ∷ rest
emit_string (c ∷ cs) rest = emit_string cs (emit_number c (b'c' ∷ rest))

unfoldable pub emit : Value → Bytes → Bytes
unfolding emit_string
emit null rest = b'n' ∷ rest
emit (bool true) rest = b't' ∷ rest
emit (bool false) rest = b'f' ∷ rest
emit (number n) rest = emit_number n rest
emit (string s) rest = emit_string s rest
emit end_array rest = b'[' ∷ rest
emit (item v vs) rest = emit vs (emit v (b',' ∷ rest))
emit end_object rest = b'{' ∷ rest
emit (field k v fields) rest = emit fields (emit v (emit_string k (b':' ∷ rest)))

abbrev increment : List Value → Option (List Value)
increment (number n ∷ st) = some (number (suc n) ∷ st)
increment _ = none

abbrev add_char : List Value → Option (List Value)
add_char (number c ∷ string s ∷ st) = some (string (c ∷ s) ∷ st)
add_char _ = none

abbrev add_item : List Value → Option (List Value)
add_item (v ∷ vs ∷ st) = some (item v vs ∷ st)
add_item _ = none

abbrev add_field : List Value → Option (List Value)
add_field (string k ∷ v ∷ fields ∷ st) = some (field k v fields ∷ st)
add_field _ = none

step : ℕ → List Value → Option (List Value)
step t st =
    if t == b'n'
    then some (null ∷ st)
    else if t == b't'
    then some (bool true ∷ st)
    else if t == b'f'
    then some (bool false ∷ st)
    else if t == b'0'
    then some (number 0 ∷ st)
    else if t == b'+'
    then increment st
    else if t == b'"'
    then some (string [] ∷ st)
    else if t == b'c'
    then add_char st
    else if t == b'['
    then some (end_array ∷ st)
    else if t == b','
    then add_item st
    else if t == b'{'
    then some (end_object ∷ st)
    else if t == b':'
    then add_field st
    else none

pub build : Bytes → List Value → Option (List Value)
unfolding step
build [] st = some st
build (t ∷ ts) st = elim (step t st) [ none ↦ none | some st' ↦ build ts st' ]

abbrev only : Option (List Value) → Answer Value
only (some (v ∷ [])) = done v
only _ = failed (lit "expected value")

build-emit_number :
    (n : ℕ) (rest : Bytes) (st : List Value)
    → build (emit_number n rest) st ≡ build rest (number n ∷ st)
unfolding build emit_number
build-emit_number zero rest st = refl
build-emit_number (suc n) rest st = rw (build-emit_number n (b'+' ∷ rest) st)

build-emit_string :
    (s : Str) (rest : Bytes) (st : List Value)
    → build (emit_string s rest) st ≡ build rest (string s ∷ st)
unfolding build emit_string
build-emit_string [] rest st = refl
build-emit_string (c ∷ cs) rest st = rw (
  build-emit_string cs (emit_number c (b'c' ∷ rest)) st,
  build-emit_number c (b'c' ∷ rest) (string cs ∷ st),
)

build-emit :
    (v : Value) (rest : Bytes) (st : List Value) → build (emit v rest) st ≡ build rest (v ∷ st)
unfolding build emit
build-emit null rest st = refl
build-emit (bool true) rest st = refl
build-emit (bool false) rest st = refl
build-emit (number n) rest st = build-emit_number n rest st
build-emit (string s) rest st = build-emit_string s rest st
build-emit end_array rest st = refl
build-emit (item v vs) rest st =
    rw (build-emit vs (emit v (b',' ∷ rest)) st, build-emit v (b',' ∷ rest) (vs ∷ st))
build-emit end_object rest st = refl
build-emit (field k v fields) rest st = rw (
  build-emit fields (emit v (emit_string k (b':' ∷ rest))) st,
  build-emit v (emit_string k (b':' ∷ rest)) (fields ∷ st),
  build-emit_string k (b':' ∷ rest) (v ∷ fields ∷ st),
)

-- Well-formed UTF-8.
abbrev Formed : Bytes → Type 0
Formed bytes = from_utf8 bytes ≡ some bytes

emit_number-Formed : (n : ℕ) (rest : Bytes) → Formed rest → Formed (emit_number n rest)
unfolding emit_number
emit_number-Formed zero rest f = from_utf8-ascii b'0' rest (omega arith) f
emit_number-Formed (suc n) rest f =
    emit_number-Formed n (b'+' ∷ rest) (from_utf8-ascii b'+' rest (omega arith) f)

emit_string-Formed : (s : Str) (rest : Bytes) → Formed rest → Formed (emit_string s rest)
unfolding emit_string
emit_string-Formed [] rest f = from_utf8-ascii b'"' rest (omega arith) f
emit_string-Formed (c ∷ cs) rest f =
    emit_string-Formed cs (emit_number c (b'c' ∷ rest))
      (emit_number-Formed c (b'c' ∷ rest) (from_utf8-ascii b'c' rest (omega arith) f))

emit-Formed : (v : Value) (rest : Bytes) → Formed rest → Formed (emit v rest)
unfolding emit
emit-Formed null rest f = from_utf8-ascii b'n' rest (omega arith) f
emit-Formed (bool true) rest f = from_utf8-ascii b't' rest (omega arith) f
emit-Formed (bool false) rest f = from_utf8-ascii b'f' rest (omega arith) f
emit-Formed (number n) rest f = emit_number-Formed n rest f
emit-Formed (string s) rest f = emit_string-Formed s rest f
emit-Formed end_array rest f = from_utf8-ascii b'[' rest (omega arith) f
emit-Formed (item v vs) rest f =
    emit-Formed vs (emit v (b',' ∷ rest))
      (emit-Formed v (b',' ∷ rest) (from_utf8-ascii b',' rest (omega arith) f))
emit-Formed end_object rest f = from_utf8-ascii b'{' rest (omega arith) f
emit-Formed (field k v fields) rest f = emit-Formed fields (emit v (emit_string k (b':' ∷ rest))) (
    emit-Formed v (emit_string k (b':' ∷ rest))
      (emit_string-Formed k (b':' ∷ rest) (from_utf8-ascii b':' rest (omega arith) f)))

abbrev pub postfix : Json
postfix = record {
  Value = Value;
  null = null;
  bool = bool;
  number = number;
  string = string;
  array = array;
  object = object;
  to_string = λ v. emit v [];
  from_str = λ s. only (build s []);
  index = λ v k. at_key null k v;
  as_str = str_of;
  as_u64 = u64_of;
  as_bool = bool_of;
  as_array = items_of;
}

at_key-object :
    (other : Value) (fields : List (Str × Value)) (k : Str)
    → at_key other k (object fields) ≡ last_at other k fields
at_key-object other [] k = refl
at_key-object other ((j, v) ∷ fields) k = at_key-object (if bytes_eq j k then v else other) fields k

items_of-array : (vs : List Value) → items_of (array vs) ≡ some vs
items_of-array [] = refl
items_of-array (v ∷ vs) = rw (items_of-array vs)

pub postfix_laws : JsonLaws postfix
unfolding build from_utf8 chars?
postfix_laws = record {
  from_str-to_string = λ v. rw (build-emit v [] []);
  utf8 = λ v. emit-Formed v [] refl;
  index-object = at_key-object null;
  as_str-string = λ s. refl;
  as_str-null = refl;
  as_u64-number = λ n _. refl;
  as_bool-bool = λ b. refl;
  as_array-array = items_of-array;
  as_array-null = refl;
}
