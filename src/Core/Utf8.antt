-- ===== src/Core/Utf8.antt =====
-- `str::from_utf8` and `str::chars` of Rust's standard library, as a decoder that reads a byte at a
-- time.
use wfl_db.Prelude.{
  ℕ, zero, suc, ◌+◌, ◌-◌, ◌*◌, ◌<◌, ◌≡◌, ◌&&◌, Option, none, some, List, [], ◌∷◌, ◌++◌, Bytes, Str,
  arith, ltb, leb, ◌==◌, if◌then◌else◌,
}

-- Between two bytes: how many continuation bytes are missing, the range of the next one, and the
-- bits read so far.
pub record Decoder : Type 0 where
  pub need : ℕ
  pub lo : ℕ
  pub hi : ℕ
  pub acc : ℕ

abbrev pub start : Decoder
start = record { need = 0; lo = 0; hi = 0; acc = 0 }

more : ℕ → ℕ → ℕ → ℕ → Option (List ℕ × Decoder)
more need lo hi acc = some ([], record { need = need; lo = lo; hi = hi; acc = acc })

first_byte : ℕ → Option (List ℕ × Decoder)
unfolding more
first_byte b =
    if ltb b 0x80
    then some (b ∷ [], start)
    else if ltb b 0xc2
    then none
    else if ltb b 0xe0
    then more 1 0x80 0xbf (b - 0xc0)
    else if ltb b 0xf0
    then more 2 (if b == 0xe0 then 0xa0 else 0x80) (if b == 0xed then 0x9f else 0xbf) (b - 0xe0)
    else if ltb b 0xf5
    then more 3 (if b == 0xf0 then 0x90 else 0x80) (if b == 0xf4 then 0x8f else 0xbf) (b - 0xf0)
    else none

next_byte : ℕ → Decoder → ℕ → Option (List ℕ × Decoder)
unfolding more
next_byte left d b =
    let acc = d.acc * 64 + (b - 0x80) in
    if leb d.lo b && leb b d.hi
    then (if left == 0 then some (acc ∷ [], start) else more left 0x80 0xbf acc)
    else none

advance_on : ℕ → Decoder → ℕ → Option (List ℕ × Decoder)
unfolding first_byte next_byte
advance_on zero d b = first_byte b
advance_on (suc left) d b = next_byte left d b

pub prepend : List ℕ → Option (List ℕ) → Option (List ℕ)
prepend out none = none
prepend out (some cs) = some (out ++ cs)

decode : Decoder → Bytes → Option (List ℕ)
unfolding advance_on prepend
decode d [] = if d.need == 0 then some [] else none
decode d (b ∷ bs) = elim (advance_on d.need d b) [
  | none ↦ none
  | some (out, d') ↦ prepend out (decode d' bs)
]

-- The code points of well-formed UTF-8.
unfoldable pub chars? : Bytes → Option (List ℕ)
unfolding decode
chars? = decode start

-- `str::from_utf8`: the same bytes, if they are well-formed.
unfoldable pub from_utf8 : Bytes → Option Str
from_utf8 bytes = elim (chars? bytes) [ none ↦ none | some _ ↦ some bytes ]

-- `str::chars`. A `&str` is always well-formed.
unfoldable pub chars : Str → List ℕ
chars s = elim (chars? s) [ none ↦ [] | some cs ↦ cs ]

pub chars?-ascii : (b : ℕ) (bs : Bytes) → b < 0x80 → chars? (b ∷ bs) ≡ prepend (b ∷ []) (chars? bs)
unfolding chars?
chars?-ascii b bs h = ground arith

-- An ASCII character in front of well-formed UTF-8.
pub from_utf8-ascii :
    (b : ℕ) (bs : Bytes) → b < 0x80 → from_utf8 bs ≡ some bs → from_utf8 (b ∷ bs) ≡ some (b ∷ bs)
unfolding from_utf8 prepend
from_utf8-ascii b bs h e = ground (arith, chars?-ascii b bs h)
