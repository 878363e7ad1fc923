-- ===== src/Net/Frame/RoundTrip.antt =====
-- Frames and byte strings determine each other.
use native.Mathlib.Decide.{dec_lt}
use wfl_db.Prelude.{
  ◌≢◌, refl, take-append-drop, lt→ltb, false, inr, length-take, ltb, inl, take, ◌*◌, ◌≤◌, ◌⊎◌, suc,
  lit, ◌∷◌, drop-append, ◌+◌, IsBytes, le→ltb, take-append, ◌%◌, drop, ap, some, ◌++◌,
  length-append, ◌^◌, arith, ◌<◌, length, Bytes, ℕ, ◌≡◌,
}
use wfl_db.Core.Outcome.{WflDbError}
use wfl_db.Core.LittleEndian.{u32_to_le-u32_from_le, u32_to_le, u32_from_le}
use wfl_db.Net.Frame.{internal, err, ok, WireFrame, to_bytes, from_bytes, size, frame_at}

-- The length in front of a frame is what the first four bytes say.
pub u32_from_le-append :
    (n : ℕ) (rest : Bytes) → n < 2 ^ 32 → u32_from_le (u32_to_le n ++ rest) ≡ some n
unfolding u32_to_le u32_from_le
u32_from_le-append n rest h = ap some (omega arith)

pub length-to_bytes : (f : WireFrame) → length (to_bytes f) ≡ size f
unfolding to_bytes size u32_to_le
length-to_bytes f = omega (arith, length-append {0} f.header f.body)

pub drop_four : (n a b c d : ℕ) (rest : Bytes) → drop (4 + n) (a ∷ b ∷ c ∷ d ∷ rest) ≡ drop n rest
drop_four n a b c d rest = let e : 4 + n ≡ suc (suc (suc (suc n))) = omega arith in rw e

u32_from_le-to_bytes :
    (f : WireFrame) → length f.header < 2 ^ 32 → u32_from_le (to_bytes f) ≡ some (length f.header)
unfolding to_bytes
u32_from_le-to_bytes f h =
    let e : length f.header % 2 ^ 32 ≡ length f.header = omega arith in
    rw e (u32_from_le-append (length f.header) (f.header ++ f.body) h)

frame_at-to_bytes : (f : WireFrame) → frame_at (to_bytes f) (length f.header) ≡ f
unfolding to_bytes u32_to_le
frame_at-to_bytes f = rw (drop_four, take-append f.header f.body, drop-append f.header f.body)

-- A frame whose header is shorter than 4 GiB comes back from its bytes.
pub from_bytes-to_bytes :
    (f : WireFrame) → length f.header < 2 ^ 32 → from_bytes (to_bytes f) ≡ ok f
unfolding from_bytes size
from_bytes-to_bytes f h =
    let len = length-to_bytes f in
    rw (
      len,
      u32_from_le-to_bytes f h,
      le→ltb (4 + length f.header + length f.body) 4 (omega arith),
      len,
      le→ltb (4 + length f.header + length f.body) (4 + length f.header) (omega arith),
      frame_at-to_bytes f,
    )

from_bytes_cases :
    (bytes : Bytes)
    → ((length bytes < 4) × (from_bytes bytes ≡ err (internal (lit "Frame too short"))))
      ⊎ ((n : ℕ) × (u32_from_le bytes ≡ some n)
          × (4 ≤ length bytes)
          × (((length bytes < 4 + n) × (from_bytes bytes ≡ err (internal (lit "Incomplete frame"))))
              ⊎ ((4 + n ≤ length bytes) × (from_bytes bytes ≡ ok (frame_at bytes n)))))
unfolding from_bytes u32_from_le
from_bytes_cases (a ∷ b ∷ c ∷ d ∷ rest) =
    let n = a + b * 256 + c * 2 ^ 16 + d * 2 ^ 24 in
    let long : ltb (suc (suc (suc (suc (length rest))))) 4 ≡ false = ground arith in
    inr (
      n,
      refl,
      omega arith,
      elim (dec_lt (suc (suc (suc (suc (length rest))))) (4 + n)) [
        | yes short ↦ inl (short, rw (long, lt→ltb _ _ short))
        | no fits ↦ inr (
          omega arith,
          rw (long, le→ltb (suc (suc (suc (suc (length rest))))) (4 + n) (omega arith)),
        )
      ],
    )
from_bytes_cases _ = inl (omega arith, refl)

to_bytes-frame_at :
    (bytes : Bytes) (n : ℕ)
    → IsBytes bytes
    → u32_from_le bytes ≡ some n
    → 4 + n ≤ length bytes
    → to_bytes (frame_at bytes n) ≡ bytes
unfolding to_bytes u32_from_le
to_bytes-frame_at (a ∷ b ∷ c ∷ d ∷ rest) n h e fits =
    let len : length (take n rest) ≡ n = omega (arith, length-take n rest) in
    let small : n % 2 ^ 32 ≡ n = ground arith in
    rw (
      len,
      small,
      drop_four,
      u32_to_le-u32_from_le a b c d n (h.0, (h.1.0, (h.1.1.0, (h.1.1.1.0, tt)))) e,
      take-append-drop n rest,
    )
to_bytes-frame_at _ n h e fits = cc

-- The frame that a byte string parses to has exactly these bytes.
pub to_bytes-from_bytes :
    (bytes : Bytes) (f : WireFrame) → IsBytes bytes → from_bytes bytes ≡ ok f → to_bytes f ≡ bytes
to_bytes-from_bytes bytes f h e = elim (from_bytes_cases bytes) [
  | inl (_, short) ↦ cc
  | inr (n, read, _, inl (_, cut)) ↦ cc
  | inr (n, read, _, inr (fits, whole)) ↦
      let same : frame_at bytes n ≡ f = cc in rw (← same) (to_bytes-frame_at bytes n h read fits)
]

header_small :
    (bytes : Bytes) (n : ℕ)
    → IsBytes bytes
    → u32_from_le bytes ≡ some n
    → length (frame_at bytes n).header < 2 ^ 32
unfolding u32_from_le
header_small (a ∷ b ∷ c ∷ d ∷ rest) n h e =
    let small : n < 2 ^ 32 = ground arith in omega (arith, length-take n rest)
header_small _ n h e = cc

-- No frame whose header is shorter than 4 GiB has these bytes.
abbrev pub IsNoFrame : Bytes → Type 0
IsNoFrame bytes = (g : WireFrame) → length g.header < 2 ^ 32 → to_bytes g ≢ bytes

IsNoFrame-error : (bytes : Bytes) (e : WflDbError) → from_bytes bytes ≡ err e → IsNoFrame bytes
IsNoFrame-error bytes e h g small same =
    let whole : from_bytes bytes ≡ ok g = rw (← same) (from_bytes-to_bytes g small) in cc

-- On any byte string, `from_bytes` returns a frame with a header shorter than 4 GiB that is written
-- as exactly these bytes, or an error, and then no such frame is written as these bytes. It never
-- panics.
pub from_bytes-decides :
    (bytes : Bytes)
    → IsBytes bytes
    → ((f : WireFrame) × (from_bytes bytes ≡ ok f)
        × (length f.header < 2 ^ 32)
        × (to_bytes f ≡ bytes))
      ⊎ ((e : WflDbError) × (from_bytes bytes ≡ err e) × IsNoFrame bytes)
from_bytes-decides bytes h = elim (from_bytes_cases bytes) [
  | inl (_, short) ↦ inr (_, short, IsNoFrame-error bytes _ short)
  | inr (n, read, _, inl (_, cut)) ↦ inr (_, cut, IsNoFrame-error bytes _ cut)
  | inr (n, read, _, inr (fits, whole)) ↦
      inl (
        frame_at bytes n,
        whole,
        header_small bytes n h read,
        to_bytes-frame_at bytes n h read fits,
      )
]
