-- ===== src/Core/Version.antt =====
-- `Version` of wfldb-core/src/types.rs, over the library for ULIDs.
use wfl_db.Prelude.{arith, ◌^◌, ◌/◌, ◌<◌, ◌≡◌, Str, ℕ}

-- What the code calls of `ulid::Ulid`, which is a number of 128 bits.
pub record UlidLibrary : Type 0 where
  pub timestamp_ms : ℕ → ℕ
  pub text : ℕ → Str

-- `Version(ulid::Ulid)`; its derived order is that of the numbers.
pub record Version : Type 0 where
  pub ulid : ℕ

unfoldable pub from_ulid : ℕ → Version
from_ulid ulid = record { ulid = ulid }

unfoldable pub as_ulid : Version → ℕ
as_ulid v = v.ulid

module _ (library : UlidLibrary) where
  open library use {timestamp_ms, text}

  unfoldable pub timestamp : Version → ℕ
  timestamp v = timestamp_ms v.ulid

  unfoldable pub version_text : Version → Str
  version_text v = text v.ulid

  -- The documented layout: the milliseconds are the 48 bits above 80 random ones.
  abbrev pub Layout : Type 0
  Layout = (u : ℕ) → timestamp_ms u ≡ u / 2 ^ 80

  -- A version of a later millisecond is greater.
  pub version_order : Layout → (v w : Version) → timestamp v < timestamp w → as_ulid v < as_ulid w
  unfolding timestamp as_ulid
  version_order layout v w h = omega (arith, layout v.ulid, layout w.ulid)
