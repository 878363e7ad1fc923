-- ===== src/Net/Frame.antt =====
-- `WireFrame` of wfldb-net/src/lib.rs: the header's length in four bytes, the header, the body.
pub mod RoundTrip
use wfl_db.Prelude.{
  ℕ, ◌+◌, ◌%◌, ◌^◌, none, some, ◌++◌, Bytes, lit, length, take, drop, ltb, if◌then◌else◌,
}
use wfl_db.Core.Outcome.{Outcome, ok, err, panic, internal}
use wfl_db.Core.LittleEndian.{u32_to_le, u32_from_le}

pub record WireFrame : Type 0 where
  pub header : Bytes
  pub body : Bytes

-- The length goes through `as u32`.
unfoldable pub to_bytes : WireFrame → Bytes
to_bytes f = u32_to_le (length f.header % 2 ^ 32) ++ (f.header ++ f.body)

abbrev pub frame_at : Bytes → ℕ → WireFrame
frame_at bytes header_len = record {
  header = take header_len (drop 4 bytes);
  body = drop (4 + header_len) bytes;
}

unfoldable pub from_bytes : Bytes → Outcome WireFrame
from_bytes bytes =
    if ltb (length bytes) 4
    then err (internal (lit "Frame too short"))
    else elim (u32_from_le bytes) [
      | none ↦ panic
      | some header_len ↦
          if ltb (length bytes) (4 + header_len)
          then err (internal (lit "Incomplete frame"))
          else ok (frame_at bytes header_len)
    ]

unfoldable pub size : WireFrame → ℕ
size f = 4 + length f.header + length f.body
