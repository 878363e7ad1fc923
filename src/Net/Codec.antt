-- ===== src/Net/Codec.antt =====
-- `WireCodec` of wfldb-net/src/lib.rs. A reader is the bytes that are left in it.
pub mod Agreement
use wfl_db.Prelude.{ℕ, none, some, Bytes, lit, length, take, drop, ltb, if◌then◌else◌}
use wfl_db.Core.Outcome.{Answer, done, failed}
use wfl_db.Core.LittleEndian.{u32_from_le}
use wfl_db.Net.Frame.{WireFrame, to_bytes}

-- The text of std's error for an early end of the input.
abbrev pub unexpected_eof : Bytes
unexpected_eof = lit "failed to fill whole buffer"

-- `read_exact` into a buffer of `n` bytes, with what is left.
unfoldable pub read_exact : ℕ → Bytes → Answer (Bytes × Bytes)
read_exact n input =
    if ltb (length input) n then failed unexpected_eof else done (take n input, drop n input)

-- `u32::from_le_bytes` of a four-byte buffer.
unfoldable pub header_length : Bytes → ℕ
header_length buffer = elim (u32_from_le buffer) [ none ↦ 0 | some n ↦ n ]

-- The header and, up to the end of the input, the body.
unfoldable pub read_rest : ℕ → Bytes → Answer WireFrame
unfolding read_exact
read_rest header_len input = elim (read_exact header_len input) [
  | failed e ↦ failed e
  | done (header, body) ↦ done (record { header = header; body = body })
]

unfoldable pub read_frame : Bytes → Answer WireFrame
unfolding read_rest header_length
read_frame input = elim (read_exact 4 input) [
  | failed e ↦ failed e
  | done (header_len_bytes, rest) ↦ read_rest (header_length header_len_bytes) rest
]

-- A `Write`: `write_all` and `flush` over some state.
pub record Writer : Type 1 where
  pub W : Type 0
  pub write_all : Bytes → W → Answer (Unit {0}) × W
  pub flush : W → Answer (Unit {0}) × W

-- `write_all(…)?` and then `flush`.
abbrev pub then_flush :
    (writer : Writer) → Answer (Unit {0}) → writer.W → Answer (Unit {0}) × writer.W
then_flush writer (failed e) w = (failed e, w)
then_flush writer (done _) w = writer.flush w

unfoldable pub write_frame : (writer : Writer) → WireFrame → writer.W → Answer (Unit {0}) × writer.W
write_frame writer frame w =
    let (written, w1) = writer.write_all (to_bytes frame) w in then_flush writer written w1
