-- ===== src/Net/Limits.antt =====
-- Size limits: `validate_frame` of wfldb-net/src/protocol.rs, `WireUtils` of wfldb-net/src/wire.rs.
pub mod ChunkSize
use wfl_db.Prelude.{
  ℕ, zero, suc, ◌+◌, ◌-◌, ◌*◌, ◌/◌, ◌%◌, ◌^◌, ◌≤◌, ◌≡◌, ◌↔◌, ◌⊎◌, not, Str, arith, ltb, ◌==◌,
  if◌then◌else◌,
}
use wfl_db.Core.Outcome.{Outcome, ok, panic}

abbrev pub protocol_version : ℕ
protocol_version = 1

abbrev pub max_header_size : ℕ
max_header_size = 64 * 1024

abbrev pub max_small_object_size : ℕ
max_small_object_size = 64 * 1024 * 1024

pub data ProtocolError : Type 0 where
  invalid_frame : Str → ProtocolError
  header_too_large : ℕ → ℕ → ProtocolError
  unsupported_version : ℕ → ProtocolError
  malformed_header : Str → ProtocolError
  missing_field : Str → ProtocolError

pub data Validation (E : Type 0) : Type 0 where
  valid : Validation E
  invalid : E → Validation E

unfoldable pub validate_frame : ℕ → ℕ → Validation ProtocolError
validate_frame header_size version =
    if ltb max_header_size header_size
    then invalid (header_too_large header_size max_header_size)
    else if not (version == protocol_version)
    then invalid (unsupported_version version)
    else valid

-- The two messages of `validate_sizes`, with the number that each shows.
pub data SizeError : Type 0 where
  header_over : ℕ → SizeError
  body_over : ℕ → SizeError

unfoldable pub validate_sizes : ℕ → ℕ → Validation SizeError
validate_sizes header_size body_size =
    if ltb max_header_size header_size
    then invalid (header_over header_size)
    else if ltb max_small_object_size body_size
    then invalid (body_over body_size)
    else valid

unfoldable pub frame_overhead : ℕ → ℕ → ℕ
frame_overhead header_size body_size = 4 + header_size

abbrev pub alignment : ℕ
alignment = 4096

-- `optimal_chunk_size`, in `usize` arithmetic that wraps; a division by zero panics.
unfoldable pub optimal_chunk_size : ℕ → ℕ → Outcome ℕ
optimal_chunk_size total_size zero = panic
optimal_chunk_size total_size (suc m) =
    let chunk_size = (total_size + suc m + (2 ^ 64 - 1)) % 2 ^ 64 / suc m in
    ok ((chunk_size + (alignment - 1)) % 2 ^ 64 / alignment * alignment)

-- Both validators accept exactly the sizes within the limits.
pub validate_iff :
    (header_size version body_size : ℕ)
    → ((validate_frame header_size version ≡ valid)
        ↔ ((header_size ≤ max_header_size) × (version ≡ protocol_version)))
      × ((validate_sizes header_size body_size ≡ valid)
          ↔ ((header_size ≤ max_header_size) × (body_size ≤ max_small_object_size)))
unfolding validate_frame validate_sizes
validate_iff header_size version body_size =
    ((ground arith, ground arith), (ground arith, ground arith))
