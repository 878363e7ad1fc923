-- ===== src/Net/Metrics.antt =====
-- `WireMetrics` of wfldb-net/src/wire.rs.
pub mod Totals
use wfl_db.Prelude.{◌^◌, ◌==◌, ◌%◌, if◌then◌else◌, ◌+◌, ℕ}

pub record WireMetrics : Type 0 where
  pub frames_sent : ℕ
  pub frames_received : ℕ
  pub bytes_sent : ℕ
  pub bytes_received : ℕ
  pub parse_time_us : ℕ
  pub serialize_time_us : ℕ

-- `u64 += u64`
abbrev pub add_u64 : ℕ → ℕ → ℕ
add_u64 a b = (a + b) % 2 ^ 64

unfoldable pub new : WireMetrics
new = record {
  frames_sent = 0;
  frames_received = 0;
  bytes_sent = 0;
  bytes_received = 0;
  parse_time_us = 0;
  serialize_time_us = 0;
}

unfoldable pub record_frame_sent : ℕ → WireMetrics → WireMetrics
record_frame_sent size m = record m {
  frames_sent = add_u64 m.frames_sent 1;
  bytes_sent = add_u64 m.bytes_sent size;
}

unfoldable pub record_frame_received : ℕ → WireMetrics → WireMetrics
record_frame_received size m = record m {
  frames_received = add_u64 m.frames_received 1;
  bytes_received = add_u64 m.bytes_received size;
}

unfoldable pub record_parse_time : ℕ → WireMetrics → WireMetrics
record_parse_time microseconds m = record m { parse_time_us = add_u64 m.parse_time_us microseconds }

unfoldable pub record_serialize_time : ℕ → WireMetrics → WireMetrics
record_serialize_time microseconds m = record m {
  serialize_time_us = add_u64 m.serialize_time_us microseconds;
}

-- `f64`, as far as the averages use it.
pub record Float : Type 1 where
  pub F : Type 0
  pub zero : F
  pub of_u64 : ℕ → F
  pub div : F → F → F

module _ (float : Float) where
  open float use {F, of_u64, div}

  unfoldable pub avg_parse_time_us : WireMetrics → F
  avg_parse_time_us m =
      if m.frames_received == 0
      then float.zero
      else div (of_u64 m.parse_time_us) (of_u64 m.frames_received)

  unfoldable pub avg_serialize_time_us : WireMetrics → F
  avg_serialize_time_us m =
      if m.frames_sent == 0
      then float.zero
      else div (of_u64 m.serialize_time_us) (of_u64 m.frames_sent)
