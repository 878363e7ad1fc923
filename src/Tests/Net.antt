-- ===== src/Tests/Net.antt =====
-- The theorems about frames and sizes.
use wfl_db.Net.Limits.ChunkSize.{optimal_chunk_size-IsOptimal, IsOptimal}
use wfl_db.Net.Frame.RoundTrip.{from_bytes-decides, IsNoFrame, from_bytes-to_bytes}
use wfl_db.Net.Codec.Agreement.{
  write_frames, read_frame-write_frames, read_frame-eq-from_bytes, as_io, Takes,
}
use wfl_db.Core.LittleEndian.{u32_to_le}
use wfl_db.Net.Limits.{optimal_chunk_size}
use wfl_db.Net.Codec.{Writer, read_frame}
use wfl_db.Net.Frame.{to_bytes, from_bytes, WireFrame}
use wfl_db.Core.Outcome.{WflDbError, ok, err, done}
use wfl_db.Prelude.{◌^◌, flatten, ◌⊎◌, ◌++◌, refl, arith, [], ◌≡◌, ◌<◌, ◌∷◌, length, Bytes, ℕ}

abbrev hello : WireFrame
hello = record { header = 1 ∷ 2 ∷ []; body = 3 ∷ [] }

abbrev hello_bytes : Bytes
hello_bytes = 2 ∷ 0 ∷ 0 ∷ 0 ∷ 1 ∷ 2 ∷ 3 ∷ []

from_bytes-to_bytes_example : from_bytes (to_bytes hello) ≡ ok hello
from_bytes-to_bytes_example = from_bytes-to_bytes hello (omega arith)

from_bytes-decides_example :
    ((f : WireFrame) × (from_bytes hello_bytes ≡ ok f)
      × (length f.header < 2 ^ 32)
      × (to_bytes f ≡ hello_bytes))
    ⊎ ((e : WflDbError) × (from_bytes hello_bytes ≡ err e) × IsNoFrame hello_bytes)
from_bytes-decides_example = from_bytes-decides hello_bytes (
    (
      omega arith,
      (omega arith, (omega arith, (omega arith, (omega arith, (omega arith, (omega arith, tt)))))),
    ))

read_frame-eq-from_bytes_example : read_frame hello_bytes ≡ as_io (from_bytes hello_bytes)
read_frame-eq-from_bytes_example = read_frame-eq-from_bytes hello_bytes

-- A writer that keeps what it is given.
abbrev pub buffer : Writer
buffer = record { W = Bytes; write_all = λ b w. (done tt, w ++ b); flush = λ w. (done tt, w) }

pub buffer-Takes : Takes buffer (λ w. w)
buffer-Takes = record {
  write_all_done = λ b w. refl;
  write_all_written = λ b w. refl;
  flush_done = λ w. refl;
  flush_written = λ w. refl;
}

-- Two frames on one stream.
read_frame-write_frames_example :
    ((write_frames buffer (hello ∷ hello ∷ []) []).0 ≡ done tt)
    × (read_frame (write_frames buffer (hello ∷ hello ∷ []) []).1
        ≡ done (record { header = 1 ∷ 2 ∷ []; body = 3 ∷ 2 ∷ 0 ∷ 0 ∷ 0 ∷ 1 ∷ 2 ∷ 3 ∷ [] }))
unfolding flatten to_bytes u32_to_le
read_frame-write_frames_example =
    read_frame-write_frames buffer (λ w. w) hello (hello ∷ []) [] buffer-Takes refl (omega arith)

optimal_chunk_size-IsOptimal_example :
    (c : ℕ) × (optimal_chunk_size 1000000 10 ≡ ok c) × IsOptimal 1000000 10 c
optimal_chunk_size-IsOptimal_example =
    optimal_chunk_size-IsOptimal 1000000 10 (omega arith) (omega arith)
