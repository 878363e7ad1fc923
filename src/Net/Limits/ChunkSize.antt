-- ===== src/Net/Limits/ChunkSize.antt =====
-- `optimal_chunk_size` is optimal.
use native.Mathlib.Nat.{div-add-mod, le_trans}
use wfl_db.Prelude.{zero, ap, ◌-◌, arith, ◌^◌, ◌/◌, suc, ◌+◌, ◌<◌, ◌*◌, ◌≤◌, ◌%◌, ℕ, ◌≡◌}
use wfl_db.Core.Outcome.{ok}
use wfl_db.Net.Limits.{optimal_chunk_size, alignment}

-- `c` is the least multiple of the alignment of which `max_chunks` hold `total_size`.
pub record IsOptimal (total_size max_chunks c : ℕ) : Type 0 where
  pub aligned : c % alignment ≡ 0
  pub holds : total_size ≤ c * max_chunks
  pub least : (c' : ℕ) → c' % alignment ≡ 0 → total_size ≤ c' * max_chunks → c ≤ c'

quotient_bounds :
    (total m : ℕ)
    → (total ≤ (total + m) / suc m * suc m) × ((total + m) / suc m * suc m ≤ total + m)
quotient_bounds total m = (grind (arith, div-add-mod (total + m) (suc m)), grind arith)

below_quotient : (q m c total : ℕ) → q * suc m ≤ total + m → total ≤ c * suc m → q ≤ c
below_quotient q m c total h k = grind arith

mul_mono : (q c m : ℕ) → q ≤ c → q * suc m ≤ c * suc m
mul_mono q c m h = grind arith

-- For at least one chunk and sizes whose sum does not overflow, `optimal_chunk_size` returns the least
-- multiple of 4096 of which `max_chunks` hold `total_size`.
pub optimal_chunk_size-IsOptimal :
    (total_size max_chunks : ℕ)
    → 0 < max_chunks
    → total_size + max_chunks + alignment < 2 ^ 64
    → (c : ℕ) × (optimal_chunk_size total_size max_chunks ≡ ok c)
      × IsOptimal total_size max_chunks c
unfolding optimal_chunk_size
optimal_chunk_size-IsOptimal total zero pos small = absurd (omega arith)
optimal_chunk_size-IsOptimal total (suc m) pos small =
    let q = (total + m) / suc m in
    let (lo, hi) = quotient_bounds total m in
    let first : (total + suc m + (2 ^ 64 - 1)) % 2 ^ 64 ≡ total + m = omega arith in
    let q_small : q ≤ total + m = omega arith in
    (
      (q + (alignment - 1)) / alignment * alignment,
      rw first (ap ok omega arith),
      record {
        aligned = omega arith;
        holds =
            le_trans lo
              (mul_mono q ((q + (alignment - 1)) / alignment * alignment) m (omega arith));
        least = λ c' al fits. let below = below_quotient q m c' total hi fits in omega arith;
      },
    )
