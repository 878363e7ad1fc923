-- ===== src/Engine/Storage/Chunking.antt =====
-- `slice::chunks` as `chunk_data` uses it.
use wfl_db.Prelude.{
  drop_all, take_all, ◌-◌, refl, [], zero, take-append-drop, length-append, length-drop, ◌%◌,
  length-take, drop, suc, ◌∷◌, ◌+◌, ◌*◌, ◌^◌, arith, ◌≤◌, Bytes, All, length, List, flatten, ◌<◌, ℕ,
  ◌≡◌,
}
use wfl_db.Engine.Storage.{chunks_fuel, chunks, chunk_data, chunk_size}
use wfl_db.Engine.Bucket.Chunks.{size_from}

full_before : (k n total : ℕ) → 0 < total → k * n < total - n + n → suc k * n < total + n
full_before zero n total pos h = omega arith
full_before (suc k) n total pos h = omega arith

-- The chunks joined are the data; none is empty or longer than `n`; and there are no more of them
-- than the length asks for.
pub record Splits {ℓ} {A : Type ℓ} (n : ℕ) (xs : List A) (cs : List (List A)) : Type ℓ where
  pub joined : flatten cs ≡ xs
  pub sizes : All (λ c. (0 < length c) × (length c ≤ n)) cs
  pub enough : length xs ≤ length cs * n
  pub fewest : length cs * n < length xs + n

module _ {ℓ} {A : Type ℓ} (n : ℕ) (pos : 0 < n) where
  flatten-chunks_fuel :
      (fuel : ℕ) (xs : List A) → length xs ≤ fuel → flatten (chunks_fuel fuel n xs) ≡ xs
  unfolding chunks_fuel flatten
  flatten-chunks_fuel zero [] h = refl
  flatten-chunks_fuel zero (x ∷ xs) h = absurd (omega arith)
  flatten-chunks_fuel (suc fuel) [] h = refl
  flatten-chunks_fuel (suc fuel) (x ∷ xs) h =
      let shorter : length (drop n (x ∷ xs)) ≤ fuel = rw length-drop (omega arith) in
      rw (flatten-chunks_fuel fuel (drop n (x ∷ xs)) shorter) (take-append-drop n (x ∷ xs))

  -- No chunk is empty or longer than `n`.
  chunks_fuel_bounds :
      (fuel : ℕ) (xs : List A) → All (λ c. (0 < length c) × (length c ≤ n)) (chunks_fuel fuel n xs)
  unfolding chunks_fuel
  chunks_fuel_bounds zero xs = tt
  chunks_fuel_bounds (suc fuel) [] = tt
  chunks_fuel_bounds (suc fuel) (x ∷ xs) = (
    (omega (arith, length-take n (x ∷ xs)), omega (arith, length-take n (x ∷ xs))),
    chunks_fuel_bounds fuel (drop n (x ∷ xs)),
  )

  -- All chunks but the last are full: there are as many as the length asks for.
  length-chunks_fuel :
      (fuel : ℕ) (xs : List A)
      → length xs ≤ fuel
      → (length xs ≤ length (chunks_fuel fuel n xs) * n)
        × (length (chunks_fuel fuel n xs) * n < length xs + n)
  unfolding chunks_fuel
  length-chunks_fuel zero [] h = (omega arith, omega arith)
  length-chunks_fuel zero (x ∷ xs) h = absurd (omega arith)
  length-chunks_fuel (suc fuel) [] h = (omega arith, omega arith)
  length-chunks_fuel (suc fuel) (x ∷ xs) h =
      let shorter : length (drop n (x ∷ xs)) ≤ fuel = rw length-drop (omega arith) in
      let (lo, hi) = length-chunks_fuel fuel (drop n (x ∷ xs)) shorter in
      let count = length (chunks_fuel fuel n (drop n (x ∷ xs))) in
      let left : length (drop n (x ∷ xs)) ≡ suc (length xs) - n = length-drop n (x ∷ xs) in
      (omega arith, full_before count n (suc (length xs)) (omega arith) (omega arith))

  pub chunks-Splits : (xs : List A) → Splits n xs (chunks n xs)
  unfolding chunks
  chunks-Splits xs = record {
    joined = flatten-chunks_fuel (length xs) xs (omega arith);
    sizes = chunks_fuel_bounds (length xs) xs;
    enough = (length-chunks_fuel (length xs) xs (omega arith)).0;
    fewest = (length-chunks_fuel (length xs) xs (omega arith)).1;
  }

-- `chunk_data` cuts the data into chunks of at most 4 MiB, none of them empty, as few as possible,
-- and the chunks joined are the data.
pub chunk_data-Splits : (bytes : Bytes) → Splits chunk_size bytes (chunk_data bytes)
unfolding chunk_data
chunk_data-Splits bytes = chunks-Splits chunk_size (omega arith) bytes

pub size_from-flatten :
    (total : ℕ) (cs : List Bytes)
    → total < 2 ^ 64
    → size_from total cs ≡ (total + length (flatten cs)) % 2 ^ 64
unfolding flatten
size_from-flatten total [] h = omega arith
size_from-flatten total (c ∷ cs) h = omega (
  arith,
  size_from-flatten ((total + length c) % 2 ^ 64) cs (omega arith),
  length-append {0} c (flatten cs),
)

chunks_fuel_nil {ℓ} : {A : Type ℓ} (fuel n : ℕ) → chunks_fuel {A = A} fuel n [] ≡ []
unfolding chunks_fuel
chunks_fuel_nil zero n = refl
chunks_fuel_nil (suc fuel) n = refl

chunks_single {ℓ} :
    {A : Type ℓ} (n : ℕ) (xs : List A) → 0 < length xs → length xs ≤ n → chunks n xs ≡ xs ∷ []
unfolding chunks chunks_fuel
chunks_single n [] pos h = absurd (omega arith)
chunks_single n (x ∷ xs) pos h =
    rw (take_all n (x ∷ xs) h, drop_all n (x ∷ xs) h, chunks_fuel_nil (length xs) n)

-- Data of at most one chunk is its own chunk.
pub chunk_data_single :
    (bytes : Bytes) → 0 < length bytes → length bytes ≤ chunk_size → chunk_data bytes ≡ bytes ∷ []
unfolding chunk_data
chunk_data_single bytes pos h = chunks_single chunk_size bytes pos h
