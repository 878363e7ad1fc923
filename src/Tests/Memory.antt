-- ===== src/Tests/Memory.antt =====
-- A keyspace in memory on which no call fails.
use wfl_db.Tests.Ordered.{find, range-IsRange, range}
use wfl_db.Engine.Effect.{At}
use wfl_db.Core.Types.{ObjectMetadata}
use mathlib.Core.Path.{fun_ext}
use wfl_db.Prelude.{
  ◌≤◌, map, bytes_eq_refl, eq_of_bytes_eq, ◌&&◌, refl, ◌%◌, arith, some, bytes_eq, IsBytes, [], lit,
  length, if◌then◌else◌, none, ap, ◌∷◌, Option, Bytes, Str, List, ◌≡◌,
}
use wfl_db.Engine.Platform.{
  Platform, Laws, View, write, apply_batch, BatchItem, Answer, done, failed,
}
use wfl_db.Tests.Codec.{metadata_in, metadata_out, metadata_in-metadata_out}

abbrev pub Memory : Type 0
Memory = List (Str × Bytes × Bytes)

abbrev pub clear : Str → Bytes → Memory → Memory
clear q j [] = []
clear q j ((p, k, x) ∷ d) =
    let rest = clear q j d in if bytes_eq q p && bytes_eq j k then rest else (p, k, x) ∷ rest

pub find-clear :
    (p : Str) (k : Bytes) (d : Memory) (q : Str) (j : Bytes)
    → find (clear p k d) q j ≡ write p k none (find d) q j
find-clear p k [] q j = ground arith
find-clear p k ((r, l, x) ∷ d) q j = ground (
  arith,
  find-clear p k d q j,
  eq_of_bytes_eq p r,
  eq_of_bytes_eq p q,
  eq_of_bytes_eq r q,
  eq_of_bytes_eq k l,
  eq_of_bytes_eq k j,
  eq_of_bytes_eq l j,
  bytes_eq_refl p,
  bytes_eq_refl k,
  bytes_eq_refl q,
  bytes_eq_refl j,
)

abbrev pub run_batch : List BatchItem → Memory → Memory
run_batch [] d = d
run_batch (BatchItem.insert p k x ∷ items) d = run_batch items ((p, k, x) ∷ d)
run_batch (BatchItem.remove p k ∷ items) d = run_batch items (clear p k d)

pub find-run_batch :
    (items : List BatchItem) (d : Memory) → find (run_batch items d) ≡ apply_batch items (find d)
unfolding apply_batch
find-run_batch [] d = refl
find-run_batch (BatchItem.insert p k x ∷ items) d = find-run_batch items ((p, k, x) ∷ d)
find-run_batch (BatchItem.remove p k ∷ items) d =
    rw (find-run_batch items (clear p k d), fun_ext (λ q. fun_ext (find-clear p k d q)))

-- In the place of BLAKE3: the length and the first byte.
abbrev pub digest : Bytes → Bytes
digest [] = 0 ∷ 0 ∷ []
digest (b ∷ bs) = (length (b ∷ bs) % 256) ∷ (b % 256) ∷ []

abbrev decoded : Option ObjectMetadata → Answer ObjectMetadata
decoded none = failed (lit "expected value")
decoded (some m) = done m

abbrev pub memory : Platform
memory = record {
  Db = Memory;
  open_partition = λ p d. (done tt, d);
  get = λ p k d. (done (find d p k), d);
  insert = λ p k x d. (done tt, (p, k, x) ∷ d);
  remove = λ p k d. (done tt, clear p k d);
  range_from = λ p k d. map done (range p k d);
  commit = λ items d. (done tt, run_batch items d);
  persist = λ d. (done tt, d);
  hash = digest;
  to_vec = λ m. done (metadata_out m);
  from_slice = λ b. decoded (metadata_in b);
}

digest_bytes : (bytes : Bytes) → IsBytes (digest bytes)
digest_bytes [] = omega arith
digest_bytes (b ∷ bs) = omega arith

digest_fits : (bytes : Bytes) → length (digest bytes) ≤ 32
digest_fits [] = omega arith
digest_fits (b ∷ bs) = omega arith

abbrev payload : {A : Type 0} → A → Answer A → A
payload other (done a) = a
payload other (failed e) = other

decoded-out :
    (m : ObjectMetadata) (json : Bytes)
    → done (metadata_out m) ≡ done json
    → decoded (metadata_in json) ≡ done m
decoded-out m json h =
    let e : metadata_out m ≡ json = ap (payload []) h in rw (← e) (rw (metadata_in-metadata_out m))

pub memory_laws : Laws memory
memory_laws = record {
  IsHealthy = λ d. Unit {0};
  view = find;
  open_partition_law = λ p d _ _. (refl, tt, λ q j. refl);
  get_law = λ p k d _. refl;
  insert_law = λ p k x d _ _. (refl, tt, λ q j. refl);
  remove_law = λ p k d _ _. (refl, tt, find-clear p k d);
  commit_law = λ items d _ _. (refl, tt, λ q j. ap (λ (v : View). v q j) (find-run_batch items d));
  range_law = λ p k d _. (range p k d, refl, range-IsRange p k d);
  persist_law = λ d _. (refl, tt, λ q j. refl);
  hash_bytes = digest_bytes;
  hash_fits = digest_fits;
  from_slice-to_vec = decoded-out;
}

pub At-memory : (d : Memory) → At memory memory_laws d (find d)
unfolding memory_laws
At-memory d = record { healthy = tt; reads = refl }
