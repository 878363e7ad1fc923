-- ===== src/Tests/Flaky.antt =====
-- Keyspaces in memory on which calls fail.
use wfl_db.Tests.Ordered.{range, find}
use wfl_db.Core.Outcome.{failed, Answer, done}
use wfl_db.Engine.Faults.{Faults}
use wfl_db.Engine.Platform.{apply_batch, BatchItem, write, Platform}
use wfl_db.Tests.Memory.{find-run_batch, memory_laws, find-clear, digest, run_batch, clear, memory}
use mathlib.Core.Path.{fun_ext}
use wfl_db.Prelude.{
  refl, none, inl, zero, inr, suc, ◌⊎◌, some, map, lit, ◌≡◌, ◌∷◌, Bytes, Str, List, ℕ,
}

abbrev pub Budget : Type 0
Budget = ℕ × List (Str × Bytes × Bytes)

-- A write costs one unit.
abbrev pub spend :
    (List (Str × Bytes × Bytes) → List (Str × Bytes × Bytes)) → Budget → Answer (Unit {0}) × Budget
spend f (zero, d) = (failed (lit "no space left on device"), (0, d))
spend f (suc n, d) = (done tt, (n, f d))

abbrev pub flaky : Platform
flaky = record {
  Db = Budget;
  open_partition = λ p d. (done tt, d);
  get = λ p k d. (done (find d.1 p k), d);
  insert = λ p k x. spend (λ d. (p, k, x) ∷ d);
  remove = λ p k. spend (clear p k);
  range_from = λ p k d. map done (range p k d.1);
  commit = λ items. spend (run_batch items);
  persist = λ d. (done tt, d);
  hash = digest;
  to_vec = memory.to_vec;
  from_slice = memory.from_slice;
}

unfoldable pub flaky_faults : Faults flaky
flaky_faults = record {
  view = λ d. find d.1;
  open_partition_law = λ p d. refl;
  get_law = λ p k d. inl refl;
  insert_law = insert_law;
  remove_law = remove_law;
  commit_law = commit_law;
  persist_law = λ d. refl;
  hash_bytes = memory_laws.hash_bytes;
  from_slice-to_vec = memory_laws.from_slice-to_vec;
}
  where
    insert_law :
        (p : Str) (k x : Bytes) (d : Budget)
        → (((flaky.insert p k x d).0 ≡ done tt)
            × (find (flaky.insert p k x d).1.1 ≡ write p k (some x) (find d.1)))
          ⊎ ((e : Str) × ((flaky.insert p k x d).0 ≡ failed e)
              × (find (flaky.insert p k x d).1.1 ≡ find d.1))
    insert_law p k x (zero, d) = inr (_, refl, refl)
    insert_law p k x (suc n, d) = inl (refl, refl)

    commit_law :
        (items : List BatchItem) (d : Budget)
        → (((flaky.commit items d).0 ≡ done tt)
            × (find (flaky.commit items d).1.1 ≡ apply_batch items (find d.1)))
          ⊎ ((e : Str) × ((flaky.commit items d).0 ≡ failed e)
              × (find (flaky.commit items d).1.1 ≡ find d.1))
    commit_law items (zero, d) = inr (_, refl, refl)
    commit_law items (suc n, d) = inl (refl, find-run_batch items d)

    remove_law :
        (p : Str) (k : Bytes) (d : Budget)
        → (find (flaky.remove p k d).1.1 ≡ write p k none (find d.1))
          ⊎ ((e : Str) × ((flaky.remove p k d).0 ≡ failed e)
              × (find (flaky.remove p k d).1.1 ≡ find d.1))
    remove_law p k (zero, d) = inr (_, refl, refl)
    remove_law p k (suc n, d) = inl (fun_ext (λ q. fun_ext (find-clear p k d q)))

-- A keyspace in memory on which every removal fails.
abbrev pub kept : Platform
kept = record {
  Db = List (Str × Bytes × Bytes);
  open_partition = memory.open_partition;
  get = memory.get;
  insert = memory.insert;
  remove = λ p k d. (failed (lit "read-only file system"), d);
  range_from = memory.range_from;
  commit = memory.commit;
  persist = memory.persist;
  hash = memory.hash;
  to_vec = memory.to_vec;
  from_slice = memory.from_slice;
}

unfoldable pub kept_faults : Faults kept
kept_faults = record {
  view = find;
  open_partition_law = λ p d. refl;
  get_law = λ p k d. inl refl;
  insert_law = λ p k x d. inl (refl, refl);
  remove_law = λ p k d. inr (_, refl, refl);
  commit_law = λ items d. inl (refl, find-run_batch items d);
  persist_law = λ d. refl;
  hash_bytes = memory_laws.hash_bytes;
  from_slice-to_vec = memory_laws.from_slice-to_vec;
}
