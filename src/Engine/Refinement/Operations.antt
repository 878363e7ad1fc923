-- ===== src/Engine/Refinement/Operations.antt =====
-- What the operations of a batch do to the map, one after another.
use wfl_db.Engine.Limits.{ShortKey}
use wfl_db.Core.Types.{BatchOperation, BatchResult}
use wfl_db.Prelude.{◌+◌, length, suc, leb, if◌then◌else◌, ◌∷◌, lit, [], List, Bytes, ℕ, ◌≡◌}
use wfl_db.Engine.Platform.{Platform, Answer, done, failed}
use wfl_db.Engine.Bucket.{StorageEngine}
use wfl_db.Engine.Bucket.Store.{Refs, count}
use wfl_db.Engine.Objects.{hashes_of, Objects, lookup, without, assign}
use wfl_db.Engine.Refinement.{Stamp, object_of, inline_metadata}

abbrev pub answer_or_empty : Answer Bytes → Bytes
answer_or_empty (done json) = json
answer_or_empty (failed e) = []

-- The key of each operation is within the limits.
abbrev pub KeysShort : List BatchOperation → Type 0
KeysShort [] = Unit
KeysShort (BatchOperation.put key bytes ∷ ops) = ShortKey key × KeysShort ops
KeysShort (BatchOperation.delete key ∷ ops) = ShortKey key × KeysShort ops

-- The map, and what has leaked.
pub record Contents : Type 0 where
  pub objects : Objects
  pub leaked : Refs

abbrev pub too_large : BatchResult
too_large = BatchResult.error (lit "Large objects not supported in batch operations yet")

module _ (platform : Platform) (engine : StorageEngine) where
  -- One operation on the map. A large object is refused; the chunks of an object that is replaced or
  -- deleted are leaked.
  abbrev pub run_op : Stamp → BatchOperation → Contents → Contents
  run_op stamp (BatchOperation.put key bytes) s =
      if leb (length bytes) engine.value_threshold
      then record {
        objects =
            assign key
              (object_of (inline_metadata platform stamp bytes)
                (answer_or_empty (platform.to_vec (inline_metadata platform stamp bytes))) bytes)
              s.objects;
        leaked = λ g. s.leaked g + count g (hashes_of (lookup key s.objects));
      }
      else s
  run_op stamp (BatchOperation.delete key) s = record {
    objects = without key s.objects;
    leaked = λ g. s.leaked g + count g (hashes_of (lookup key s.objects));
  }

  abbrev pub result_of : BatchOperation → BatchResult
  result_of (BatchOperation.put key bytes) =
      if leb (length bytes) engine.value_threshold then BatchResult.success else too_large
  result_of (BatchOperation.delete key) = BatchResult.success

  abbrev pub run_ops : (ℕ → Stamp) → ℕ → List BatchOperation → Contents → Contents
  run_ops clock i [] s = s
  run_ops clock i (op ∷ ops) s = run_ops clock (suc i) ops (run_op (clock i) op s)

  -- The metadata of the operation can be serialised.
  abbrev pub Serialises : Stamp → BatchOperation → Type 0
  Serialises stamp (BatchOperation.put key bytes) =
      platform.to_vec (inline_metadata platform stamp bytes)
      ≡ done (answer_or_empty (platform.to_vec (inline_metadata platform stamp bytes)))
  Serialises stamp (BatchOperation.delete key) = Unit

  abbrev pub AllSerialise : (ℕ → Stamp) → ℕ → List BatchOperation → Type 0
  AllSerialise clock i [] = Unit
  AllSerialise clock i (op ∷ ops) = Serialises (clock i) op × AllSerialise clock (suc i) ops
