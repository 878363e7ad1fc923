-- ===== src/Engine/Refinement/Planned.antt =====
-- The entries that a batch is planned as do to the map what its operations do.
use wfl_db.Engine.Limits.{data_key-KeyFits, metadata_key-KeyFits}
use wfl_db.Core.Outcome.{done}
use wfl_db.Engine.Refinement.Operations.{
  KeysShort, run_op, answer_or_empty, result_of, Serialises, run_ops, Contents, AllSerialise,
}
use wfl_db.Core.Types.{ObjectMetadata, new_inline, ContentHash, BatchOperation, BatchResult}
use native.Mathlib.Decide.{dec_le}
use wfl_db.Prelude.{
  ◌∙◌, append_assoc, append-nil, map, arith, false, lt→leb, bytes_eq, refl, le→leb, Str, ◌+◌, none,
  length, some, suc, ◌∷◌, ◌++◌, [], List, Bytes, ℕ, ◌≡◌,
}
use wfl_db.Engine.Platform.{ItemsFit, Platform, View, write, apply_batch, BatchItem}
use wfl_db.Engine.Bucket.{Bucket, StorageEngine, partition_name, metadata_key, data_key}
use wfl_db.Engine.Bucket.Cells.{cell_laws}
use wfl_db.Engine.Bucket.Store.{count, IsStore-congr, IsStore-write-meta, IsStore-write-data}
use wfl_db.Engine.Objects.{refs_of, hashes_of, lookup, assign}
use wfl_db.Engine.Invariant.{IsBucket, IsBucket-replace, IsBucket-forget}
use wfl_db.Engine.Refinement.{
  Key, ok, Outcome, BucketId, Stamp, bucket_of, object_of, inline_metadata,
}
use wfl_db.Engine.Storage.{plan, plan_all}

apply_batch-append :
    (a b : List BatchItem) (v : View) → apply_batch (a ++ b) v ≡ apply_batch b (apply_batch a v)
unfolding apply_batch
apply_batch-append [] b v = refl
apply_batch-append (BatchItem.insert p k x ∷ a) b v = apply_batch-append a b (write p k (some x) v)
apply_batch-append (BatchItem.remove p k ∷ a) b v = apply_batch-append a b (write p k none v)

ItemsFit-append : (a b : List BatchItem) → ItemsFit a → ItemsFit b → ItemsFit (a ++ b)
ItemsFit-append [] b h k = k
ItemsFit-append (BatchItem.insert p k x ∷ a) b h rest = (h.0, ItemsFit-append a b h.1 rest)
ItemsFit-append (BatchItem.remove p k ∷ a) b h rest = (h.0, ItemsFit-append a b h.1 rest)

KeysShort-first :
    (op : BatchOperation) (ops : List BatchOperation)
    → KeysShort (op ∷ ops)
    → KeysShort (op ∷ []) × KeysShort ops
KeysShort-first (BatchOperation.put key bytes) ops h = ((h.0, tt), h.1)
KeysShort-first (BatchOperation.delete key) ops h = ((h.0, tt), h.1)

module _ (platform : Platform) (engine : StorageEngine) (id : BucketId) (blob : ContentHash → Bytes)
    (decodes : (m : ObjectMetadata) (json : Bytes)
      → platform.to_vec m ≡ done json
      → platform.from_slice json ≡ done m) where
  abbrev pub Holds : Contents → View → Type 0
  Holds s v = IsBucket platform (partition_name id) blob s.objects s.leaked v

  -- What a list of operations adds to the batch, and what it then does.
  pub record Planned (ops : List BatchOperation) (r : Outcome (List BatchItem × List BatchResult))
      (items : List BatchItem) (results : List BatchResult) (after : Contents) (v : View)
      : Type 0 where
    pub added : List BatchItem
    pub planned : r ≡ ok (items ++ added, results)
    pub fit : KeysShort ops → ItemsFit added
    pub holds : Holds after (apply_batch added v)
    pub elsewhere :
        (q : Str) (j : Bytes)
        → bytes_eq (partition_name id) q ≡ false
        → apply_batch added v q j ≡ v q j

  record PlannedOp (op : BatchOperation) (r : Outcome (List BatchItem × BatchResult))
      (result : BatchResult) (after : Contents) (v : View) : Type 0 where
    added : List BatchItem
    planned : r ≡ ok (added, result)
    fit : KeysShort (op ∷ []) → ItemsFit added
    holds : Holds after (apply_batch added v)
    elsewhere :
        (q : Str) (j : Bytes)
        → bytes_eq (partition_name id) q ≡ false
        → apply_batch added v q j ≡ v q j

  -- The two cells that a small object gets.
  put-Holds :
      (stamp : Stamp) (key : Key) (bytes : Bytes) (s : Contents) (v : View)
      → Holds s v
      → Serialises platform engine stamp (BatchOperation.put key bytes)
      → IsBucket platform
          (partition_name id)
          blob
          (assign key
            (object_of
              (inline_metadata platform stamp bytes)
              (answer_or_empty (platform.to_vec (inline_metadata platform stamp bytes)))
              bytes)
            s.objects)
          (λ g. s.leaked g + count g (hashes_of (lookup key s.objects)))
          (write (partition_name id) (data_key key) (some bytes) (
            write
              (partition_name id)
              (metadata_key key)
              (some (answer_or_empty (platform.to_vec (inline_metadata platform stamp bytes))))
              v))
  unfolding new_inline
  put-Holds stamp key bytes s v b h =
      let json = answer_or_empty (platform.to_vec (inline_metadata platform stamp bytes)) in
      let same_refs : (g : ContentHash)
          → refs_of s.objects g + s.leaked g ≡ refs_of s.objects g + s.leaked g + 0 =
        λ g. omega arith in
      IsBucket-replace platform (partition_name id) blob key
        (object_of (inline_metadata platform stamp bytes) json bytes) b
        (record { decodes = decodes _ json h; proper = tt; sized = tt }) (λ k. simp cell_laws)
        (λ k other. simp (cell_laws, other)) (λ _. simp cell_laws)
        (IsStore-congr same_refs
          (IsStore-write-data (IsStore-write-meta b.store key (some json)) key (some bytes)))

  plan_op :
      (stamp : Stamp) (op : BatchOperation) (s : Contents) (v : View)
      → Holds s v
      → Serialises platform engine stamp op
      → PlannedOp op
          (plan platform stamp engine (bucket_of engine id) op)
          (result_of platform engine op)
          (run_op platform engine stamp op s)
          v
  unfolding plan apply_batch new_inline
  plan_op stamp (BatchOperation.delete key) s v b h = record {
    added =
        BatchItem.remove (partition_name id) (metadata_key key)
        ∷ BatchItem.remove (partition_name id) (data_key key)
        ∷ [];
    planned = refl;
    fit = λ short. (metadata_key-KeyFits key short.0, (data_key-KeyFits key short.0, tt));
    holds =
        IsBucket-forget platform (partition_name id) blob key b (λ k. simp cell_laws)
          (λ k other. simp (cell_laws, other))
          (IsStore-write-data (IsStore-write-meta b.store key none) key none);
    elsewhere = λ q j other. rw other;
  }
  plan_op stamp (BatchOperation.put key bytes) s v b h =
      elim (dec_le (length bytes) engine.value_threshold) [
        | yes small ↦
            rw (le→leb (length bytes) engine.value_threshold small, h)
              (record {
                added =
                    BatchItem.insert (partition_name id) (metadata_key key)
                      (answer_or_empty (platform.to_vec (inline_metadata platform stamp bytes)))
                    ∷ BatchItem.insert (partition_name id) (data_key key) bytes
                    ∷ [];
                planned = refl;
                fit =
                    λ short. (metadata_key-KeyFits key short.0, (data_key-KeyFits key short.0, tt));
                holds = put-Holds stamp key bytes s v b h;
                elsewhere = λ q j other. rw other;
              })
        | no big ↦ rw (lt→leb (length bytes) engine.value_threshold (omega arith)) (record {
          added = [];
          planned = refl;
          fit = λ short. tt;
          holds = b;
          elsewhere = λ q j other. refl;
        })
      ]

  plan_all_cons :
      (clock : ℕ → Stamp) (i : ℕ) (bucket : Bucket) (op : BatchOperation)
      (ops : List BatchOperation) (items more : List BatchItem) (results : List BatchResult)
      (result : BatchResult)
      → plan platform (clock i) engine bucket op ≡ ok (more, result)
      → plan_all platform clock i engine bucket (op ∷ ops) items results
        ≡ plan_all platform clock (suc i) engine bucket ops (items ++ more) (results ++ result ∷ [])
  unfolding plan_all
  plan_all_cons clock i bucket op ops items more results result h = rw (plan_all, h)

  pub plan_all-Planned :
      (clock : ℕ → Stamp) (i : ℕ) (ops : List BatchOperation) (items : List BatchItem)
      (results : List BatchResult) (s : Contents) (v : View)
      → Holds s v
      → AllSerialise platform engine clock i ops
      → Planned ops
          (plan_all platform clock i engine (bucket_of engine id) ops items results)
          items
          (results ++ map (result_of platform engine) ops)
          (run_ops platform engine clock i ops s)
          v
  unfolding plan_all apply_batch
  plan_all-Planned clock i [] items results s v b h = record {
    added = [];
    planned = rw (append-nil items, append-nil results);
    fit = λ short. tt;
    holds = b;
    elsewhere = λ q j other. refl;
  }
  plan_all-Planned clock i (op ∷ ops) items results s v b h =
      let p = plan_op (clock i) op s v b h.0 in
      let r =
        plan_all-Planned clock (suc i) ops (items ++ p.added)
          (results ++ result_of platform engine op ∷ []) (run_op platform engine (clock i) op s)
          (apply_batch p.added v) p.holds h.1 in
      record {
        added = p.added ++ r.added;
        planned =
            plan_all_cons clock i (bucket_of engine id) op ops items p.added results _ p.planned
            ∙ r.planned
            ∙ rw (
              append_assoc items p.added r.added,
              append_assoc results (result_of platform engine op ∷ [])
                  (map (result_of platform engine) ops),
            );
        fit = λ short.
            let (first, rest) = KeysShort-first op ops short in
            ItemsFit-append p.added r.added (p.fit first) (r.fit rest);
        holds = rw (apply_batch-append p.added r.added v) r.holds;
        elsewhere = λ q j other.
            rw (apply_batch-append p.added r.added v)
              (r.elsewhere q j other ∙ p.elsewhere q j other);
      }
