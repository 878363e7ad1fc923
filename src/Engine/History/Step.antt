-- ===== src/Engine/History/Step.antt =====
-- A call does to the keyspace and returns what it is meant to.
use wfl_db.Engine.Storage.{
  batch, list_objects, delete_object, object_metadata, get_object, put_object,
}
use wfl_db.Engine.Refinement.Batch.{batch-Refines}
use wfl_db.Engine.Refinement.Listing.{list_objects-Ends}
use wfl_db.Engine.Refinement.Delete.{delete_object-Refines}
use wfl_db.Engine.Refinement.Metadata.{object_metadata-Ends}
use wfl_db.Engine.Refinement.Put.{put_object-Refines}
use wfl_db.Engine.Refinement.Isolation.{partition_name-ne, IsBucket-elsewhere}
use wfl_db.Engine.Refinement.{get_object-Ends, Refines}
use wfl_db.Engine.Invariant.{IsBucket}
use wfl_db.Engine.Effect.{Ends-pure, At, Ends}
use wfl_db.Engine.History.{
  after_all, after, replies, reply, update, run_all, Fits, reply_with, AllFit, run, HoldsAll,
  ValidPuts, Command, Reply, Buckets,
}
use wfl_db.Engine.Refinement.Operations.{run_op, run_ops, Contents}
use wfl_db.Core.Outcome.{Exec, ok, Outcome}
use wfl_db.Core.Types.{BatchOperation, Stamp, ContentHash}
use wfl_db.Engine.Bucket.{partition_name, StorageEngine}
use wfl_db.Engine.Bucket.Scan.Keys.{AllValid, IsValid}
use wfl_db.Engine.Objects.{
  Key-ext, lookup-without_cases, lookup-assign_cases, without, assign, Objects, Object,
}
use wfl_db.Engine.Platform.{View, Laws, Platform}
use wfl_db.Core.Key.{Key}
use wfl_db.Core.BucketId.{BucketId}
use mathlib.Core.Path.{subst}
use wfl_db.Engine.History.{Command, Reply}
use wfl_db.Prelude.{
  refl, [], inr, ◌∷◌, suc, false, length, Str, leb, Bool-cases, map, inl, List, eq_of_bytes_eq,
  Bytes, ap, true, ◌≡◌, bytes_eq, ℕ,
}

pub BucketId-ext : (i j : BucketId) → bytes_eq i.as_str j.as_str ≡ true → i ≡ j
BucketId-ext i j h =
    ap {B = BucketId} (λ s. record { as_str = s }) (eq_of_bytes_eq i.as_str j.as_str h)

AllValid-assign :
    (key : Key) (o : Object) (objs : Objects)
    → IsValid key
    → AllValid objs
    → AllValid (assign key o objs)
AllValid-assign key o objs h valid k x e = elim (lookup-assign_cases key k o x objs e) [
  | inl (same, _) ↦ subst IsValid (Key-ext key k same) h
  | inr (_, old) ↦ valid k x old
]

AllValid-without : (key : Key) (objs : Objects) → AllValid objs → AllValid (without key objs)
AllValid-without key objs valid k x e = valid k x (lookup-without_cases key k x objs e).1

module _ (platform : Platform) (laws : Laws platform) (engine : StorageEngine)
    (blob : ContentHash → Bytes) where
  open platform use {Db}

  abbrev ValidOp : BatchOperation → Type 0
  ValidOp (BatchOperation.put key bytes) = IsValid key
  ValidOp (BatchOperation.delete key) = Unit

  ValidPuts-first :
      (op : BatchOperation) (ops : List BatchOperation)
      → ValidPuts platform engine blob (op ∷ ops)
      → ValidOp op × ValidPuts platform engine blob ops
  ValidPuts-first (BatchOperation.put key bytes) ops h = h
  ValidPuts-first (BatchOperation.delete key) ops h = (tt, h)

  AllValid-run_op :
      (stamp : Stamp) (op : BatchOperation) (s : Contents)
      → ValidOp op
      → AllValid s.objects
      → AllValid (run_op platform engine stamp op s).objects
  AllValid-run_op stamp (BatchOperation.put key bytes) s h v =
      elim (Bool-cases (leb (length bytes) engine.value_threshold)) [
        | inl small ↦ rw small (AllValid-assign key _ s.objects h v)
        | inr big ↦ rw big v
      ]
  AllValid-run_op stamp (BatchOperation.delete key) s h v = AllValid-without key s.objects v

  AllValid-run_ops :
      (clock : ℕ → Stamp) (i : ℕ) (ops : List BatchOperation) (s : Contents)
      → ValidPuts platform engine blob ops
      → AllValid s.objects
      → AllValid (run_ops platform engine clock i ops s).objects
  AllValid-run_ops clock i [] s h v = v
  AllValid-run_ops clock i (op ∷ ops) s h v =
      let (first, rest) = ValidPuts-first op ops h in
      AllValid-run_ops clock (suc i) ops _ rest (AllValid-run_op (clock i) op s first v)

  -- What a call on one bucket leaves.
  pub record Leaves (r : Outcome Reply × Db) (out : Reply) (s : Buckets) : Type 0 where
    pub view : View
    pub ends : Ends platform laws r (ok out) view
    pub holds : HoldsAll platform engine blob s view

  HoldsAll-update :
      (id : BucketId) (c : Contents) (s : Buckets) {v w : View}
      → HoldsAll platform engine blob s v
      → IsBucket platform (partition_name id) blob c.objects c.leaked w
      → ((q : Str) (j : Bytes) → bytes_eq (partition_name id) q ≡ false → w q j ≡ v q j)
      → AllValid c.objects
      → HoldsAll platform engine blob (update id c s) w
  HoldsAll-update id c s {v} {w} h b elsewhere valid = record {
    buckets = λ j short. elim (Bool-cases (bytes_eq id.as_str j.as_str)) [
      | inl same ↦ rw same (
          subst (λ i. IsBucket platform (partition_name i) blob c.objects c.leaked w)
            (BucketId-ext id j same) b)
      | inr other ↦ rw other (
          IsBucket-elsewhere platform (partition_name j) blob
            (λ k. elsewhere (partition_name j) k (partition_name-ne id j other))
            (h.buckets j short))
    ];
    valid = λ j. elim (Bool-cases (bytes_eq id.as_str j.as_str)) [
      | inl same ↦ rw same valid
      | inr other ↦ rw other (h.valid j)
    ];
  }

  module _ {s : Buckets} {v : View} (d : Db) (a : At platform laws d v)
      (h : HoldsAll platform engine blob s v) where
    -- A call that changes the contents of one bucket.
    Leaves-Refines :
        {A : Type 0} (id : BucketId) (c : Contents) (m : Exec Db A) (f : A → Reply) (x : A)
        → Refines platform laws engine id blob (m d) (ok x) c.objects c.leaked v
        → AllValid c.objects
        → Leaves (reply_with f m d) (f x) (update id c s)
    Leaves-Refines id c m f x r valid = record {
      view = r.after;
      ends = rw r.ends.outcome (Ends-pure platform laws _ _ r.ends.state);
      holds = HoldsAll-update id c s h r.holds r.elsewhere valid;
    }

    -- A call that changes nothing.
    Leaves-Ends :
        {A : Type 0} (m : Exec Db A) (f : A → Reply) (x : A)
        → Ends platform laws (m d) (ok x) v
        → Leaves (reply_with f m d) (f x) s
    Leaves-Ends m f x r = record {
      view = v;
      ends = rw r.outcome (Ends-pure platform laws _ _ r.state);
      holds = h;
    }

    pub step :
        (c : Command)
        → Fits platform engine blob c s
        → Leaves
            (run platform engine c d)
            (reply platform engine blob c s)
            (after platform engine blob c s)
    unfolding run
    step (Command.put stamp id key bytes) fits =
        Leaves-Refines id _ (put_object platform stamp engine id key bytes) Reply.stored _
          (put_object-Refines platform laws engine id blob d a (h.buckets id fits.0.0) stamp key
            bytes _ fits.0.1 fits.1.1)
          (AllValid-assign key _ _ fits.1.0 (h.valid id))
    step (Command.get id key) fits =
        Leaves-Ends (get_object platform engine id key) Reply.found _
          (get_object-Ends platform laws engine id blob d a (h.buckets id fits.0) key)
    step (Command.describe id key) fits =
        Leaves-Ends (object_metadata platform engine id key) Reply.described _
          (object_metadata-Ends platform laws engine id blob d a (h.buckets id fits.0) key)
    step (Command.delete id key) fits =
        Leaves-Refines id _ (delete_object platform engine id key) (λ _. Reply.deleted) tt
          (delete_object-Refines platform laws engine id blob (h.buckets id fits.0.0) fits.1 key
            fits.0.1 d a)
          (AllValid-without key _ (h.valid id))
    step (Command.list id prefix limit) fits =
        Leaves-Ends (list_objects platform engine id prefix limit) Reply.listed _ (
          list_objects-Ends platform laws engine id blob d a (h.buckets id fits.0) (h.valid id)
            prefix limit)
    step (Command.run_batch clock id ops) fits =
        Leaves-Refines id _ (batch platform clock engine id ops) Reply.ran _
          (batch-Refines platform laws engine id blob d a (h.buckets id fits.0.0) clock ops fits.0.1
            fits.1.1)
          (AllValid-run_ops clock 0 ops (s id) fits.1.0 (h.valid id))

  -- What a history leaves: every call succeeds with the reply that the map gives.
  pub record Follows (r : List (Outcome Reply) × Db) (rs : List Reply) (s : Buckets) : Type 0 where
    pub outcomes : r.0 ≡ map ok rs
    pub view : View
    pub state : At platform laws r.1 view
    pub holds : HoldsAll platform engine blob s view

  -- On a healthy keyspace that holds a map of objects in every bucket with a name of at most 250
  -- bytes, any sequence of calls of `Storage` on any buckets whose preconditions, names and keys
  -- within the limits among them, hold one after another returns what the maps give, and the
  -- keyspace then holds the maps that the calls make one after another.
  pub run_all-Follows :
      (cs : List Command) {s : Buckets} {v : View} (d : Db)
      → At platform laws d v
      → HoldsAll platform engine blob s v
      → AllFit platform engine blob cs s
      → Follows
          (run_all platform engine cs d)
          (replies platform engine blob cs s)
          (after_all platform engine blob cs s)
  run_all-Follows [] {s} {v} d a h fits = record { outcomes = refl; view = v; state = a; holds = h }
  run_all-Follows (c ∷ cs) d a h fits =
      let l = step d a h c fits.0 in
      let r = run_all-Follows cs _ l.ends.state l.holds fits.1 in
      record {
        outcomes = rw (l.ends.outcome, r.outcomes);
        view = r.view;
        state = r.state;
        holds = r.holds;
      }
