-- ===== src/Engine/Interleaving/Snapshot.antt =====
-- `get_object` of a large object, among calls that may overwrite its key.
use wfl_db.Engine.Limits.{ShortName-NameFits, ShortName}
use wfl_db.Engine.Faults.Readable.{IsBucket-Stored}
use wfl_db.Core.Outcome.{ok}
use wfl_db.Engine.Interleaving.{shared}
use wfl_db.Engine.History.Step.{run_all-Follows, BucketId-ext}
use wfl_db.Engine.Effect.{get_At, open_partition-Ends, At}
use wfl_db.Engine.Interleaving.Meanwhile.{collect_chunks-Returns, There, turns, Allowed, Rely}
use wfl_db.Engine.Bucket.Store.{count}
use wfl_db.Core.Types.{is_chunked, BatchOperation, ChunkManifest, Stamp, ContentHash}
use wfl_db.Engine.Bucket.{metadata_key, get_metadata, partition_name, StorageEngine}
use wfl_db.Engine.Refinement.Operations.{run_ops, Contents}
use wfl_db.Prelude.{
  IsBytes, All, ap, refl, ◌∷◌, [], ◌∙◌, length, leb, inr, suc, Bool-cases, arith, inl, true, ◌≤◌,
  Str, List, ◌+◌, ◌⊎◌, Bytes, some, false, ℕ, ◌≡◌, ◌&&◌, bytes_eq,
}
use wfl_db.Engine.Objects.{
  json_of, assign, content, Key-ext, lookup-without, count-le-refs_of, without, lookup-assign,
  refs_of, hashes_of, hashes, Unique, lookup, Objects, Object,
}
use wfl_db.Engine.History.{after_all, AllFit, HoldsAll, update, after, Buckets, Command}
use wfl_db.Engine.Platform.{View, Laws, Platform}
use wfl_db.Core.Key.{Key}
use wfl_db.Core.BucketId.{BucketId}
use wfl_db.Engine.Storage.{get_large_object, read_object, get_object}
use wfl_db.Engine.Bucket

module _ (id : BucketId) (key : Key) where
  -- The call is not a `delete_object` of the key.
  abbrev pub Keeps : Command → Type 0
  Keeps (Command.delete j k) = (bytes_eq j.as_str id.as_str && bytes_eq k.as_str key.as_str) ≡ false
  Keeps _ = Unit

module _ (key : Key) (o : Object) where
  -- The object is there, or its references were leaked.
  abbrev Kept : Contents → Type 0
  Kept c = (lookup key c.objects ≡ some o) ⊎ ((g : ContentHash) → count g (hashes o) ≤ c.leaked g)

  Kept-count :
      (c : Contents)
      → Unique c.objects
      → Kept c
      → (g : ContentHash) → count g (hashes o) ≤ refs_of c.objects g + c.leaked g
  Kept-count c u (inl e) g = omega (arith, rw e at (count-le-refs_of key c.objects g u))
  Kept-count c u (inr f) g = omega (arith, f g)

  -- A change to one key, with the references of what it held leaked.
  Kept-leak :
      (k : Key) (objs : Objects) (c : Contents)
      → (bytes_eq k.as_str key.as_str ≡ false → lookup key objs ≡ lookup key c.objects)
      → Kept c
      → Kept (record {
        objects = objs;
        leaked = λ g. c.leaked g + count g (hashes_of (lookup k c.objects));
      })
  Kept-leak k objs c same (inl e) = elim (Bool-cases (bytes_eq k.as_str key.as_str)) [
    | inl here ↦ inr (λ g. rw (Key-ext k key here, e) (omega arith))
    | inr other ↦ inl (same other ∙ e)
  ]
  Kept-leak k objs c same (inr f) = inr (λ g. omega (arith, f g))

  Kept-assign :
      (k : Key) (x : Object) (c : Contents)
      → Kept c
      → Kept (record {
        objects = assign k x c.objects;
        leaked = λ g. c.leaked g + count g (hashes_of (lookup k c.objects));
      })
  Kept-assign k x c = Kept-leak k (assign k x c.objects) c (λ other. rw (lookup-assign, other) refl)

  Kept-without :
      (k : Key) (c : Contents)
      → Kept c
      → Kept (record {
        objects = without k c.objects;
        leaked = λ g. c.leaked g + count g (hashes_of (lookup k c.objects));
      })
  Kept-without k c = Kept-leak k (without k c.objects) c (λ other. rw (lookup-without, other) refl)

  module _ (platform : Platform) (engine : StorageEngine) where
    Kept-run_ops :
        (clock : ℕ → Stamp) (i : ℕ) (ops : List BatchOperation) (c : Contents)
        → Kept c
        → Kept (run_ops platform engine clock i ops c)
    Kept-run_ops clock i [] c h = h
    Kept-run_ops clock i (BatchOperation.put k bytes ∷ ops) c h =
        Kept-run_ops clock (suc i) ops _
          (elim (Bool-cases (leb (length bytes) engine.value_threshold)) [
            | inl small ↦ rw small (Kept-assign k _ c h)
            | inr big ↦ rw big h
          ])
    Kept-run_ops clock i (BatchOperation.delete k ∷ ops) c h =
        Kept-run_ops clock (suc i) ops _ (Kept-without k c h)

    module _ (blob : ContentHash → Bytes) (id : BucketId) where
      Kept-update :
          (j : BucketId) (c : Contents) (s : Buckets)
          → (bytes_eq j.as_str id.as_str ≡ true → Kept (s j) → Kept c)
          → Kept (s id)
          → Kept (update j c s id)
      Kept-update j c s h k = elim (Bool-cases (bytes_eq j.as_str id.as_str)) [
        | inl same ↦ rw same (h same (rw (BucketId-ext j id same) k))
        | inr other ↦ rw other k
      ]

      Kept-after :
          (c : Command) (s : Buckets)
          → Keeps id key c
          → Kept (s id)
          → Kept (after platform engine blob c s id)
      Kept-after (Command.put stamp j k bytes) s h kept =
          Kept-update j _ s (λ _. Kept-assign k _ (s j)) kept
      Kept-after (Command.delete j k) s h kept = Kept-update j _ s (with_other h) kept
        where
          with_other :
              (bytes_eq j.as_str id.as_str && bytes_eq k.as_str key.as_str) ≡ false
              → bytes_eq j.as_str id.as_str ≡ true
              → Kept (s j)
              → Kept (record { objects = without k (s j).objects; leaked = (s j).leaked })
          with_other h same (inl e) = let other = rw same at h in inl (rw (lookup-without, other) e)
          with_other h same (inr f) = inr f
      Kept-after (Command.run_batch clock j ops) s h kept =
          Kept-update j _ s (λ _. Kept-run_ops clock 0 ops (s j)) kept
      Kept-after (Command.get j k) s h kept = kept
      Kept-after (Command.describe j k) s h kept = kept
      Kept-after (Command.list j prefix limit) s h kept = kept

module _ (platform : Platform) (laws : Laws platform) (engine : StorageEngine)
    (blob : ContentHash → Bytes) (id : BucketId) (key : Key) where
  open platform use {Db}

  abbrev p : Str
  p = partition_name id

  abbrev keeping : Object → Rely platform engine blob
  keeping o = record {
    Fine = Keeps id key;
    Good = λ s. Kept key o (s id);
    keep = λ c s. Kept-after key o platform engine blob id c s;
  }

  -- On a healthy keyspace that holds a map of objects in every bucket with a name of at most 250
  -- bytes, for a bucket whose name is within the limits, while other calls run between any two of
  -- its accesses, whole calls that have their preconditions one after another: if the key has a
  -- large object when `get_object` reads the metadata, and no `delete_object` of the key runs after
  -- that, `get_object` returns the bytes of this object, even if it is overwritten meanwhile.
  pub get_object-snapshot :
      (o : Object) (n : ChunkManifest) (opening reading : List Command) (css : List (List Command))
      {s : Buckets} {v : View} (d : Db)
      → ShortName id
      → At platform laws d v
      → HoldsAll platform engine blob s v
      → AllFit platform engine blob opening s
      → AllFit platform engine blob reading (after_all platform engine blob opening s)
      → Allowed platform engine blob
          (Keeps id key)
          css
          (after_all platform engine blob reading (after_all platform engine blob opening s))
      → lookup key
          (after_all platform engine blob reading
            (after_all platform engine blob opening s)
            id).objects
        ≡ some o
      → o.metadata.chunk_manifest ≡ some n
      → (get_object
          (shared platform)
          engine
          id
          key
          (d, turns platform engine (opening ∷ reading ∷ css))).0
        ≡ ok (some (content blob o))
  unfolding get_object Bucket.new get_metadata read_object get_large_object is_chunked
  get_object-snapshot o n opening reading css d named a h fits0 fits1 allowed here chunked =
      let r0 = run_all-Follows platform laws engine blob opening d a h fits0 in
      let s0 = open_partition-Ends platform laws p _ (ShortName-NameFits id named) r0.state in
      let r1 = run_all-Follows platform laws engine blob reading _ s0.state r0.holds fits1 in
      let bucket = r1.holds.buckets id named in
      let e = get_At platform laws p (metadata_key key) _ r1.state in
      let there = bucket.metas key ∙ ap json_of here in
      let sound = bucket.sound key o here in
      let proper : All IsBytes n.chunks = rw (chunked, hashes) at sound.proper in
      let chunks : There platform laws engine blob id named (keeping o) n.chunks = λ s v kept b.
        IsBucket-Stored platform p blob n.chunks b proper
          (rw (chunked, hashes) at (Kept-count key o (s id) b.unique kept)) in
      let r =
        collect_chunks-Returns platform laws engine blob id named (keeping o) n.chunks [] _
          (record {
            contents_now = _;
            view = r1.view;
            css = css;
            state = r1.state;
            holds = r1.holds;
            others = refl;
            allowed = allowed;
            good = inl here;
          })
          chunks in
      rw (s0.outcome, e, there, sound.decodes, chunked, r.outcome) refl
