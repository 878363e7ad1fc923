-- ===== src/Engine/Interleaving/Spares.antt =====
-- Calls that do not write a key, and the object that they leave there.
use wfl_db.Engine.History.Step.{BucketId-ext}
use wfl_db.Engine.Refinement.Operations.{run_ops, Contents}
use wfl_db.Engine.Objects.{lookup-without, lookup-assign, lookup}
use wfl_db.Engine.Bucket.{StorageEngine}
use wfl_db.Engine.Platform.{Platform}
use wfl_db.Core.BucketId.{BucketId}
use wfl_db.Core.Key.{Key}
use wfl_db.Engine.History.{update, after, Command, Buckets}
use wfl_db.Core.Types.{Stamp, ContentHash, BatchOperation}
use wfl_db.Prelude.{
  ap, true, ◌∷◌, inr, inl, length, leb, Bool-cases, ◌∙◌, suc, refl, [], ℕ, ◌⊎◌, Bytes, false, ◌&&◌,
  ◌≡◌, bytes_eq, List,
}

-- The call does not write the key.
abbrev pub SparesOps : Key → List BatchOperation → Type 0
SparesOps key [] = Unit
SparesOps key (BatchOperation.put k bytes ∷ ops) =
    (bytes_eq k.as_str key.as_str ≡ false) × SparesOps key ops
SparesOps key (BatchOperation.delete k ∷ ops) =
    (bytes_eq k.as_str key.as_str ≡ false) × SparesOps key ops

module _ (id : BucketId) (key : Key) where
  abbrev pub Spares : Command → Type 0
  Spares (Command.put stamp j k bytes) =
      (bytes_eq j.as_str id.as_str && bytes_eq k.as_str key.as_str) ≡ false
  Spares (Command.delete j k) =
      (bytes_eq j.as_str id.as_str && bytes_eq k.as_str key.as_str) ≡ false
  Spares (Command.run_batch clock j ops) = (bytes_eq j.as_str id.as_str ≡ false) ⊎ SparesOps key ops
  Spares _ = Unit

module _ (platform : Platform) (engine : StorageEngine) (blob : ContentHash → Bytes) (id : BucketId)
    (key : Key) where
  lookup-run_ops :
      (clock : ℕ → Stamp) (i : ℕ) (ops : List BatchOperation) (c : Contents)
      → SparesOps key ops
      → lookup key (run_ops platform engine clock i ops c).objects ≡ lookup key c.objects
  lookup-run_ops clock i [] c h = refl
  lookup-run_ops clock i (BatchOperation.put k bytes ∷ ops) c h =
      lookup-run_ops clock (suc i) ops _ h.1
      ∙ elim (Bool-cases (leb (length bytes) engine.value_threshold)) [
        | inl small ↦ rw small (rw (lookup-assign, h.0) refl)
        | inr big ↦ rw big refl
      ]
  lookup-run_ops clock i (BatchOperation.delete k ∷ ops) c h =
      lookup-run_ops clock (suc i) ops _ h.1 ∙ rw (lookup-without, h.0)

  lookup-update :
      (j : BucketId) (c : Contents) (s : Buckets)
      → (bytes_eq j.as_str id.as_str ≡ true → lookup key c.objects ≡ lookup key (s j).objects)
      → lookup key (update j c s id).objects ≡ lookup key (s id).objects
  lookup-update j c s h = elim (Bool-cases (bytes_eq j.as_str id.as_str)) [
    | inl same ↦ rw same (h same ∙ ap (λ i. lookup key (s i).objects) (BucketId-ext j id same))
    | inr other ↦ rw other refl
  ]

  -- Such a call leaves the object of the key as it is.
  pub lookup-after :
      (c : Command) (s : Buckets)
      → Spares id key c
      → lookup key (after platform engine blob c s id).objects ≡ lookup key (s id).objects
  lookup-after (Command.put stamp j k bytes) s h =
      lookup-update j _ s (λ same. let other = rw same at h in rw (lookup-assign, other) refl)
  lookup-after (Command.delete j k) s h =
      lookup-update j _ s (λ same. let other = rw same at h in rw (lookup-without, other) refl)
  lookup-after (Command.run_batch clock j ops) s (inl other) = rw other refl
  lookup-after (Command.run_batch clock j ops) s (inr h) =
      lookup-update j _ s (λ same. lookup-run_ops clock 0 ops (s j) h)
  lookup-after (Command.get j k) s h = refl
  lookup-after (Command.describe j k) s h = refl
  lookup-after (Command.list j prefix limit) s h = refl
