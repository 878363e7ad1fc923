-- ===== src/Engine/Invariant.antt =====
-- How the cells of a partition represent the objects of a bucket.
use mathlib.Core.Path.{subst}
use wfl_db.Prelude.{
  length, ◌≤◌, inr, inl, ◌∙◌, arith, bytes_eq_refl, ◌-◌, ◌+◌, false, none, some, bytes_eq, IsBytes,
  if◌then◌else◌, All, Bytes, Str, ◌≡◌,
}
use wfl_db.Core.Key.{Key}
use wfl_db.Core.Types.{ContentHash}
use wfl_db.Engine.Platform.{Platform, View, done, NameFits}
use wfl_db.Engine.Bucket.{metadata_key, data_key}
use wfl_db.Engine.Bucket.Store.{Refs, count, IsStore, IsStore-congr}
use wfl_db.Engine.Objects.{
  assign, Key-ext, lookup-assign_cases, lookup-assign, lookup-without_cases, json_of,
  refs_of-without, Unique-without, Object, Objects, lookup, without, Unique, hashes, hashes_of,
  refs_of, lookup-without,
}

module _ (platform : Platform) (p : Str) (blob : ContentHash → Bytes) where
  open platform use {from_slice}

  pub record IsSound (o : Object) : Type 0 where
    pub decodes : from_slice o.json ≡ done o.metadata
    pub proper : All IsBytes (hashes o)
    pub sized : All (λ h. length h ≤ 32) (hashes o)

  -- The partition `p` of `v` holds `objs`. A chunk is counted once for each time that an object
  -- names it, and `leaked` times more, for objects that were overwritten or deleted in a batch.
  pub record IsBucket (objs : Objects) (leaked : Refs) (v : View) : Type 0 where
    pub named : NameFits p
    pub unique : Unique objs
    pub metas : (key : Key) → v p (metadata_key key) ≡ json_of (lookup key objs)
    pub sound : (key : Key) (o : Object) → lookup key objs ≡ some o → IsSound o
    pub bodies :
        (key : Key) (o : Object)
        → lookup key objs ≡ some o
        → o.metadata.chunk_manifest ≡ none
        → v p (data_key key) ≡ some o.inline
    pub store : IsStore p blob (λ g. refs_of objs g + leaked g) v

  -- Writing an object over what its key held: what becomes unreachable is leaked.
  pub IsBucket-replace :
      (key : Key) (o : Object) {objs : Objects} {leaked : Refs} {v w : View}
      → IsBucket objs leaked v
      → IsSound o
      → ((k : Key)
          → w p (metadata_key k)
            ≡ (if bytes_eq key.as_str k.as_str then some o.json else v p (metadata_key k)))
      → ((k : Key) → bytes_eq key.as_str k.as_str ≡ false → w p (data_key k) ≡ v p (data_key k))
      → (o.metadata.chunk_manifest ≡ none → w p (data_key key) ≡ some o.inline)
      → IsStore p blob (λ g. refs_of objs g + leaked g + count g (hashes o)) w
      → IsBucket (assign key o objs) (λ g. leaked g + count g (hashes_of (lookup key objs))) w
  IsBucket-replace key o {objs} {leaked} {v} {w} b sound metas datas own store = record {
    named = b.named;
    unique = (rw (lookup-without, bytes_eq_refl), Unique-without key objs b.unique);
    metas = λ k. ground (arith, metas k, b.metas k, lookup-assign key k o objs);
    sound = λ k x e. elim (lookup-assign_cases key k o x objs e) [
      | inl (same, now) ↦ subst IsSound now sound
      | inr (other, old) ↦ b.sound k x old
    ];
    bodies = λ k x e n. elim (lookup-assign_cases key k o x objs e) [
      | inl (same, now) ↦ ground (arith, Key-ext key k same, own)
      | inr (other, old) ↦ datas k other ∙ b.bodies k x old n
    ];
    store = IsStore-congr (λ g. omega (arith, refs_of-without key objs g b.unique)) store;
  }

  -- Taking an object away, with its references.
  pub IsBucket-remove :
      (key : Key) {objs : Objects} {leaked : Refs} {v w : View}
      → IsBucket objs leaked v
      → ((k : Key)
          → w p (metadata_key k)
            ≡ (if bytes_eq key.as_str k.as_str then none else v p (metadata_key k)))
      → ((k : Key) → bytes_eq key.as_str k.as_str ≡ false → w p (data_key k) ≡ v p (data_key k))
      → IsStore p blob (λ g. refs_of objs g + leaked g - count g (hashes_of (lookup key objs))) w
      → IsBucket (without key objs) leaked w
  IsBucket-remove key {objs} {leaked} {v} {w} b metas datas store = record {
    named = b.named;
    unique = Unique-without key objs b.unique;
    metas = λ k. ground (arith, metas k, b.metas k, lookup-without key k objs);
    sound = λ k x e. b.sound k x (lookup-without_cases key k x objs e).1;
    bodies = λ k x e n.
        let (other, old) = lookup-without_cases key k x objs e in
        datas k other ∙ b.bodies k x old n;
    store = IsStore-congr (λ g. omega (arith, refs_of-without key objs g b.unique)) store;
  }

  -- Taking an object away and leaving its references: they are leaked.
  pub IsBucket-forget :
      (key : Key) {objs : Objects} {leaked : Refs} {v w : View}
      → IsBucket objs leaked v
      → ((k : Key)
          → w p (metadata_key k)
            ≡ (if bytes_eq key.as_str k.as_str then none else v p (metadata_key k)))
      → ((k : Key) → bytes_eq key.as_str k.as_str ≡ false → w p (data_key k) ≡ v p (data_key k))
      → IsStore p blob (λ g. refs_of objs g + leaked g) w
      → IsBucket (without key objs) (λ g. leaked g + count g (hashes_of (lookup key objs))) w
  IsBucket-forget key {objs} {leaked} {v} {w} b metas datas store = record {
    named = b.named;
    unique = Unique-without key objs b.unique;
    metas = λ k. ground (arith, metas k, b.metas k, lookup-without key k objs);
    sound = λ k x e. b.sound k x (lookup-without_cases key k x objs e).1;
    bodies = λ k x e n.
        let (other, old) = lookup-without_cases key k x objs e in
        datas k other ∙ b.bodies k x old n;
    store = IsStore-congr (λ g. omega (arith, refs_of-without key objs g b.unique)) store;
  }
