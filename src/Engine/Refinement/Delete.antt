-- ===== src/Engine/Refinement/Delete.antt =====
-- `delete_object` takes the object out of the map, and its references out of the chunk store.
use wfl_db.Engine.Limits.{data_key-KeyFits, metadata_key-KeyFits, ShortKey}
use wfl_db.Engine.Bucket.Store.{SameObjects-refl}
use wfl_db.Engine.Bucket.Chunks.{release_chunks-Stores, Stores}
use wfl_db.Engine.Storage.{delete_object}
use wfl_db.Prelude.{
  length, ◌≤◌, IsBytes, All, arith, ◌-◌, refl, inr, ◌∙◌, inl, Option-cases, some, ◌^◌, ◌<◌, ◌+◌,
  none, Str, Bytes, ◌≡◌,
}
use wfl_db.Core.Outcome.{ok}
use wfl_db.Core.Key.{Key}
use wfl_db.Engine.Platform.{Platform, Laws, View, write}
use wfl_db.Engine.Bucket
use wfl_db.Engine.Bucket.{
  discard, remove_object, release_manifest, data_key, StorageEngine, Bucket, partition_name,
  metadata_key,
}
use wfl_db.Engine.Bucket.Cells.{cell_laws}
use wfl_db.Engine.Effect.{remove_At, Ends-pure, persist-Ends, At}
use wfl_db.Engine.Objects.{
  hashes, hashes_of, without-eq_of_absent, without, Object, Objects, lookup, refs_of,
  count-le-refs_of,
}
use wfl_db.Engine.Invariant.{IsBucket, IsBucket-remove}
use wfl_db.Engine.Refinement.{
  IsStore-congr, IsStore-write-meta, IsStore-write-data, count, get_metadata-some,
  get_metadata-none, Refs, ContentHash, BucketId, Refines, bucket_of, opened,
}

module _ (platform : Platform) (laws : Laws platform) (engine : StorageEngine) (id : BucketId)
    (blob : ContentHash → Bytes) where
  open platform use {Db}

  abbrev b0 : Bucket
  b0 = bucket_of engine id

  abbrev q0 : Str
  q0 = partition_name id

  -- What is left when the cells of the object itself are gone.
  abbrev emptied : Key → View → View
  emptied key v = write q0 (data_key key) none (write q0 (metadata_key key) none v)

  module _ {objs : Objects} {leaked : Refs} {v : View} (b : IsBucket platform q0 blob objs leaked v)
      (small : (g : ContentHash) → refs_of objs g + leaked g < 2 ^ 32) (key : Key)
      (short : ShortKey key) where
    -- The loop over the chunks of the object, if it has any.
    release_manifest-Stores :
        (o : Object) (d : Db)
        → At platform laws d (emptied key v)
        → lookup key objs ≡ some o
        → Stores platform laws b0 blob
            (release_manifest platform b0 o.metadata.chunk_manifest d)
            (ok tt)
            (λ g. refs_of objs g + leaked g - count g (hashes_of (lookup key objs)))
            (emptied key v)
    unfolding release_manifest
    release_manifest-Stores o d a e =
        let store = IsStore-write-data (IsStore-write-meta b.store key none) key none in
        elim (Option-cases o.metadata.chunk_manifest) [
          | inl inline ↦ record {
            after = emptied key v;
            ends = rw inline (Ends-pure platform laws _ d a);
            store = IsStore-congr (λ g. rw (e, inline) (omega arith)) store;
            same = SameObjects-refl _ _;
          }
          | inr (m, chunked) ↦
              let proper : All IsBytes m.chunks =
                rw (chunked, hashes) at (b.sound key o e).proper in
              let sized : All (λ h. length h ≤ 32) m.chunks =
                rw (chunked, hashes) at (b.sound key o e).sized in
              let held : (g : ContentHash) → count g m.chunks ≤ refs_of objs g + leaked g =
                λ g. ground (arith, count-le-refs_of key objs g b.unique) in
              rw (e, chunked)
                (release_chunks-Stores platform laws b0 blob m.chunks d a store proper sized held
                  small)
        ]

    -- On a healthy keyspace in which no reference count reaches 2 ^ 32, for a key within the
    -- limits, `delete_object` succeeds whether the key is there or not, takes the key out of the
    -- map of the bucket and its references out of the chunk store, leaks nothing, and leaves other
    -- partitions as they were.
    pub delete_object-Refines :
        (d : Db)
        → At platform laws d v
        → Refines platform laws engine id blob
            (delete_object platform engine id key d)
            (ok tt)
            (without key objs)
            leaked
            v
    unfolding delete_object Bucket.delete remove_object discard
    delete_object-Refines d a = elim (Option-cases (lookup key objs)) [
      | inl none_there ↦
          let s0 = opened platform laws engine id blob d a b in
          let s1 =
            get_metadata-none platform laws b0 key _ s0.state (b.metas key ∙ rw none_there) in
          let s2 = persist-Ends platform laws _ s1.state in
          record {
            after = v;
            ends = rw (s0.outcome, s1.outcome, s2.outcome) (Ends-pure platform laws _ _ s2.state);
            holds = rw (without-eq_of_absent key objs none_there) b;
            elsewhere = λ q j other. refl;
          }
      | inr (o, e) ↦
          let s0 = opened platform laws engine id blob d a b in
          let s1 =
            get_metadata-some platform laws b0 key o.json o.metadata _ s0.state (b.metas key ∙ rw e)
              (b.sound key o e).decodes in
          let a2 =
            remove_At platform laws q0 (metadata_key key) _ (metadata_key-KeyFits key short)
              s1.state in
          let a3 = remove_At platform laws q0 (data_key key) _ (data_key-KeyFits key short) a2 in
          let s4 = release_manifest-Stores o _ a3 e in
          let s5 = persist-Ends platform laws _ s4.ends.state in
          record {
            after = s4.after;
            ends =
                rw (s0.outcome, s1.outcome, s4.ends.outcome, s5.outcome)
                  (Ends-pure platform laws _ _ s5.state);
            holds =
                IsBucket-remove platform q0 blob key b (λ k. s4.same.metas k ∙ simp cell_laws)
                  (λ k other. s4.same.datas k ∙ simp (cell_laws, other)) s4.store;
            elsewhere = λ q j other. s4.same.elsewhere q j other ∙ rw other;
          }
    ]
