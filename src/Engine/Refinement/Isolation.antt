-- ===== src/Engine/Refinement/Isolation.antt =====
-- Buckets do not share anything: what happens in one does not show in another.
use wfl_db.Engine.Limits.{ShortKey}
use wfl_db.Engine.Storage.{delete_object}
use wfl_db.Core.Outcome.{ok, ◌>>◌}
use wfl_db.Engine.Refinement.Reclaim.{refs_of-assign_small}
use wfl_db.Prelude.{
  eq_of_bytes_eq, append_cancel_right, ◌^◌, ◌<◌, length, inr, ◌+◌, bytes_eq_iff, ◌∙◌, arith, inl,
  lit, Bool-cases, true, Bytes, false, ◌++◌, bytes_eq, Str, ◌≡◌,
}
use wfl_db.Engine.Bucket.{
  chunk_key, chunk_ref_key, data_key, metadata_key, StorageEngine, partition_name,
}
use wfl_db.Engine.Effect.{At}
use wfl_db.Engine.Objects.{refs_of, Objects, lookup}
use wfl_db.Engine.Invariant.{IsBucket}
use wfl_db.Engine.Refinement.{
  get_object, put_object, chunk_data, Key, Stamp, View, Refs, Laws, ContentHash, Platform, BucketId,
  contents, get_object-Ends,
}
use wfl_db.Engine.Refinement.Put.{Storable, put_object-Refines}
use wfl_db.Engine.Refinement.Delete.{delete_object-Refines}

bytes_eq-append : (s t u : Str) → bytes_eq (s ++ u) (t ++ u) ≡ true → s ≡ t
bytes_eq-append s t u h = append_cancel_right s t u (eq_of_bytes_eq (s ++ u) (t ++ u) h)

-- Different buckets have different partitions.
pub partition_name-ne :
    (id other : BucketId)
    → bytes_eq id.as_str other.as_str ≡ false
    → bytes_eq (partition_name id) (partition_name other) ≡ false
unfolding partition_name
partition_name-ne id other h =
    elim (Bool-cases (bytes_eq (id.as_str ++ lit "_main") (other.as_str ++ lit "_main"))) [
      | inl same ↦
          let e = bytes_eq-append id.as_str other.as_str (lit "_main") same in
          ground (arith, bytes_eq_iff id.as_str other.as_str)
      | inr different ↦ different
    ]

-- A bucket is held by its own partition alone.
pub IsBucket-elsewhere :
    (platform : Platform) (q : Str) (blob : ContentHash → Bytes) {objs : Objects} {leaked : Refs}
    {v w : View}
    → ((j : Bytes) → w q j ≡ v q j)
    → IsBucket platform q blob objs leaked v
    → IsBucket platform q blob objs leaked w
IsBucket-elsewhere platform q blob same b = record {
  named = b.named;
  unique = b.unique;
  metas = λ k. same (metadata_key k) ∙ b.metas k;
  sound = b.sound;
  bodies = λ k o e n. same (data_key k) ∙ b.bodies k o e n;
  store = record {
    counts = λ h hb. same (chunk_ref_key h) ∙ b.store.counts h hb;
    stored = λ h hb. same (chunk_key h) ∙ b.store.stored h hb;
  };
}

module _ (platform : Platform) (laws : Laws platform) (engine : StorageEngine) (id other : BucketId)
    (blob : ContentHash → Bytes) where
  open platform use {Db}

  module _ {objs theirs : Objects} {leaked lost : Refs} {v : View} (d : Db)
      (a : At platform laws d v) (b : IsBucket platform (partition_name id) blob objs leaked v)
      (c : IsBucket platform (partition_name other) blob theirs lost v)
      (apart : bytes_eq id.as_str other.as_str ≡ false) where
    -- On a healthy keyspace with room in the reference counts, a write of `Storable` data and then
    -- a deletion, of keys within the limits, in one bucket leave every object of a bucket with
    -- another name as it was.
    pub get_object_elsewhere :
        (stamp : Stamp) (key gone k : Key) (bytes json : Bytes)
        → ShortKey key
        → ShortKey gone
        → Storable platform engine blob objs leaked stamp bytes json
        → ((g : ContentHash) → refs_of objs g + leaked g + length (chunk_data bytes) < 2 ^ 32)
        → ((put_object platform stamp engine id key bytes
              >> delete_object platform engine id gone
              >> get_object platform engine other k)
            d).0
          ≡ ok (contents blob (lookup k theirs))
    get_object_elsewhere stamp key gone k bytes json short short_gone fits small =
        let r1 =
          put_object-Refines platform laws engine id blob d a b stamp key bytes json short fits in
        let r2 =
          delete_object-Refines platform laws engine id blob r1.holds
            (λ g.
              refs_of-assign_small platform engine stamp key bytes json objs leaked g b.unique
                (small g))
            gone short_gone _ r1.ends.state in
        let ne = partition_name-ne id other apart in
        let c2 =
          IsBucket-elsewhere platform (partition_name other) blob
            (λ j.
              r2.elsewhere (partition_name other) j ne ∙ r1.elsewhere (partition_name other) j ne)
            c in
        let s = get_object-Ends platform laws engine other blob _ r2.ends.state c2 k in
        rw (r1.ends.outcome, r2.ends.outcome, s.outcome)
