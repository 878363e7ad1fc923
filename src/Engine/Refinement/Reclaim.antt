-- ===== src/Engine/Refinement/Reclaim.antt =====
-- Which chunks are left in a bucket when objects are deleted or overwritten.
use wfl_db.Engine.Limits.{ShortKey}
use wfl_db.Core.Types.{new_chunked, new_inline}
use wfl_db.Engine.Storage.{delete_object}
use native.Mathlib.Decide.{dec_le}
use wfl_db.Core.Outcome.{ok, ◌>>◌}
use wfl_db.Prelude.{
  lt→leb, refl, le→leb, zero, [], suc, ◌∷◌, ap, map, arith, ◌≤◌, some, List, IsBytes, ◌^◌, length,
  ◌<◌, ◌+◌, Bytes, ℕ, ◌≡◌,
}
use wfl_db.Engine.Bucket.{chunk_key, StorageEngine, partition_name, get_chunk}
use wfl_db.Engine.Bucket.Store.{Refs, count, chunk_cell}
use wfl_db.Engine.Effect.{At, get_At}
use wfl_db.Engine.Objects.{
  refs_of-without, hashes, assign, Unique, Objects, lookup, without, refs_of, hashes_of,
}
use wfl_db.Engine.Invariant.{IsBucket}
use wfl_db.Engine.Refinement.{
  metadata_of, object_of, new_chunked, new_inline, put_object, chunk_data, Stamp, Key, View,
  ContentHash, BucketId, Laws, Platform, bucket_of,
}
use wfl_db.Engine.Refinement.Put.{Storable, put_object-Refines}
use wfl_db.Engine.Refinement.Delete.{delete_object-Refines}

count-le-length : (g : ContentHash) (hs : List ContentHash) → count g hs ≤ length hs
count-le-length g [] = omega arith
count-le-length g (h ∷ hs) = ground (arith, count-le-length g hs)

chunk_cell_pos : (chunk : Bytes) (n : ℕ) → 0 < n → chunk_cell chunk n ≡ some chunk
chunk_cell_pos chunk zero h = absurd (omega arith)
chunk_cell_pos chunk (suc n) h = refl

length-map : {A B : Type 0} (f : A → B) (xs : List A) → length (map f xs) ≡ length xs
length-map f [] = refl
length-map f (x ∷ xs) = ap suc (length-map f xs)

-- An object that is put names no more chunks than its data has.
count_new :
    (platform : Platform) (engine : StorageEngine) (stamp : Stamp) (bytes json : Bytes)
    (g : ContentHash)
    → count g (hashes (object_of (metadata_of platform engine stamp bytes) json bytes))
      ≤ length (chunk_data bytes)
unfolding new_inline new_chunked
count_new platform engine stamp bytes json g = elim (dec_le (length bytes) engine.value_threshold) [
  | yes small ↦ rw (le→leb (length bytes) engine.value_threshold small) (omega arith)
  | no big ↦ rw (lt→leb (length bytes) engine.value_threshold (omega arith)) (
      omega (
        arith,
        count-le-length g (map platform.hash (chunk_data bytes)),
        length-map platform.hash (chunk_data bytes),
      ))
]

-- The counts stay within 32 bits if there was room for the new chunks.
pub refs_of-assign_small :
    (platform : Platform) (engine : StorageEngine) (stamp : Stamp) (key : Key) (bytes json : Bytes)
    (objs : Objects) (leaked : Refs) (g : ContentHash)
    → Unique objs
    → refs_of objs g + leaked g + length (chunk_data bytes) < 2 ^ 32
    → refs_of (assign key (object_of (metadata_of platform engine stamp bytes) json bytes) objs) g
        + (leaked g + count g (hashes_of (lookup key objs)))
      < 2 ^ 32
refs_of-assign_small platform engine stamp key bytes json objs leaked g u h =
    omega (arith, refs_of-without key objs g u, count_new platform engine stamp bytes json g)

module _ (platform : Platform) (laws : Laws platform) (engine : StorageEngine) (id : BucketId)
    (blob : ContentHash → Bytes) where
  open platform use {Db}

  get_chunk-ok :
      (h : ContentHash) (d : Db) {v : View}
      → At platform laws d v
      → (get_chunk platform (bucket_of engine id) h d).0 ≡ ok (v (partition_name id) (chunk_key h))
  unfolding get_chunk
  get_chunk-ok h d a = rw (get_At platform laws (partition_name id) (chunk_key h) d a)

  module _ {objs : Objects} {leaked : Refs} {v : View} (d : Db) (a : At platform laws d v)
      (b : IsBucket platform (partition_name id) blob objs leaked v) where
    -- On a healthy keyspace in which no reference count reaches 2 ^ 32, after `delete_object` of a
    -- key within the limits a chunk is there exactly if an object that is left still names it or it
    -- was leaked before.
    pub get_chunk-delete_object :
        (key : Key) (h : ContentHash)
        → ShortKey key
        → ((g : ContentHash) → refs_of objs g + leaked g < 2 ^ 32)
        → IsBytes h
        → ((delete_object platform engine id key >> get_chunk platform (bucket_of engine id) h) d).0
          ≡ ok (chunk_cell (blob h) (refs_of (without key objs) h + leaked h))
    get_chunk-delete_object key h short small proper =
        let r = delete_object-Refines platform laws engine id blob b small key short d a in
        let s = get_chunk-ok h _ r.ends.state in
        rw (r.ends.outcome, s, r.holds.store.stored h proper)

    -- On a healthy keyspace with room in the reference counts, for a key within the limits, a chunk
    -- of an object that `put_object` of `Storable` data overwrites is still there after the key is
    -- deleted.
    pub get_chunk-overwritten :
        (stamp : Stamp) (key : Key) (bytes json : Bytes) (h : ContentHash)
        → ShortKey key
        → Storable platform engine blob objs leaked stamp bytes json
        → ((g : ContentHash) → refs_of objs g + leaked g + length (chunk_data bytes) < 2 ^ 32)
        → IsBytes h
        → 0 < count h (hashes_of (lookup key objs))
        → ((put_object platform stamp engine id key bytes
              >> delete_object platform engine id key
              >> get_chunk platform (bucket_of engine id) h)
            d).0
          ≡ ok (some (blob h))
    get_chunk-overwritten stamp key bytes json h short fits small proper named =
        let r1 =
          put_object-Refines platform laws engine id blob d a b stamp key bytes json short fits in
        let r2 =
          delete_object-Refines platform laws engine id blob r1.holds
            (λ g.
              refs_of-assign_small platform engine stamp key bytes json objs leaked g b.unique
                (small g))
            key short _ r1.ends.state in
        let s = get_chunk-ok h _ r2.ends.state in
        rw (r1.ends.outcome, r2.ends.outcome, s, r2.holds.store.stored h proper)
          (ap ok (chunk_cell_pos (blob h) _ (omega arith)))
