-- ===== src/Engine/Bucket/Chunks.antt =====
-- The loops of `put_large` and `delete` over chunks, as changes of the reference counts.
use wfl_db.Engine.Limits.{chunk_ref_key-KeyFits, chunk_key-KeyFits}
use wfl_db.Prelude.{
  refl, append_assoc, [], sym, append-nil, bytes_eq_refl, map, ◌∷◌, ◌++◌, ◌≤◌, length, All, List, ℕ,
  zero, suc, ◌-◌, ◌+◌, ◌%◌, ◌<◌, ◌^◌, ◌≡◌, true, none, some, Bytes, Str, IsBytes, arith, ltb,
}
use wfl_db.Core.Outcome.{Outcome, ok}
use wfl_db.Core.Types.{ContentHash}
use wfl_db.Core.LittleEndian.{u32_to_le, u32_from_le-u32_to_le}
use wfl_db.Engine.Platform.{Platform, Laws, View}
use wfl_db.Engine.Effect.{At, Ends, insert-Ends, remove_At, get_At, Ends-pure}
use wfl_db.Engine.Bucket.{
  release_chunks, store_chunks, Bucket, chunk_key, chunk_ref_key, ref_count_of, add_reference,
  add_chunk, store_chunk, discard, drop_reference, release_chunk,
}
use wfl_db.Engine.Bucket.Store.{
  SameObjects-refl, count, IsStore-congr, Refs, bump, lower, IsStore, SameObjects,
  SameObjects-trans, SameObjects-write-ref, SameObjects-write-chunk, IsStore-add_reference,
  IsStore-add_chunk, IsStore-drop_reference, IsStore-drop_chunk,
}

-- The running total of `put_large`, a `u64` that wraps.
abbrev pub size_from : ℕ → List Bytes → ℕ
size_from total [] = total
size_from total (c ∷ cs) = size_from ((total + length c) % 2 ^ 64) cs

pub ref_count_known : (n : ℕ) → n < 2 ^ 32 → ref_count_of (u32_to_le n) ≡ ok n
ref_count_known n h = rw (u32_from_le-u32_to_le n h, ref_count_of)

module _ (platform : Platform) (laws : Laws platform) (b : Bucket)
    (blob : ContentHash → Bytes) where
  open platform use {Db, hash}

  -- `r` is a result `out` after which the store of `b` holds `refs`, and no object has changed.
  pub record Stores {A : Type 0} (r : Outcome A × Db) (out : Outcome A) (refs : Refs) (v : View)
      : Type 0 where
    pub after : View
    pub ends : Ends platform laws r out after
    pub store : IsStore b.main_partition blob refs after
    pub same : SameObjects b.main_partition v after

  module _ {refs : Refs} {d : Db} {v : View} (a : At platform laws d v)
      (s : IsStore b.main_partition blob refs v) where
    p : Str
    p = b.main_partition

    store_chunk_at :
        (chunk : Bytes) (n : ℕ)
        → blob (hash chunk) ≡ chunk
        → suc n < 2 ^ 32
        → refs (hash chunk) ≡ n
        → Stores (store_chunk platform b chunk d) (ok tt) (bump (hash chunk) refs) v
    unfolding store_chunk add_reference add_chunk p
    store_chunk_at chunk zero known small e =
        let h = hash chunk in
        let hb = laws.hash_bytes chunk in
        let fits = laws.hash_fits chunk in
        let s1 = get_At platform laws p (chunk_ref_key h) d a in
        let s2 = insert-Ends platform laws p (chunk_key h) chunk d (chunk_key-KeyFits h fits) a in
        let s3 =
          insert-Ends platform laws p (chunk_ref_key h) (u32_to_le 1) _
            (chunk_ref_key-KeyFits h fits) s2.state in
        record {
          after = _;
          ends = rw (s1, s.counts h hb, e, s2.outcome) s3;
          store = rw known at (IsStore-add_chunk s h hb e);
          same =
              SameObjects-trans (SameObjects-write-chunk p h (some chunk) v)
                (SameObjects-write-ref p h _ _);
        }
    store_chunk_at chunk (suc n) known small e =
        let h = hash chunk in
        let hb = laws.hash_bytes chunk in
        let fits = laws.hash_fits chunk in
        let s1 = get_At platform laws p (chunk_ref_key h) d a in
        let s2 =
          insert-Ends platform laws p (chunk_ref_key h) (u32_to_le (suc (suc n))) d
            (chunk_ref_key-KeyFits h fits) a in
        let wrap : (suc n + 1) % 2 ^ 32 ≡ suc (suc n) = omega arith in
        record {
          after = _;
          ends = rw (s1, s.counts h hb, e, ref_count_known (suc n) (omega arith), wrap) s2;
          store = IsStore-add_reference s h hb n e;
          same = SameObjects-write-ref p h _ _;
        }

    release_chunk_at :
        (h : ContentHash) (n : ℕ)
        → IsBytes h
        → length h ≤ 32
        → suc n < 2 ^ 32
        → refs h ≡ suc n
        → Stores (release_chunk platform b h d) (ok tt) (lower h refs) v
    unfolding release_chunk drop_reference discard p
    release_chunk_at h zero hb fits small e =
        let s1 = get_At platform laws p (chunk_ref_key h) d a in
        let s2 = remove_At platform laws p (chunk_key h) d (chunk_key-KeyFits h fits) a in
        let s3 = remove_At platform laws p (chunk_ref_key h) _ (chunk_ref_key-KeyFits h fits) s2 in
        record {
          after = _;
          ends =
              rw (s1, s.counts h hb, e, ref_count_known 1 (omega arith))
                (Ends-pure platform laws _ _ s3);
          store = IsStore-drop_chunk s h hb e;
          same =
              SameObjects-trans (SameObjects-write-chunk p h none v)
                (SameObjects-write-ref p h _ _);
        }
    release_chunk_at h (suc n) hb fits small e =
        let s1 = get_At platform laws p (chunk_ref_key h) d a in
        let s2 =
          insert-Ends platform laws p (chunk_ref_key h) (u32_to_le (suc n)) d
            (chunk_ref_key-KeyFits h fits) a in
        let many : ltb 1 (suc (suc n)) ≡ true = ground arith in
        let one_less : suc (suc n) - 1 ≡ suc n = omega arith in
        record {
          after = _;
          ends =
              rw (s1, s.counts h hb, e, ref_count_known (suc (suc n)) (omega arith), many, one_less)
                s2;
          store = IsStore-drop_reference s h hb n e;
          same = SameObjects-write-ref p h _ _;
        }

  -- The loop of `put_large`: each hash gains as many references as it has chunks.
  pub store_chunks-Stores :
      (chunks : List Bytes) (hashes : List ContentHash) (total : ℕ) (d : Db) {refs : Refs}
      {v : View}
      → At platform laws d v
      → IsStore b.main_partition blob refs v
      → All (λ c. blob (hash c) ≡ c) chunks
      → ((g : ContentHash) → refs g + length chunks < 2 ^ 32)
      → Stores
          (store_chunks platform b chunks hashes total d)
          (ok (hashes ++ map hash chunks, size_from total chunks))
          (λ g. refs g + count g (map hash chunks))
          v
  unfolding store_chunks
  store_chunks-Stores [] hashes total d {v} a s known room = record {
    after = v;
    ends = rw append-nil (Ends-pure platform laws _ d a);
    store = IsStore-congr (λ g. omega arith) s;
    same = SameObjects-refl _ v;
  }
  store_chunks-Stores (c ∷ cs) hashes total d {refs} a s known room =
      let first =
        store_chunk_at a s c (refs (hash c)) known.0 (omega (arith, room (hash c))) refl in
      let rest =
        store_chunks-Stores cs (hashes ++ hash c ∷ []) ((total + length c) % 2 ^ 64) _
          first.ends.state first.store known.1 (λ g. ground (arith, room g)) in
      record {
        after = rest.after;
        ends = rw first.ends.outcome (rw append_assoc at rest.ends);
        store = IsStore-congr (λ g. ground arith) rest.store;
        same = SameObjects-trans first.same rest.same;
      }

  -- The loop of `delete`: each hash loses as many references as the manifest has of it.
  pub release_chunks-Stores :
      (hs : List ContentHash) (d : Db) {refs : Refs} {v : View}
      → At platform laws d v
      → IsStore b.main_partition blob refs v
      → All IsBytes hs
      → All (λ h. length h ≤ 32) hs
      → ((g : ContentHash) → count g hs ≤ refs g)
      → ((g : ContentHash) → refs g < 2 ^ 32)
      → Stores (release_chunks platform b hs d) (ok tt) (λ g. refs g - count g hs) v
  unfolding release_chunks
  release_chunks-Stores [] d {v} a s hb fits held small = record {
    after = v;
    ends = Ends-pure platform laws _ d a;
    store = IsStore-congr (λ g. omega arith) s;
    same = SameObjects-refl _ v;
  }
  release_chunks-Stores (h ∷ hs) d {refs} a s hb fits held small =
      let some_left : suc (refs h - 1) ≡ refs h = ground (arith, held h, bytes_eq_refl h) in
      let first =
        release_chunk_at a s h (refs h - 1) hb.0 fits.0 (omega (arith, small h)) (sym some_left) in
      let rest =
        release_chunks-Stores hs _ first.ends.state first.store hb.1 fits.1
          (λ g. ground (arith, held g)) (λ g. ground (arith, small g)) in
      record {
        after = rest.after;
        ends = rw first.ends.outcome rest.ends;
        store = IsStore-congr (λ g. ground arith) rest.store;
        same = SameObjects-trans first.same rest.same;
      }
