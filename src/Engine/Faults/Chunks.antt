-- ===== src/Engine/Faults/Chunks.antt =====
-- The loop of `put_large` when calls may fail: it only adds to the chunk store.
use wfl_db.Engine.Bucket.Chunks.{size_from}
use wfl_db.Core.LittleEndian.{u32_to_le}
use wfl_db.Core.Outcome.{lift}
use wfl_db.Engine.Bucket.Cells.{ref-ref, chunk-chunk, cell_laws}
use wfl_db.Engine.Faults.Readable.{Stored, Backed}
use wfl_db.Engine.Bucket.Store.{
  SameObjects-write-chunk, SameObjects-write-ref, SameObjects-refl, SameObjects-trans, SameObjects,
}
use wfl_db.Core.Types.{ContentHash}
use wfl_db.Engine.Bucket.{
  ref_count_of, store_chunks, chunk_key, chunk_ref_key, add_chunk, add_reference, store_chunk,
  Bucket,
}
use wfl_db.Engine.Faults.{
  Triple-weaken, Triple-pure, Triple-insert, Triple-lift, Triple-get, Triple-bind, Triple, Faults,
}
use wfl_db.Engine.Platform.{call, write, View, Platform}
use wfl_db.Prelude.{
  ap, append_assoc, ◌∙◌, ◌^◌, ◌%◌, length, ◌+◌, [], append-nil, none, ◌∷◌, map, All, ◌++◌, sym,
  List, Option, refl, eq_of_bytes_eq, arith, some, ◌≡◌, IsBytes, Str, Bytes, ℕ,
}

module _ (platform : Platform) (faults : Faults platform) (b : Bucket)
    (blob : ContentHash → Bytes) where
  open platform use {Db, hash}

  abbrev p : Str
  p = b.main_partition

  -- From `v` to `w` no chunk was lost and no object changed, and every chunk with a count is there.
  pub record Grows (v w : View) : Type 0 where
    pub same : SameObjects p v w
    pub kept : (h : ContentHash) → Stored platform p blob v h → Stored platform p blob w h
    pub backed : Backed platform p blob w

  pub Grows-refl : (v : View) → Backed platform p blob v → Grows v v
  Grows-refl v h = record { same = SameObjects-refl p v; kept = λ h s. s; backed = h }

  pub Grows-trans : {u v w : View} → Grows u v → Grows v w → Grows u w
  Grows-trans a c = record {
    same = SameObjects-trans a.same c.same;
    kept = λ h s. c.kept h (a.kept h s);
    backed = c.backed;
  }

  module _ (v : View) (h : ContentHash) (hb : IsBytes h) (c : Backed platform p blob v) where
    write-ref-Grows :
        (x : Bytes) → Stored platform p blob v h → Grows v (write p (chunk_ref_key h) (some x) v)
    write-ref-Grows x there = record {
      same = SameObjects-write-ref p h (some x) v;
      kept = λ g s. (s.0, simp cell_laws (s.1));
      backed = λ g y gb e.
          let cell = simp (cell_laws, ref-ref h g hb gb) at e in
          simp cell_laws (ground (arith, cell, eq_of_bytes_eq h g, there.1, c g y gb));
    }

    write-chunk-Grows : Grows v (write p (chunk_key h) (some (blob h)) v)
    write-chunk-Grows = record {
      same = SameObjects-write-chunk p h (some (blob h)) v;
      kept = λ g s.
          (s.0, simp (cell_laws, chunk-chunk h g hb s.0) (ground (arith, eq_of_bytes_eq h g, s.1)));
      backed = λ g y gb e.
          let cell = simp cell_laws at e in
          simp (cell_laws, chunk-chunk h g hb gb) (ground (arith, eq_of_bytes_eq h g, c g y gb));
    }

  module _ (v : View) (h : ContentHash) (hb : IsBytes h) (c : Backed platform p blob v) where
    abbrev Added : Unit {0} → View → Type 0
    Added _ w = Grows v w × Stored platform p blob w h

    add_reference-Grows :
        (ref_data : Bytes)
        → v p (chunk_ref_key h) ≡ some ref_data
        → Triple platform faults (add_reference platform b h ref_data) v Added (Grows v)
    unfolding add_reference
    add_reference-Grows ref_data e =
        let there : Stored platform p blob v h = (hb, c h ref_data hb e) in
        Triple-bind platform faults (λ _ w. w ≡ v) Added (Grows v) (lift (ref_count_of ref_data)) _
          v
          (Triple-lift platform faults (λ (n : ℕ) (w : View). w ≡ v) (Grows v)
            (ref_count_of ref_data) v (λ _ _. refl) (Grows-refl v c))
          (λ n w q. rw q (
            let g = write-ref-Grows v h hb c _ there in
            Triple-insert platform faults (Grows v) Added p (chunk_ref_key h) _ v
              (g, g.kept h there) (Grows-refl v c)))

    add_chunk-Grows :
        (chunk : Bytes)
        → blob h ≡ chunk
        → Triple platform faults (add_chunk platform b h chunk) v Added (Grows v)
    unfolding add_chunk
    add_chunk-Grows chunk known =
        let v1 : View = write p (chunk_key h) (some chunk) v in
        let g1 : Grows v v1 = rw known at (write-chunk-Grows v h hb c) in
        let s1 : Stored platform p blob v1 h = (hb, simp cell_laws (ap some (sym known))) in
        let g2 = write-ref-Grows v1 h hb g1.backed (u32_to_le 1) s1 in
        Triple-bind platform faults (λ _ w. w ≡ write p (chunk_key h) (some chunk) v) Added
          (Grows v) (call (platform.insert p (chunk_key h) chunk)) _ v
          (Triple-insert platform faults (Grows v) _ p (chunk_key h) chunk v refl (Grows-refl v c))
          (λ _ w q. rw q (
            Triple-insert platform faults (Grows v) Added p (chunk_ref_key h) (u32_to_le 1) _
              (Grows-trans g1 g2, g2.kept h s1) g1))

  -- One round: the chunk is stored, or a call failed.
  store_chunk-Grows :
      (chunk : Bytes) (v : View)
      → blob (hash chunk) ≡ chunk
      → Backed platform p blob v
      → Triple platform faults
          (store_chunk platform b chunk)
          v
          (λ _ w. Grows v w × Stored platform p blob w (hash chunk))
          (Grows v)
  unfolding store_chunk
  store_chunk-Grows chunk v known c =
      let h = hash chunk in
      let hb = faults.hash_bytes chunk in
      Triple-bind platform faults (λ found w. (found ≡ v p (chunk_ref_key h)) × (w ≡ v))
        (λ _ w. Grows v w × Stored platform p blob w h) (Grows v)
        (call (platform.get p (chunk_ref_key h))) _ v
        (Triple-get platform faults (Grows v) _ p (chunk_ref_key h) v (refl, refl) (Grows-refl v c))
        (λ found w q. rw (q.1) (either found q.0))
    where
      either :
          (found : Option Bytes)
          → found ≡ v p (chunk_ref_key (hash chunk))
          → Triple platform faults
              (elim found [
                | some ref_data ↦ add_reference platform b (hash chunk) ref_data
                | none ↦ add_chunk platform b (hash chunk) chunk
              ])
              v
              (λ _ w. Grows v w × Stored platform p blob w (hash chunk))
              (Grows v)
      either none e = add_chunk-Grows v (hash chunk) (faults.hash_bytes chunk) c chunk known
      either (some ref_data) e =
          add_reference-Grows v (hash chunk) (faults.hash_bytes chunk) c ref_data (sym e)

  -- The hashes and the size that the loop has collected, with all their chunks in the store.
  abbrev pub Collected :
      List Bytes → List ContentHash → ℕ → View → List ContentHash × ℕ → View → Type 0
  Collected chunks hs n v r w =
      (r.0 ≡ hs ++ map hash chunks)
      × (r.1 ≡ size_from n chunks)
      × Grows v w
      × All (Stored platform p blob w) (map hash chunks)

  pub All-kept :
      {v w : View} (hs : List ContentHash)
      → Grows v w
      → All (Stored platform p blob v) hs
      → All (Stored platform p blob w) hs
  All-kept [] g a = tt
  All-kept (h ∷ hs) g a = (g.kept h a.0, All-kept hs g a.1)

  pub store_chunks-Grows :
      (chunks : List Bytes) (hs : List ContentHash) (n : ℕ) (v : View)
      → All (λ c. blob (hash c) ≡ c) chunks
      → Backed platform p blob v
      → Triple platform faults
          (store_chunks platform b chunks hs n)
          v
          (Collected chunks hs n v)
          (Grows v)
  unfolding store_chunks
  store_chunks-Grows [] hs n v known c =
      Triple-pure platform faults (Collected [] hs n v) (Grows v) (hs, n) v
        (sym (append-nil hs), refl, Grows-refl v c, tt)
  store_chunks-Grows (chunk ∷ chunks) hs n v known c =
      Triple-bind platform faults (λ _ w. Grows v w × Stored platform p blob w (hash chunk))
        (Collected (chunk ∷ chunks) hs n v) (Grows v) (store_chunk platform b chunk) _ v
        (store_chunk-Grows chunk v known.0 c)
        (λ _ w q.
          Triple-weaken platform faults (Collected (chunk ∷ chunks) hs n v) (Grows v) _ w
            (store_chunks-Grows chunks (hs ++ hash chunk ∷ []) ((n + length chunk) % 2 ^ 64) w
              known.1 (q.0).backed)
            (λ r u t. (
              t.0 ∙ append_assoc hs (hash chunk ∷ []) (map hash chunks),
              t.1,
              Grows-trans q.0 t.2,
              (t.2.kept (hash chunk) q.1, t.3),
            ))
            (λ u t. Grows-trans q.0 t))
