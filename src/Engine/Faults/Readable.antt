-- ===== src/Engine/Faults/Readable.antt =====
-- What a bucket needs for its objects to be read, and to be shared by new ones; the counts of the
-- references need not be right.
use wfl_db.Core.Outcome.{done}
use wfl_db.Engine.Invariant.{IsBucket}
use wfl_db.Engine.Bucket.{data_key, metadata_key, chunk_key, chunk_ref_key}
use wfl_db.Core.Key.{Key}
use wfl_db.Engine.Bucket.Store.{Refs, count, chunk_cell, ref_cell}
use wfl_db.Engine.Objects.{count-le-refs_of, refs_of, hashes, Object, lookup, json_of, Objects}
use wfl_db.Core.Types.{ContentHash}
use wfl_db.Engine.Platform.{View, Platform}
use wfl_db.Prelude.{
  ◌+◌, [], none, refl, bytes_eq_refl, zero, ◌∷◌, sym, suc, ◌∙◌, All, arith, ◌≤◌, some, ◌≡◌, IsBytes,
  List, ◌<◌, Bytes, Str, ℕ,
}

module _ (platform : Platform) (p : Str) (blob : ContentHash → Bytes) where
  -- A chunk that has a count is there.
  abbrev pub Backed : View → Type 0
  Backed v =
      (h : ContentHash) (x : Bytes)
      → IsBytes h
      → v p (chunk_ref_key h) ≡ some x
      → v p (chunk_key h) ≡ some (blob h)

  abbrev pub Stored : View → ContentHash → Type 0
  Stored v h = IsBytes h × (v p (chunk_key h) ≡ some (blob h))

  pub record Readable (objs : Objects) (v : View) : Type 0 where
    pub metas : (key : Key) → v p (metadata_key key) ≡ json_of (lookup key objs)
    pub decodes :
        (key : Key) (o : Object)
        → lookup key objs ≡ some o
        → platform.from_slice o.json ≡ done o.metadata
    pub bodies :
        (key : Key) (o : Object)
        → lookup key objs ≡ some o
        → o.metadata.chunk_manifest ≡ none
        → v p (data_key key) ≡ some o.inline
    pub stored : (key : Key) (o : Object) → lookup key objs ≡ some o → All (Stored v) (hashes o)
    pub backed : Backed v

  ref_cell_lem : (n : ℕ) (x : Bytes) → ref_cell n ≡ some x → 0 < n
  ref_cell_lem zero x h = cc
  ref_cell_lem (suc n) x h = omega arith

  chunk_cell_of_pos : (chunk : Bytes) (n : ℕ) → 0 < n → chunk_cell chunk n ≡ some chunk
  chunk_cell_of_pos chunk zero h = absurd (omega arith)
  chunk_cell_of_pos chunk (suc n) h = refl

  -- Every hash of a list is counted in it.
  counted :
      (hs gs : List ContentHash)
      → ((g : ContentHash) → count g hs ≤ count g gs)
      → All (λ h. 0 < count h gs) hs
  counted [] gs h = tt
  counted (x ∷ hs) gs h =
      let one : 0 < count x (x ∷ hs) = rw (bytes_eq_refl x) (omega arith) in
      let fewer : (g : ContentHash) → count g hs ≤ count g (x ∷ hs) = λ g. ground arith in
      (omega (arith, h x), counted hs gs (λ g. omega (arith, h g, fewer g)))

  stored_all :
      (v : View) (gs hs : List ContentHash)
      → All IsBytes hs
      → All (λ h. 0 < count h gs) hs
      → ((g : ContentHash) → IsBytes g → 0 < count g gs → v p (chunk_key g) ≡ some (blob g))
      → All (Stored v) hs
  stored_all v gs [] b c f = tt
  stored_all v gs (h ∷ hs) b c f = ((b.0, f h b.0 c.0), stored_all v gs hs b.1 c.1 f)

  -- The chunks of a list are there, if the store counts each as often as the list has it.
  pub IsBucket-Stored :
      {objs : Objects} {leaked : Refs} {v : View} (hs : List ContentHash)
      → IsBucket platform p blob objs leaked v
      → All IsBytes hs
      → ((g : ContentHash) → count g hs ≤ refs_of objs g + leaked g)
      → All (Stored v) hs
  IsBucket-Stored {v = v} hs b proper refs =
      stored_all v hs hs proper (counted hs hs (λ g. omega arith))
        (λ g gb pos. b.store.stored g gb ∙ chunk_cell_of_pos (blob g) _ (omega (arith, refs g)))

  pub IsBucket-Readable :
      {objs : Objects} {leaked : Refs} {v : View}
      → IsBucket platform p blob objs leaked v
      → Readable objs v
  IsBucket-Readable {objs} {leaked} {v} b = record {
    metas = b.metas;
    decodes = λ key o e. (b.sound key o e).decodes;
    bodies = b.bodies;
    stored = λ key o e.
        IsBucket-Stored (hashes o) b (b.sound key o e).proper
          (λ g. ground (arith, count-le-refs_of key objs g b.unique, e));
    backed = λ h x hb e.
        b.store.stored h hb
        ∙ chunk_cell_of_pos (blob h) _ (ref_cell_lem _ x (sym (b.store.counts h hb) ∙ e));
  }
