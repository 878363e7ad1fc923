-- ===== src/Engine/Bucket/Store.antt =====
-- The chunk store of a partition, as a count of references for each hash: every counted chunk is
-- stored once, and nothing else is.
use mathlib.Core.Path.{fun_ext, subst}
use wfl_db.Prelude.{
  ℕ, zero, suc, ◌-◌, ◌≡◌, refl, ◌∙◌, false, Option, none, some, Bytes, Str, IsBytes, bytes_eq,
  eq_of_bytes_eq, List, [], ◌∷◌, arith, if◌then◌else◌,
}
use wfl_db.Core.Key.{Key}
use wfl_db.Core.Types.{ContentHash}
use wfl_db.Core.LittleEndian.{u32_to_le}
use wfl_db.Engine.Platform.{View, write}
use wfl_db.Engine.Bucket.{metadata_key, data_key, chunk_key, chunk_ref_key}
use wfl_db.Engine.Bucket.Cells.{cell_laws, chunk-chunk, ref-ref}

abbrev pub Refs : Type 0
Refs = ContentHash → ℕ

abbrev pub ref_cell : ℕ → Option Bytes
ref_cell zero = none
ref_cell (suc n) = some (u32_to_le (suc n))

abbrev pub chunk_cell : Bytes → ℕ → Option Bytes
chunk_cell chunk zero = none
chunk_cell chunk (suc n) = some chunk

-- One reference more, or less, to `h`.
abbrev pub bump : ContentHash → Refs → Refs
bump h refs g = if bytes_eq h g then suc (refs g) else refs g

abbrev pub lower : ContentHash → Refs → Refs
lower h refs g = if bytes_eq h g then refs g - 1 else refs g

-- How often `g` occurs.
abbrev pub count : ContentHash → List ContentHash → ℕ
count g [] = 0
count g (h ∷ hs) = if bytes_eq h g then suc (count g hs) else count g hs

-- `blob` gives the chunk of each hash in use.
pub record IsStore (p : Str) (blob : ContentHash → Bytes) (refs : Refs) (v : View) : Type 0 where
  pub counts : (h : ContentHash) → IsBytes h → v p (chunk_ref_key h) ≡ ref_cell (refs h)
  pub stored : (h : ContentHash) → IsBytes h → v p (chunk_key h) ≡ chunk_cell (blob h) (refs h)

pub IsStore-congr :
    {p : Str} {blob : ContentHash → Bytes} {refs refs' : Refs} {v : View}
    → ((g : ContentHash) → refs g ≡ refs' g)
    → IsStore p blob refs v
    → IsStore p blob refs' v
IsStore-congr {p} {blob} {v} e s = subst (λ r. IsStore p blob r v) (fun_ext e) s

-- `w` differs from `v` in the chunk store of `p` alone.
pub record SameObjects (p : Str) (v w : View) : Type 0 where
  pub metas : (key : Key) → w p (metadata_key key) ≡ v p (metadata_key key)
  pub datas : (key : Key) → w p (data_key key) ≡ v p (data_key key)
  pub elsewhere : (q : Str) (j : Bytes) → bytes_eq p q ≡ false → w q j ≡ v q j

pub SameObjects-refl : (p : Str) (v : View) → SameObjects p v v
SameObjects-refl p v = record { metas = λ k. refl; datas = λ k. refl; elsewhere = λ q j h. refl }

pub SameObjects-trans :
    {p : Str} {u v w : View} → SameObjects p u v → SameObjects p v w → SameObjects p u w
SameObjects-trans a b = record {
  metas = λ k. b.metas k ∙ a.metas k;
  datas = λ k. b.datas k ∙ a.datas k;
  elsewhere = λ q j h. b.elsewhere q j h ∙ a.elsewhere q j h;
}

module _ (p : Str) (h : ContentHash) (x : Option Bytes) (v : View) where
  pub SameObjects-write-ref : SameObjects p v (write p (chunk_ref_key h) x v)
  SameObjects-write-ref = record {
    metas = λ k. simp cell_laws;
    datas = λ k. simp cell_laws;
    elsewhere = λ q j e. rw e;
  }

  pub SameObjects-write-chunk : SameObjects p v (write p (chunk_key h) x v)
  SameObjects-write-chunk = record {
    metas = λ k. simp cell_laws;
    datas = λ k. simp cell_laws;
    elsewhere = λ q j e. rw e;
  }

module _ {p : Str} {blob : ContentHash → Bytes} {refs : Refs} {v : View} (s : IsStore p blob refs v)
    (h : ContentHash) (hb : IsBytes h) where
  -- A chunk that is there gets one more reference.
  pub IsStore-add_reference :
      (n : ℕ)
      → refs h ≡ suc n
      → IsStore p blob (bump h refs) (write p (chunk_ref_key h) (some (u32_to_le (suc (suc n)))) v)
  IsStore-add_reference n e = record {
    counts = λ g gb.
        simp (cell_laws, ref-ref h g hb gb) (ground (arith, eq_of_bytes_eq h g, s.counts g gb));
    stored = λ g gb. simp cell_laws (ground (arith, eq_of_bytes_eq h g, s.stored g gb));
  }

  -- A new chunk is stored with one reference.
  pub IsStore-add_chunk :
      refs h ≡ 0
      → IsStore p blob
          (bump h refs)
          (write p (chunk_ref_key h) (some (u32_to_le 1)) (write p (chunk_key h) (some (blob h)) v))
  IsStore-add_chunk e = record {
    counts = λ g gb.
        simp (cell_laws, ref-ref h g hb gb) (ground (arith, eq_of_bytes_eq h g, s.counts g gb));
    stored = λ g gb.
        simp (cell_laws, chunk-chunk h g hb gb) (ground (arith, eq_of_bytes_eq h g, s.stored g gb));
  }

  -- One of several references is dropped.
  pub IsStore-drop_reference :
      (n : ℕ)
      → refs h ≡ suc (suc n)
      → IsStore p blob (lower h refs) (write p (chunk_ref_key h) (some (u32_to_le (suc n))) v)
  IsStore-drop_reference n e = record {
    counts = λ g gb.
        simp (cell_laws, ref-ref h g hb gb) (ground (arith, eq_of_bytes_eq h g, s.counts g gb));
    stored = λ g gb. simp cell_laws (ground (arith, eq_of_bytes_eq h g, s.stored g gb));
  }

  -- With the last reference the chunk goes.
  pub IsStore-drop_chunk :
      refs h ≡ 1
      → IsStore p blob
          (lower h refs)
          (write p (chunk_ref_key h) none (write p (chunk_key h) none v))
  IsStore-drop_chunk e = record {
    counts = λ g gb.
        simp (cell_laws, ref-ref h g hb gb) (ground (arith, eq_of_bytes_eq h g, s.counts g gb));
    stored = λ g gb.
        simp (cell_laws, chunk-chunk h g hb gb) (ground (arith, eq_of_bytes_eq h g, s.stored g gb));
  }

module _ {p : Str} {blob : ContentHash → Bytes} {refs : Refs} {v : View} (s : IsStore p blob refs v)
    (key : Key) (x : Option Bytes) where
  pub IsStore-write-meta : IsStore p blob refs (write p (metadata_key key) x v)
  IsStore-write-meta = record {
    counts = λ g gb. simp cell_laws (s.counts g gb);
    stored = λ g gb. simp cell_laws (s.stored g gb);
  }

  pub IsStore-write-data : IsStore p blob refs (write p (data_key key) x v)
  IsStore-write-data = record {
    counts = λ g gb. simp cell_laws (s.counts g gb);
    stored = λ g gb. simp cell_laws (s.stored g gb);
  }
