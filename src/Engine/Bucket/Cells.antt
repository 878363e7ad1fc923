-- ===== src/Engine/Bucket/Cells.antt =====
-- The four families of keys of a partition do not meet, and each is injective.
use wfl_db.Prelude.{
  ◌≡◌, refl, sym, Bool, true, false, ◌&&◌, ◌++◌, Bytes, Str, IsBytes, bytes_eq, starts_with, lit,
  arith, eq_of_bytes_eq, bytes_eq_refl,
}
use wfl_db.Core.Key.{Key}
use wfl_db.Core.Types.{ContentHash, to_hex, bytes_eq-encode}
use wfl_db.Engine.Bucket.{metadata_key, data_key, chunk_key, chunk_ref_key}

module _ (k j : Key) where
  pub meta-meta : bytes_eq (metadata_key k) (metadata_key j) ≡ bytes_eq k.as_str j.as_str
  unfolding metadata_key bytes_eq
  meta-meta = refl

  pub data-data : bytes_eq (data_key k) (data_key j) ≡ bytes_eq k.as_str j.as_str
  unfolding data_key bytes_eq
  data-data = refl

  pub meta-data : bytes_eq (metadata_key k) (data_key j) ≡ false
  unfolding metadata_key data_key bytes_eq
  meta-data = refl

  pub data-meta : bytes_eq (data_key k) (metadata_key j) ≡ false
  unfolding metadata_key data_key bytes_eq
  data-meta = refl

module _ (k : Key) (h : ContentHash) where
  pub meta-chunk : bytes_eq (metadata_key k) (chunk_key h) ≡ false
  unfolding metadata_key chunk_key bytes_eq
  meta-chunk = refl

  pub meta-ref : bytes_eq (metadata_key k) (chunk_ref_key h) ≡ false
  unfolding metadata_key chunk_ref_key bytes_eq
  meta-ref = refl

  pub data-chunk : bytes_eq (data_key k) (chunk_key h) ≡ false
  unfolding data_key chunk_key bytes_eq
  data-chunk = refl

  pub data-ref : bytes_eq (data_key k) (chunk_ref_key h) ≡ false
  unfolding data_key chunk_ref_key bytes_eq
  data-ref = refl

  pub chunk-meta : bytes_eq (chunk_key h) (metadata_key k) ≡ false
  unfolding metadata_key chunk_key bytes_eq
  chunk-meta = refl

  pub ref-meta : bytes_eq (chunk_ref_key h) (metadata_key k) ≡ false
  unfolding metadata_key chunk_ref_key bytes_eq
  ref-meta = refl

  pub chunk-data : bytes_eq (chunk_key h) (data_key k) ≡ false
  unfolding data_key chunk_key bytes_eq
  chunk-data = refl

  pub ref-data : bytes_eq (chunk_ref_key h) (data_key k) ≡ false
  unfolding data_key chunk_ref_key bytes_eq
  ref-data = refl

module _ (h g : ContentHash) where
  pub chunk-ref : bytes_eq (chunk_key h) (chunk_ref_key g) ≡ false
  unfolding chunk_key chunk_ref_key bytes_eq
  chunk-ref = refl

  pub ref-chunk : bytes_eq (chunk_ref_key h) (chunk_key g) ≡ false
  unfolding chunk_key chunk_ref_key bytes_eq
  ref-chunk = refl

  pub chunk-chunk : IsBytes h → IsBytes g → bytes_eq (chunk_key h) (chunk_key g) ≡ bytes_eq h g
  unfolding chunk_key bytes_eq to_hex
  chunk-chunk p q = bytes_eq-encode h g p q

  pub ref-ref : IsBytes h → IsBytes g → bytes_eq (chunk_ref_key h) (chunk_ref_key g) ≡ bytes_eq h g
  unfolding chunk_ref_key bytes_eq to_hex
  ref-ref p q = bytes_eq-encode h g p q

pub ruleset cell_laws = (
  meta-meta, data-data, meta-data, data-meta, meta-chunk, meta-ref, data-chunk, data-ref,
  chunk-meta, ref-meta, chunk-data, ref-data, chunk-ref, ref-chunk, bytes_eq_refl,
)
