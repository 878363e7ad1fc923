-- ===== src/Tests/Codec.antt =====
-- An encoding of metadata as a list of numbers, in the place of serde_json.
use wfl_db.Prelude.{
  zero, length-append, drop, refl, drop-append, take, take-append, arith, ◌≤◌, suc, ◌++◌, length,
  none, ◌∷◌, [], some, Option, Bytes, List, ℕ, ◌≡◌,
}
use wfl_db.Core.Types.{ObjectMetadata, ChunkManifest, ContentHash}

abbrev chunks_out : List ContentHash → Bytes
chunks_out [] = []
chunks_out (c ∷ cs) = length c ∷ (c ++ chunks_out cs)

abbrev chunks_in : ℕ → Bytes → List ContentHash
chunks_in zero r = []
chunks_in (suc fuel) [] = []
chunks_in (suc fuel) (n ∷ r) = take n r ∷ chunks_in fuel (drop n r)

abbrev manifest_out : Option ChunkManifest → Bytes
manifest_out none = 0 ∷ []
manifest_out (some m) = 1 ∷ m.chunk_size ∷ m.total_size ∷ chunks_out m.chunks

abbrev manifest_in : Bytes → Option ChunkManifest
manifest_in (suc _ ∷ chunk_size ∷ total_size ∷ r) =
    some
      (record { chunks = chunks_in (length r) r; chunk_size = chunk_size; total_size = total_size })
manifest_in _ = none

abbrev hash_out : Option ContentHash → Bytes
hash_out none = 0 ∷ []
hash_out (some h) = suc (length h) ∷ h

abbrev pub metadata_out : ObjectMetadata → Bytes
metadata_out m =
    m.size ∷ m.version ∷ m.created_at ∷ (hash_out m.content_hash ++ manifest_out m.chunk_manifest)

abbrev rest_in : ℕ → ℕ → ℕ → Bytes → Option ObjectMetadata
rest_in size version created_at [] = none
rest_in size version created_at (zero ∷ r) = some (record {
  size = size;
  version = version;
  content_hash = none;
  created_at = created_at;
  chunk_manifest = manifest_in r;
})
rest_in size version created_at (suc n ∷ r) = some (record {
  size = size;
  version = version;
  content_hash = some (take n r);
  created_at = created_at;
  chunk_manifest = manifest_in (drop n r);
})

abbrev pub metadata_in : Bytes → Option ObjectMetadata
metadata_in (size ∷ version ∷ created_at ∷ r) = rest_in size version created_at r
metadata_in _ = none

chunks_in-chunks_out :
    (cs : List ContentHash) (fuel : ℕ)
    → length (chunks_out cs) ≤ fuel
    → chunks_in fuel (chunks_out cs) ≡ cs
chunks_in-chunks_out [] zero h = refl
chunks_in-chunks_out [] (suc fuel) h = refl
chunks_in-chunks_out (c ∷ cs) zero h = absurd (omega arith)
chunks_in-chunks_out (c ∷ cs) (suc fuel) h = rw (
  take-append c (chunks_out cs),
  drop-append c (chunks_out cs),
  chunks_in-chunks_out cs fuel (omega (arith, length-append {0} c (chunks_out cs))),
)

manifest_in-manifest_out : (m : Option ChunkManifest) → manifest_in (manifest_out m) ≡ m
manifest_in-manifest_out none = refl
manifest_in-manifest_out (some m) =
    rw (chunks_in-chunks_out m.chunks (length (chunks_out m.chunks)) (omega arith))

rest_in-hash_out :
    (size version created_at : ℕ) (h : Option ContentHash) (m : Option ChunkManifest)
    → rest_in size version created_at (hash_out h ++ manifest_out m)
      ≡ some (record {
        size = size;
        version = version;
        content_hash = h;
        created_at = created_at;
        chunk_manifest = m;
      })
rest_in-hash_out size version created_at none m = rw (manifest_in-manifest_out m)
rest_in-hash_out size version created_at (some h) m =
    rw (take-append h (manifest_out m), drop-append h (manifest_out m), manifest_in-manifest_out m)

pub metadata_in-metadata_out : (m : ObjectMetadata) → metadata_in (metadata_out m) ≡ some m
metadata_in-metadata_out m =
    rest_in-hash_out m.size m.version m.created_at m.content_hash m.chunk_manifest
