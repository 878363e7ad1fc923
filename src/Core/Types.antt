-- ===== src/Core/Types.antt =====
-- Hashes, manifests, metadata and batches of wfldb-core/src/types.rs.
use wfl_db.Prelude.{
  ℕ, ◌+◌, ◌/◌, ◌%◌, ◌≡◌, refl, Bool, true, false, Option, none, some, List, [], ◌∷◌, Bytes, Str,
  IsBytes, bytes_eq, length, arith, ltb, if◌then◌else◌,
}
use wfl_db.Core.Key.{Key}

-- `ContentHash([u8; 32])`, by its bytes.
abbrev pub ContentHash : Type 0
ContentHash = Bytes

hex_digit : ℕ → ℕ
hex_digit n = if ltb n 10 then n + b'0' else n + 87

-- `hex::encode`: two lower-case digits for each byte.
unfoldable pub encode : Bytes → Str
unfolding hex_digit
encode [] = []
encode (b ∷ bs) = hex_digit (b / 16) ∷ hex_digit (b % 16) ∷ encode bs

unfoldable pub to_hex : ContentHash → Str
to_hex h = encode h

-- Two hashes have one hexadecimal form exactly if they are the same bytes.
pub bytes_eq-encode :
    (a b : Bytes) → IsBytes a → IsBytes b → bytes_eq (encode a) (encode b) ≡ bytes_eq a b
unfolding encode bytes_eq
bytes_eq-encode [] [] p q = refl
bytes_eq-encode [] (y ∷ b) p q = refl
bytes_eq-encode (x ∷ a) [] p q = refl
bytes_eq-encode (x ∷ a) (y ∷ b) p q = ground (arith, bytes_eq-encode a b p.1 q.1)

pub record ChunkManifest : Type 0 where
  pub chunks : List ContentHash
  pub chunk_size : ℕ
  pub total_size : ℕ

unfoldable pub chunk_count : ChunkManifest → ℕ
chunk_count m = length m.chunks

-- What `Version::new()` and `SystemTime::now()` return: the ULID and the time, as numbers.
pub record Stamp : Type 0 where
  pub version : ℕ
  pub now : ℕ

pub record ObjectMetadata : Type 0 where
  pub size : ℕ
  pub version : ℕ
  pub content_hash : Option ContentHash
  pub created_at : ℕ
  pub chunk_manifest : Option ChunkManifest

unfoldable pub new_inline : Stamp → ℕ → ContentHash → ObjectMetadata
new_inline stamp size content_hash = record {
  size = size;
  version = stamp.version;
  content_hash = some content_hash;
  created_at = stamp.now;
  chunk_manifest = none;
}

unfoldable pub new_chunked : Stamp → ChunkManifest → ObjectMetadata
new_chunked stamp m = record {
  size = m.total_size;
  version = stamp.version;
  content_hash = none;
  created_at = stamp.now;
  chunk_manifest = some m;
}

unfoldable pub is_chunked : ObjectMetadata → Bool
is_chunked metadata = elim metadata.chunk_manifest [ none ↦ false | some _ ↦ true ]

pub data BatchOperation : Type 0 where
  put : Key → Bytes → BatchOperation
  delete : Key → BatchOperation

pub data BatchResult : Type 0 where
  success : BatchResult
  error : Str → BatchResult
