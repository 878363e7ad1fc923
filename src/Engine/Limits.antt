-- ===== src/Engine/Limits.antt =====
-- Names and keys of a client that stay within the limits of fjall, and the cells made of them.
use wfl_db.Prelude.{◌≡◌, ◌≤◌, ◌*◌, [], ◌∷◌, lit, length, length-append, arith, refl, Bytes}
use wfl_db.Core.BucketId.{BucketId}
use wfl_db.Core.Key.{Key}
use wfl_db.Core.Types.{ContentHash, encode, to_hex}
use wfl_db.Engine.Platform.{KeyFits, NameFits}
use wfl_db.Engine.Bucket.{chunk_key, chunk_ref_key, data_key, metadata_key, partition_name}

-- The name of the partition is five bytes longer, and so are the keys of the cells of an object.
abbrev pub ShortName : BucketId → Type 0
ShortName id = length id.as_str ≤ 250

abbrev pub ShortKey : Key → Type 0
ShortKey key = length key.as_str ≤ 65530

pub ShortName-NameFits : (id : BucketId) → ShortName id → NameFits (partition_name id)
unfolding partition_name
ShortName-NameFits id h = omega (arith, length-append {0} id.as_str (lit "_main"))

pub metadata_key-KeyFits : (key : Key) → ShortKey key → KeyFits (metadata_key key)
unfolding metadata_key
metadata_key-KeyFits key h = omega (arith, length-append {0} (lit "meta:") key.as_str)

pub data_key-KeyFits : (key : Key) → ShortKey key → KeyFits (data_key key)
unfolding data_key
data_key-KeyFits key h = omega (arith, length-append {0} (lit "data:") key.as_str)

length-encode : (bytes : Bytes) → length (encode bytes) ≡ 2 * length bytes
unfolding encode
length-encode [] = refl
length-encode (b ∷ bs) = omega (arith, length-encode bs)

pub chunk_key-KeyFits : (h : ContentHash) → length h ≤ 32 → KeyFits (chunk_key h)
unfolding chunk_key to_hex
chunk_key-KeyFits h e = omega (arith, length-append {0} (lit "chunk:") (encode h), length-encode h)

pub chunk_ref_key-KeyFits : (h : ContentHash) → length h ≤ 32 → KeyFits (chunk_ref_key h)
unfolding chunk_ref_key to_hex
chunk_ref_key-KeyFits h e =
    omega (arith, length-append {0} (lit "chunkref:") (encode h), length-encode h)
