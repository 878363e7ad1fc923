-- ===== src/Core/Multipart.antt =====
-- `MultipartUploadState` of wfldb-core/src/types.rs.
pub mod Parts
pub mod Arrival
use wfl_db.Prelude.{
  ℕ, suc, ◌+◌, ◌%◌, ◌^◌, Bool, true, false, List, [], ◌∷◌, ◌++◌, Str, leb, ◌==◌, if◌then◌else◌,
}
use wfl_db.Core.BucketId.{BucketId}
use wfl_db.Core.Key.{Key}
use wfl_db.Core.Types.{ContentHash}

pub record PartInfo : Type 0 where
  pub part_number : ℕ
  pub size : ℕ
  pub content_hash : ContentHash

pub record MultipartUploadState : Type 0 where
  pub upload_id : Str
  pub bucket : BucketId
  pub key : Key
  pub parts : List PartInfo
  pub created_at : ℕ

unfoldable pub new : ℕ → Str → BucketId → Key → MultipartUploadState
new now upload_id bucket key = record {
  upload_id = upload_id;
  bucket = bucket;
  key = key;
  parts = [];
  created_at = now;
}

-- `sort_by_key` is stable: an element goes in front of the first one with a key that is not smaller.
unfoldable pub insert_by_key : PartInfo → List PartInfo → List PartInfo
insert_by_key p [] = p ∷ []
insert_by_key p (q ∷ qs) =
    if leb p.part_number q.part_number then p ∷ q ∷ qs else q ∷ insert_by_key p qs

unfoldable pub sort_by_key : List PartInfo → List PartInfo
unfolding insert_by_key
sort_by_key [] = []
sort_by_key (p ∷ ps) = insert_by_key p (sort_by_key ps)

unfoldable pub add_part : ℕ → ℕ → ContentHash → MultipartUploadState → MultipartUploadState
add_part part_number size hash s = record s {
  parts =
      sort_by_key
        (s.parts ++ record { part_number = part_number; size = size; content_hash = hash } ∷ []);
}

sum_sizes : List PartInfo → ℕ
sum_sizes [] = 0
sum_sizes (p ∷ ps) = (p.size + sum_sizes ps) % 2 ^ 64

-- The sum of the `u64` sizes, wrapped as a release build does.
unfoldable pub total_size : MultipartUploadState → ℕ
unfolding sum_sizes
total_size s = sum_sizes s.parts

-- The loop over `enumerate()`, from index `i`.
unfoldable pub sequential_from : ℕ → List PartInfo → Bool
sequential_from i [] = true
sequential_from i (p ∷ ps) =
    if p.part_number == (i % 2 ^ 32 + 1) % 2 ^ 32 then sequential_from (suc i) ps else false

unfoldable pub is_complete : MultipartUploadState → Bool
unfolding sequential_from
is_complete s = elim s.parts [ [] ↦ false | p ∷ ps ↦ sequential_from 0 (p ∷ ps) ]
