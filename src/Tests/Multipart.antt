-- ===== src/Tests/Multipart.antt =====
-- The theorems about multipart uploads.
use wfl_db.Core.Multipart.Arrival.{is_complete-add_all, OnceFrom, add_all}
use wfl_db.Core.Multipart.Parts.{add_part-Added, Added}
use wfl_db.Core.Multipart.{new, add_part, is_complete, MultipartUploadState, PartInfo}
use wfl_db.Prelude.{List, arith, ◌≢◌, ◌↔◌, true, [], ◌≡◌, lit, ◌∷◌, ℕ}

abbrev part : ℕ → PartInfo
part n = record { part_number = n; size = 10; content_hash = n ∷ [] }

abbrev upload : MultipartUploadState
upload = record {
  upload_id = lit "u";
  bucket = record { as_str = lit "b" };
  key = record { as_str = lit "k" };
  parts = part 1 ∷ part 3 ∷ [];
  created_at = 0;
}

add_part-Added_example : Added 2 10 (2 ∷ []) upload (add_part 2 10 (2 ∷ []) upload)
add_part-Added_example = add_part-Added 2 10 (2 ∷ []) upload

-- Three parts that arrive out of order.
abbrev arrived : List PartInfo
arrived = part 3 ∷ part 1 ∷ part 2 ∷ []

is_complete-add_all_example :
    (is_complete (
        add_all arrived
          (new 0 (lit "u") (record { as_str = lit "b" }) (record { as_str = lit "k" })))
      ≡ true)
    ↔ ((arrived ≢ []) × OnceFrom 1 3 arrived)
is_complete-add_all_example =
    is_complete-add_all 0 (lit "u") (record { as_str = lit "b" }) (record { as_str = lit "k" })
      arrived (omega arith)
