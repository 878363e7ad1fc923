-- ===== src/Core/Multipart/Arrival.antt =====
-- Parts that arrive in any order.
use wfl_db.Core.Key.{Key}
use wfl_db.Core.BucketId.{BucketId}
use wfl_db.Prelude.{
  sym, ap, ◌≢◌, ◌↔◌, true, ltb, ◌^◌, ◌&&◌, length-append, refl, leb, ◌==◌, if◌then◌else◌, [], suc,
  ◌+◌, ◌∙◌, arith, ◌∷◌, Str, ◌<◌, length, ◌++◌, ◌≡◌, ℕ, List,
}
use wfl_db.Core.Multipart.Parts.{sort-SortedFrom, is_complete_iff, NumberedFrom, SortedFrom}
use wfl_db.Core.Multipart.{
  MultipartUploadState, PartInfo, new, add_part, is_complete, sort_by_key, insert_by_key,
}

-- The parts are added one after another.
abbrev pub add_all : List PartInfo → MultipartUploadState → MultipartUploadState
add_all [] s = s
add_all (p ∷ ps) s = add_all ps (add_part p.part_number p.size p.content_hash s)

-- How many parts have the number.
abbrev pub count_number : ℕ → List PartInfo → ℕ
count_number k [] = 0
count_number k (p ∷ ps) = if p.part_number == k then suc (count_number k ps) else count_number k ps

count_number-insert :
    (k : ℕ) (p : PartInfo) (ps : List PartInfo)
    → count_number k (insert_by_key p ps) ≡ count_number k (p ∷ ps)
unfolding insert_by_key
count_number-insert k p [] = refl
count_number-insert k p (q ∷ qs) = ground (arith, count_number-insert k p qs)

count_number-sort :
    (k : ℕ) (ps : List PartInfo) → count_number k (sort_by_key ps) ≡ count_number k ps
unfolding sort_by_key
count_number-sort k [] = refl
count_number-sort k (p ∷ ps) =
    count_number-insert k p (sort_by_key ps) ∙ ground (arith, count_number-sort k ps)

count_number-append :
    (k : ℕ) (ps qs : List PartInfo)
    → count_number k (ps ++ qs) ≡ count_number k ps + count_number k qs
count_number-append k [] qs = omega arith
count_number-append k (p ∷ ps) qs = ground (arith, count_number-append k ps qs)

length-insert_by_key :
    (p : PartInfo) (ps : List PartInfo) → length (insert_by_key p ps) ≡ suc (length ps)
unfolding insert_by_key
length-insert_by_key p [] = refl
length-insert_by_key p (q ∷ qs) = ground (arith, length-insert_by_key p qs)

length-sort_by_key : (ps : List PartInfo) → length (sort_by_key ps) ≡ length ps
unfolding sort_by_key
length-sort_by_key [] = refl
length-sort_by_key (p ∷ ps) =
    omega (arith, length-insert_by_key p (sort_by_key ps), length-sort_by_key ps)

-- What is kept of the parts that were added: their numbers, sorted.
record Collects (ps : List PartInfo) (before after : List PartInfo) : Type 0 where
  counts : (k : ℕ) → count_number k after ≡ count_number k before + count_number k ps
  size : length after ≡ length before + length ps
  sorted : SortedFrom 0 after

add_all-Collects :
    (ps : List PartInfo) (s : MultipartUploadState)
    → SortedFrom 0 s.parts
    → Collects ps s.parts (add_all ps s).parts
unfolding add_part
add_all-Collects [] s h = record { counts = λ k. omega arith; size = omega arith; sorted = h }
add_all-Collects (p ∷ ps) s h =
    let rest =
      add_all-Collects ps (add_part p.part_number p.size p.content_hash s)
        (sort-SortedFrom (s.parts ++ p ∷ [])) in
    record {
      counts = λ k. ground (
        arith,
        rest.counts k,
        count_number-sort k (s.parts ++ p ∷ []),
        count_number-append k s.parts (p ∷ []),
      );
      size = omega (
        arith,
        rest.size,
        length-sort_by_key (s.parts ++ p ∷ []),
        length-append s.parts (p ∷ []),
      );
      sorted = rest.sorted;
    }

-- Every number from `i` on is there once, `n` of them in all.
abbrev pub OnceFrom : ℕ → ℕ → List PartInfo → Type 0
OnceFrom i n ps = (k : ℕ) → count_number k ps ≡ (if leb i k && ltb k (i + n) then 1 else 0)

count_number_below :
    (k lo : ℕ) (ps : List PartInfo) → SortedFrom lo ps → k < lo → count_number k ps ≡ 0
count_number_below k lo [] s h = refl
count_number_below k lo (p ∷ ps) s h = ground (arith, s, count_number_below k p.part_number ps s.1)

NumberedFrom-of_once :
    (i lo : ℕ) (ps : List PartInfo)
    → SortedFrom lo ps
    → OnceFrom i (length ps) ps
    → NumberedFrom i ps
NumberedFrom-of_once i lo [] s h = tt
NumberedFrom-of_once i lo (p ∷ ps) s h =
    let below = count_number_below i p.part_number ps s.1 in
    let first : p.part_number ≡ i = ground (arith, h i, h p.part_number, below) in
    (first, NumberedFrom-of_once (suc i) p.part_number ps s.1 (λ k. ground (arith, h k, first)))

OnceFrom-of_numbered : (i : ℕ) (ps : List PartInfo) → NumberedFrom i ps → OnceFrom i (length ps) ps
OnceFrom-of_numbered i [] n k = ground arith
OnceFrom-of_numbered i (p ∷ ps) n k = ground (arith, OnceFrom-of_numbered (suc i) ps n.1 k)

nil_of_length : (ps : List PartInfo) → length ps ≡ 0 → ps ≡ []
nil_of_length [] h = refl
nil_of_length (p ∷ ps) h = absurd (omega arith)

collected :
    (now : ℕ) (upload_id : Str) (bucket : BucketId) (key : Key) (ps : List PartInfo)
    → Collects ps [] (add_all ps (new now upload_id bucket key)).parts
unfolding new
collected now upload_id bucket key ps = add_all-Collects ps (new now upload_id bucket key) tt

-- For fewer than 2 ^ 32 parts added to a new upload in any order, the upload is complete exactly if
-- there are parts and their numbers are those from 1 to the number of parts, each once.
pub is_complete-add_all :
    (now : ℕ) (upload_id : Str) (bucket : BucketId) (key : Key) (ps : List PartInfo)
    → length ps < 2 ^ 32
    → (is_complete (add_all ps (new now upload_id bucket key)) ≡ true)
      ↔ ((ps ≢ []) × OnceFrom 1 (length ps) ps)
is_complete-add_all now upload_id bucket key ps h =
    let start = new now upload_id bucket key in
    let s = add_all ps start in
    let c : Collects ps [] s.parts = collected now upload_id bucket key ps in
    let same_size : length s.parts ≡ length ps = omega (arith, c.size) in
    let same_count : (k : ℕ) → count_number k s.parts ≡ count_number k ps =
      λ k. omega (arith, c.counts k) in
    let complete = is_complete_iff s (omega (arith, same_size)) in
    (
      λ e.
          let (some_parts, numbered) = complete.0 e in
          (
            λ empty. some_parts (nil_of_length s.parts (omega (arith, same_size, ap length empty))),
            λ k. sym (same_count k) ∙ (rw same_size at (OnceFrom-of_numbered 1 s.parts numbered k)),
          ),
      λ e. complete.1 (
        λ empty. e.0 (nil_of_length ps (omega (arith, same_size, ap length empty))),
        NumberedFrom-of_once 1 0 s.parts c.sorted (λ k. same_count k ∙ rw same_size (e.1 k)),
      ),
    )
