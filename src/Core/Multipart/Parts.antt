-- ===== src/Core/Multipart/Parts.antt =====
-- `add_part` keeps the parts sorted, and `is_complete` finds the uploads with no gap.
use mathlib.Core.List.{Perm}
use mathlib.Core.List.Perm
use wfl_db.Prelude.{
  false, inr, ◌≢◌, inl, ◌↔◌, refl, true, ◌∙◌, leb, ◌^◌, suc, [], ◌%◌, arith, Bool-cases, ◌<◌, ◌++◌,
  ◌+◌, ◌∷◌, ◌≤◌, length, List, ℕ, ◌≡◌,
}
use wfl_db.Core.Multipart.{
  ContentHash, PartInfo, MultipartUploadState, insert_by_key, sort_by_key, add_part, total_size,
  is_complete, sequential_from, sum_sizes,
}

abbrev pub SortedFrom : ℕ → List PartInfo → Type 0
SortedFrom lo [] = Unit
SortedFrom lo (p ∷ ps) = (lo ≤ p.part_number) × SortedFrom p.part_number ps

insert-SortedFrom :
    (lo : ℕ) (p : PartInfo) (ps : List PartInfo)
    → lo ≤ p.part_number
    → SortedFrom lo ps
    → SortedFrom lo (insert_by_key p ps)
unfolding insert_by_key
insert-SortedFrom lo p [] h s = (h, tt)
insert-SortedFrom lo p (q ∷ qs) h s = elim (Bool-cases (leb p.part_number q.part_number)) [
  | inl before ↦ rw before (h, (ground arith, s.1))
  | inr after ↦ rw after (s.0, insert-SortedFrom q.part_number p qs (ground arith) s.1)
]

pub sort-SortedFrom : (ps : List PartInfo) → SortedFrom 0 (sort_by_key ps)
unfolding sort_by_key
sort-SortedFrom [] = tt
sort-SortedFrom (p ∷ ps) = insert-SortedFrom 0 p (sort_by_key ps) (omega arith) (sort-SortedFrom ps)

insert-perm : (p : PartInfo) (ps : List PartInfo) → Perm (insert_by_key p ps) (p ∷ ps)
unfolding insert_by_key
insert-perm p [] = Perm.refl (p ∷ [])
insert-perm p (q ∷ qs) = elim (Bool-cases (leb p.part_number q.part_number)) [
  | inl before ↦ rw before (Perm.refl (p ∷ q ∷ qs))
  | inr after ↦ rw after (Perm.trans (Perm.cons q (insert-perm p qs)) (Perm.swap p q qs))
]

sort-perm : (ps : List PartInfo) → Perm (sort_by_key ps) ps
unfolding sort_by_key
sort-perm [] = Perm.refl []
sort-perm (p ∷ ps) = Perm.trans (insert-perm p (sort_by_key ps)) (Perm.cons p (sort-perm ps))

sum_sizes-insert :
    (p : PartInfo) (ps : List PartInfo)
    → sum_sizes (insert_by_key p ps) ≡ (p.size + sum_sizes ps) % 2 ^ 64
unfolding insert_by_key sum_sizes
sum_sizes-insert p [] = refl
sum_sizes-insert p (q ∷ qs) = ground (arith, sum_sizes-insert p qs)

sum_sizes-sort : (ps : List PartInfo) → sum_sizes (sort_by_key ps) ≡ sum_sizes ps
unfolding sort_by_key sum_sizes
sum_sizes-sort [] = refl
sum_sizes-sort (p ∷ ps) = rw (sum_sizes-insert, sum_sizes-sort ps)

sum_sizes_snoc :
    (p : PartInfo) (ps : List PartInfo)
    → sum_sizes (ps ++ p ∷ []) ≡ (sum_sizes ps + p.size) % 2 ^ 64
unfolding sum_sizes
sum_sizes_snoc p [] = omega arith
sum_sizes_snoc p (q ∷ qs) = omega (arith, sum_sizes_snoc p qs)

-- After `add_part` the parts are those that were there and the new one, by ascending number, and
-- the total grows by its size; the rest of the upload is as it was.
pub record Added (part_number size : ℕ) (hash : ContentHash) (s s' : MultipartUploadState)
    : Type 0 where
  pub sorted : SortedFrom 0 s'.parts
  pub parts :
      Perm s'.parts
        (s.parts ++ record { part_number = part_number; size = size; content_hash = hash } ∷ [])
  pub total : total_size s' ≡ (total_size s + size) % 2 ^ 64
  pub same_upload : (s'.upload_id ≡ s.upload_id) × (s'.bucket ≡ s.bucket) × (s'.key ≡ s.key)

-- `add_part` adds the new part and keeps the others, sorts the parts by number, and adds the size of
-- the new one to the total modulo 2 ^ 64; the upload, the bucket and the key stay.
pub add_part-Added :
    (part_number size : ℕ) (hash : ContentHash) (s : MultipartUploadState)
    → Added part_number size hash s (add_part part_number size hash s)
unfolding add_part total_size
add_part-Added part_number size hash s =
    let p : PartInfo = record { part_number = part_number; size = size; content_hash = hash } in
    record {
      sorted = sort-SortedFrom (s.parts ++ p ∷ []);
      parts = sort-perm (s.parts ++ p ∷ []);
      total = sum_sizes-sort (s.parts ++ p ∷ []) ∙ sum_sizes_snoc p s.parts;
      same_upload = (refl, refl, refl);
    }

-- The parts are numbered from `i` on, without a gap.
abbrev pub NumberedFrom : ℕ → List PartInfo → Type 0
NumberedFrom i [] = Unit
NumberedFrom i (p ∷ ps) = (p.part_number ≡ i) × NumberedFrom (suc i) ps

sequential_from_iff :
    (i : ℕ) (ps : List PartInfo)
    → i + length ps < 2 ^ 32
    → (sequential_from i ps ≡ true) ↔ NumberedFrom (suc i) ps
unfolding sequential_from
sequential_from_iff i [] h = (λ _. tt, λ _. refl)
sequential_from_iff i (p ∷ ps) h =
    let ih = sequential_from_iff (suc i) ps (omega arith) in
    let same : (i % 2 ^ 32 + 1) % 2 ^ 32 ≡ suc i = omega arith in
    (λ e. (ground arith, ih.0 (ground arith)), λ n. ground (arith, ih.1))

-- For fewer than 2 ^ 32 parts, an upload is complete exactly if it has parts and they are numbered
-- from 1 on without a gap.
pub is_complete_iff :
    (s : MultipartUploadState)
    → length s.parts < 2 ^ 32
    → (is_complete s ≡ true) ↔ ((s.parts ≢ []) × NumberedFrom 1 s.parts)
unfolding is_complete
is_complete_iff s h = go s.parts h
  where
    go :
        (ps : List PartInfo)
        → length ps < 2 ^ 32
        → ((elim ps [ [] ↦ false | p ∷ ps' ↦ sequential_from 0 (p ∷ ps') ]) ≡ true)
          ↔ ((ps ≢ []) × NumberedFrom 1 ps)
    go [] h = (λ e. cc, λ e. absurd (e.0 refl))
    go (p ∷ ps) h = (
      λ e. ((λ x. cc), (sequential_from_iff 0 (p ∷ ps) (omega arith)).0 e),
      λ e. (sequential_from_iff 0 (p ∷ ps) (omega arith)).1 e.1,
    )
