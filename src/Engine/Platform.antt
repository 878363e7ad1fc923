-- ===== src/Engine/Platform.antt =====
-- What the engine relies on and does not implement: fjall, serde_json and BLAKE3.
-- A partition handle is the partition's name; the state of the keyspace is passed explicitly.
pub use wfl_db.Core.Outcome.{Answer, done, failed}
use wfl_db.Prelude.{
  length, ◌≤◌, str_leb, map, Ascending, ◌≡◌, ◌&&◌, Option, none, some, List, [], ◌∷◌, Bytes, Str,
  IsBytes, bytes_eq, if◌then◌else◌,
}
use wfl_db.Core.Outcome.{Outcome, ok, err, storage, Exec}
use wfl_db.Core.Types.{ContentHash, ObjectMetadata}

-- One entry of a `fjall::Batch`, with the partition that it goes to.
pub data BatchItem : Type 0 where
  insert : Str → Bytes → Bytes → BatchItem
  remove : Str → Bytes → BatchItem

pub record Platform : Type 1 where
  pub Db : Type 0
  pub open_partition : Str → Db → Answer (Unit {0}) × Db
  pub get : Str → Bytes → Db → Answer (Option Bytes) × Db
  pub insert : Str → Bytes → Bytes → Db → Answer (Unit {0}) × Db
  pub remove : Str → Bytes → Db → Answer (Unit {0}) × Db
  pub range_from : Str → Bytes → Db → List (Answer (Bytes × Bytes))
  pub commit : List BatchItem → Db → Answer (Unit {0}) × Db
  pub persist : Db → Answer (Unit {0}) × Db
  pub hash : Bytes → ContentHash
  pub to_vec : ObjectMetadata → Answer Bytes
  pub from_slice : Bytes → Answer ObjectMetadata

-- The contents of the partitions: partition name, key, value.
abbrev pub View : Type 0
View = Str → Bytes → Option Bytes

-- `v` with the value at one key of one partition replaced.
abbrev pub write : Str → Bytes → Option Bytes → View → View
write p k x v q j = if bytes_eq p q && bytes_eq k j then x else v q j

-- A batch is applied entry by entry, from the first.
unfoldable pub apply_batch : List BatchItem → View → View
apply_batch [] v = v
apply_batch (insert p k x ∷ items) v = apply_batch items (write p k (some x) v)
apply_batch (remove p k ∷ items) v = apply_batch items (write p k none v)

-- The first entry of a list of cells at a key.
abbrev pub cell_at : Bytes → List (Bytes × Bytes) → Option Bytes
cell_at j [] = none
cell_at j ((k, x) ∷ cells) = if bytes_eq k j then some x else cell_at j cells

-- The limits that fjall documents on the name of a partition and on a key.
abbrev pub NameFits : Str → Type 0
NameFits p = length p ≤ 255

abbrev pub KeyFits : Bytes → Type 0
KeyFits k = length k ≤ 65535

abbrev pub ItemsFit : List BatchItem → Type 0
ItemsFit [] = Unit
ItemsFit (insert p k x ∷ items) = KeyFits k × ItemsFit items
ItemsFit (remove p k ∷ items) = KeyFits k × ItemsFit items

-- A range of a partition from a key on: every cell from there on, by ascending key.
pub record IsRange (v : View) (p : Str) (k : Bytes) (cells : List (Bytes × Bytes)) : Type 0 where
  pub ascending : Ascending (λ (c : Bytes × Bytes). c.0) cells
  pub cells_at : (j : Bytes) → cell_at j cells ≡ (if str_leb k j then v p j else none)

module _ (platform : Platform) where
  open platform use {
    Db, open_partition, get, range_from, insert as insert_call, remove as remove_call, commit,
    persist, hash, to_vec, from_slice,
  }

  -- The documented behaviour of the libraries. `IsHealthy d` says that no call on `d` meets an I/O
  -- error, now or later. Opening a longer name panics, and so does writing or removing a longer key;
  -- the laws say nothing of such a call, so the theorems that stand on them ask for names and keys
  -- within the limits.
  pub record Laws : Type 1 where
    pub IsHealthy : Db → Type 0
    pub view : Db → View
    pub open_partition_law :
        (p : Str) (d : Db)
        → NameFits p
        → IsHealthy d
        → ((open_partition p d).0 ≡ done tt)
          × IsHealthy (open_partition p d).1
          × ((q : Str) (j : Bytes) → view (open_partition p d).1 q j ≡ view d q j)
    pub get_law : (p : Str) (k : Bytes) (d : Db) → IsHealthy d → get p k d ≡ (done (view d p k), d)
    pub insert_law :
        (p : Str) (k x : Bytes) (d : Db)
        → KeyFits k
        → IsHealthy d
        → ((insert_call p k x d).0 ≡ done tt)
          × IsHealthy (insert_call p k x d).1
          × ((q : Str) (j : Bytes)
              → view (insert_call p k x d).1 q j ≡ write p k (some x) (view d) q j)
    pub remove_law :
        (p : Str) (k : Bytes) (d : Db)
        → KeyFits k
        → IsHealthy d
        → ((remove_call p k d).0 ≡ done tt)
          × IsHealthy (remove_call p k d).1
          × ((q : Str) (j : Bytes) → view (remove_call p k d).1 q j ≡ write p k none (view d) q j)
    pub range_law :
        (p : Str) (k : Bytes) (d : Db)
        → IsHealthy d
        → (cells : List (Bytes × Bytes)) × (range_from p k d ≡ map done cells)
          × IsRange (view d) p k cells
    pub commit_law :
        (items : List BatchItem) (d : Db)
        → ItemsFit items
        → IsHealthy d
        → ((commit items d).0 ≡ done tt)
          × IsHealthy (commit items d).1
          × ((q : Str) (j : Bytes) → view (commit items d).1 q j ≡ apply_batch items (view d) q j)
    pub persist_law :
        (d : Db)
        → IsHealthy d
        → ((persist d).0 ≡ done tt)
          × IsHealthy (persist d).1
          × ((q : Str) (j : Bytes) → view (persist d).1 q j ≡ view d q j)
    pub hash_bytes : (bytes : Bytes) → IsBytes (hash bytes)
    pub hash_fits : (bytes : Bytes) → length (hash bytes) ≤ 32
    pub from_slice-to_vec :
        (m : ObjectMetadata) (json : Bytes) → to_vec m ≡ done json → from_slice json ≡ done m

-- `map_err(|e| WflDBError::Storage(e.to_string()))`
module _ {A : Type 0} where
  abbrev pub map_storage : Answer A → Outcome A
  map_storage (done a) = ok a
  map_storage (failed e) = err (storage e)

module _ {D A : Type 0} where
  abbrev pub call : (D → Answer A × D) → Exec D A
  call f d = let (r, d') = f d in (map_storage r, d')
