-- ===== src/Engine/Objects.antt =====
-- What a bucket is meant to be: a finite map from keys to objects. This is the specification that
-- the cells of a partition implement.
pub mod Listing
use wfl_db.Prelude.{
  refl, ◌≤◌, false, ◌⊎◌, bytes_eq_symm, flatten, inr, inl, Bool-cases, ◌+◌, ◌≡◌, true, Option, none,
  some, List, [], ◌∷◌, Bytes, bytes_eq, bytes_eq_refl, eq_of_bytes_eq, arith, if◌then◌else◌, map,
  ap,
}
use wfl_db.Core.Key.{Key}
use wfl_db.Core.Types.{ContentHash, ObjectMetadata}
use wfl_db.Engine.Bucket.Store.{Refs, count}

-- An object: its metadata, the JSON that stands for it, and its bytes if it is stored inline.
pub record Object : Type 0 where
  pub metadata : ObjectMetadata
  pub json : Bytes
  pub inline : Bytes

abbrev pub Objects : Type 0
Objects = List (Key × Object)

abbrev pub lookup : Key → Objects → Option Object
lookup key [] = none
lookup key ((k, o) ∷ objs) = if bytes_eq key.as_str k.as_str then some o else lookup key objs

abbrev pub without : Key → Objects → Objects
without key [] = []
without key ((k, o) ∷ objs) =
    let rest = without key objs in if bytes_eq key.as_str k.as_str then rest else (k, o) ∷ rest

abbrev pub Unique : Objects → Type 0
Unique [] = Unit
Unique ((k, o) ∷ objs) = (lookup k objs ≡ none) × Unique objs

-- The chunks of an object, none if it is stored inline.
abbrev pub hashes : Object → List ContentHash
hashes o = elim o.metadata.chunk_manifest [ none ↦ [] | some m ↦ m.chunks ]

abbrev pub hashes_of : Option Object → List ContentHash
hashes_of none = []
hashes_of (some o) = hashes o

abbrev pub json_of : Option Object → Option Bytes
json_of none = none
json_of (some o) = some o.json

-- The references that the objects make to a chunk.
abbrev pub refs_of : Objects → Refs
refs_of [] g = 0
refs_of ((k, o) ∷ objs) g = count g (hashes o) + refs_of objs g

-- The bytes of an object, where `blob` gives the chunk of each hash.
abbrev pub content : (ContentHash → Bytes) → Object → Bytes
content blob o = elim o.metadata.chunk_manifest [
  | none ↦ o.inline
  | some m ↦ flatten (map blob m.chunks)
]

pub Key-ext : (k j : Key) → bytes_eq k.as_str j.as_str ≡ true → k ≡ j
Key-ext k j h = ap {B = Key} (λ s. record { as_str = s }) (eq_of_bytes_eq k.as_str j.as_str h)

pub lookup-without :
    (key j : Key) (objs : Objects)
    → lookup j (without key objs) ≡ (if bytes_eq key.as_str j.as_str then none else lookup j objs)
lookup-without key j [] = ground arith
lookup-without key j ((k, o) ∷ objs) = ground (
  arith,
  lookup-without key j objs,
  eq_of_bytes_eq key.as_str k.as_str,
  eq_of_bytes_eq key.as_str j.as_str,
  eq_of_bytes_eq j.as_str k.as_str,
  bytes_eq_refl k.as_str,
)

pub Unique-without : (key : Key) (objs : Objects) → Unique objs → Unique (without key objs)
Unique-without key [] u = tt
Unique-without key ((k, o) ∷ objs) u =
    ground (arith, Unique-without key objs u.1, lookup-without key k objs)

-- Taking an object away takes its references away.
pub refs_of-without :
    (key : Key) (objs : Objects) (g : ContentHash)
    → Unique objs
    → refs_of (without key objs) g + count g (hashes_of (lookup key objs)) ≡ refs_of objs g
refs_of-without key [] g u = omega arith
refs_of-without key ((k, o) ∷ objs) g u = elim (Bool-cases (bytes_eq key.as_str k.as_str)) [
  | inl same ↦
      let gone : lookup key objs ≡ none = rw (Key-ext key k same) u.0 in
      rw same (ground (arith, gone, refs_of-without key objs g u.1))
  | inr other ↦ rw other (omega (arith, refs_of-without key objs g u.1))
]

abbrev pub assign : Key → Object → Objects → Objects
assign key o objs = (key, o) ∷ without key objs

pub lookup-assign :
    (key k : Key) (o : Object) (objs : Objects)
    → lookup k (assign key o objs)
      ≡ (if bytes_eq key.as_str k.as_str then some o else lookup k objs)
lookup-assign key k o objs =
    ground (arith, lookup-without key k objs, bytes_eq_symm key.as_str k.as_str)

pub lookup-assign_cases :
    (key k : Key) (o x : Object) (objs : Objects)
    → lookup k (assign key o objs) ≡ some x
    → ((bytes_eq key.as_str k.as_str ≡ true) × (o ≡ x))
      ⊎ ((bytes_eq key.as_str k.as_str ≡ false) × (lookup k objs ≡ some x))
lookup-assign_cases key k o x objs e =
    ground (arith, lookup-without key k objs, bytes_eq_symm key.as_str k.as_str)

pub lookup-without_cases :
    (key k : Key) (x : Object) (objs : Objects)
    → lookup k (without key objs) ≡ some x
    → (bytes_eq key.as_str k.as_str ≡ false) × (lookup k objs ≡ some x)
lookup-without_cases key k x objs e = ground (arith, lookup-without key k objs)

pub count-le-refs_of :
    (key : Key) (objs : Objects) (g : ContentHash)
    → Unique objs
    → count g (hashes_of (lookup key objs)) ≤ refs_of objs g
count-le-refs_of key objs g u = omega (arith, refs_of-without key objs g u)

pub without-eq_of_absent :
    (key : Key) (objs : Objects) → lookup key objs ≡ none → without key objs ≡ objs
without-eq_of_absent key [] h = refl
without-eq_of_absent key ((k, o) ∷ objs) h = ground (arith, without-eq_of_absent key objs)
