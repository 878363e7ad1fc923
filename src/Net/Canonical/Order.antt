-- ===== src/Net/Canonical/Order.antt =====
-- The signed text does not depend on the order in which headers were added.
use mathlib.Core.List.{Permᴰ, Perm}
use mathlib.Core.Logic.{∥∥₁_elim}
use mathlib.Core.Path.{subst}
use wfl_db.Net.Canonical.{CanonicalRequest, build, Header, sort_headers, insert_header}
use wfl_db.Prelude.{
  str_leb, str_leb_total, str_leb_antisymm, str_leb_trans, sym, ◌∙◌, ap, Bool-cases, All, refl, inr,
  [], inl, ◌∷◌, arith, true, ◌≢◌, ◌≡◌, List, Str,
}

-- Headers with different names can be inserted in either order.
insert_header_comm :
    (a b : Header) (hs : List Header)
    → a.0 ≢ b.0
    → insert_header a (insert_header b hs) ≡ insert_header b (insert_header a hs)
unfolding insert_header
insert_header_comm a b [] ne = ground (arith, str_leb_total a.0 b.0, str_leb_antisymm a.0 b.0, ne)
insert_header_comm a b (c ∷ hs) ne = ground (
  arith,
  insert_header_comm a b hs ne,
  str_leb_total a.0 b.0,
  str_leb_antisymm a.0 b.0,
  str_leb_trans a.0 b.0 c.0,
  str_leb_trans b.0 a.0 c.0,
  ne,
)

abbrev pub OtherName : Header → Header → Type 0
OtherName a b = a.0 ≢ b.0

-- No two headers have the same name.
abbrev pub DistinctNames : List Header → Type 0
DistinctNames [] = Unit
DistinctNames (h ∷ hs) = All (OtherName h) hs × DistinctNames hs

All-Perm : (P : Header → Type 0) {xs ys : List Header} → Permᴰ xs ys → All P xs → All P ys
All-Perm P Permᴰ.nil h = tt
All-Perm P (Permᴰ.cons e p) h = (subst P e h.0, All-Perm P p h.1)
All-Perm P (Permᴰ.swap e f) h = (subst P f h.1.0, (subst P e h.0, h.1.1))
All-Perm P (Permᴰ.trans p q) h = All-Perm P q (All-Perm P p h)

DistinctNames-Perm : {xs ys : List Header} → Permᴰ xs ys → DistinctNames xs → DistinctNames ys
DistinctNames-Perm Permᴰ.nil h = tt
DistinctNames-Perm (Permᴰ.cons {a = a} {l₂ = m} e p) h =
    (subst (λ x. All (OtherName x) m) e (All-Perm (OtherName a) p h.0), DistinctNames-Perm p h.1)
DistinctNames-Perm (Permᴰ.swap {a} {b} {a'} {b'} {l} e f) h = (
  (
    λ n. h.0.0 (ap (λ (x : Header). x.0) e ∙ sym n ∙ ap (λ (x : Header). x.0) (sym f)),
    subst (λ x. All (OtherName x) l) f h.1.0,
  ),
  (subst (λ x. All (OtherName x) l) e h.0.1, h.1.1),
)
DistinctNames-Perm (Permᴰ.trans p q) h = DistinctNames-Perm q (DistinctNames-Perm p h)

sort_headers-Perm :
    {xs ys : List Header} → Permᴰ xs ys → DistinctNames xs → sort_headers xs ≡ sort_headers ys
unfolding sort_headers
sort_headers-Perm Permᴰ.nil h = refl
sort_headers-Perm (Permᴰ.cons e p) h = rw (e, sort_headers-Perm p h.1)
sort_headers-Perm (Permᴰ.swap {a} {b} {a'} {b'} {l} e f) h =
    insert_header_comm a b (sort_headers l) h.0.0 ∙ rw (e, f)
sort_headers-Perm (Permᴰ.trans p q) h =
    sort_headers-Perm p h ∙ sort_headers-Perm q (DistinctNames-Perm p h)

-- Headers by ascending name.
abbrev pub SortedNames : List Header → Type 0
SortedNames [] = Unit
SortedNames (h ∷ hs) = All (λ g. str_leb h.0 g.0 ≡ true) hs × SortedNames hs

All-weaken :
    (h g : Header) (hs : List Header)
    → str_leb h.0 g.0 ≡ true
    → All (λ x. str_leb g.0 x.0 ≡ true) hs
    → All (λ x. str_leb h.0 x.0 ≡ true) hs
All-weaken h g [] e a = tt
All-weaken h g (x ∷ hs) e a = (str_leb_trans h.0 g.0 x.0 e a.0, All-weaken h g hs e a.1)

All-insert_header :
    (P : Header → Type 0) (h : Header) (hs : List Header)
    → P h
    → All P hs
    → All P (insert_header h hs)
unfolding insert_header
All-insert_header P h [] p a = (p, tt)
All-insert_header P h (g ∷ hs) p a = elim (Bool-cases (str_leb h.0 g.0)) [
  | inl before ↦ rw before (p, a)
  | inr after ↦ rw after (a.0, All-insert_header P h hs p a.1)
]

insert_header-SortedNames :
    (h : Header) (hs : List Header) → SortedNames hs → SortedNames (insert_header h hs)
unfolding insert_header
insert_header-SortedNames h [] s = (tt, tt)
insert_header-SortedNames h (g ∷ hs) s = elim (Bool-cases (str_leb h.0 g.0)) [
  | inl before ↦ rw before ((before, All-weaken h g hs before s.0), s)
  | inr after ↦
      let other : str_leb g.0 h.0 ≡ true = ground (arith, str_leb_total h.0 g.0, after) in
      rw after (
        All-insert_header (λ x. str_leb g.0 x.0 ≡ true) h hs other s.0,
        insert_header-SortedNames h hs s.1,
      )
]

pub sort_headers-SortedNames : (hs : List Header) → SortedNames (sort_headers hs)
unfolding sort_headers
sort_headers-SortedNames [] = tt
sort_headers-SortedNames (h ∷ hs) =
    insert_header-SortedNames h (sort_headers hs) (sort_headers-SortedNames hs)

insert_header_first :
    (h : Header) (hs : List Header)
    → All (λ g. str_leb h.0 g.0 ≡ true) hs
    → insert_header h hs ≡ h ∷ hs
unfolding insert_header
insert_header_first h [] a = refl
insert_header_first h (g ∷ hs) a = rw a.0

sort_headers_fixed : (hs : List Header) → SortedNames hs → sort_headers hs ≡ hs
unfolding sort_headers
sort_headers_fixed [] s = refl
sort_headers_fixed (h ∷ hs) s = rw (sort_headers_fixed hs s.1) (insert_header_first h hs s.0)

Header-IsSet : IsSet (List Header)
Header-IsSet = hlevel

module _ (to_uppercase to_lowercase trim : Str → Str) where
  -- Two requests that differ only in the order of their headers have the same text to sign, if no
  -- two headers have the same name.
  pub build-Perm :
      (r : CanonicalRequest) (hs : List Header)
      → DistinctNames r.headers
      → Perm r.headers hs
      → build to_uppercase to_lowercase trim r
        ≡ build to_uppercase to_lowercase trim (record r { headers = hs })
  unfolding build
  build-Perm r hs d p = rw (∥∥₁_elim p (Header-IsSet _ _) (λ q. sort_headers-Perm q d))

  -- `build` leaves the headers by ascending name, and a second call gives the same text and request.
  pub build-build :
      (r : CanonicalRequest)
      → SortedNames (build to_uppercase to_lowercase trim r).1.headers
        × (build to_uppercase to_lowercase trim (build to_uppercase to_lowercase trim r).1
            ≡ build to_uppercase to_lowercase trim r)
  unfolding build
  build-build r = (
    sort_headers-SortedNames r.headers,
    rw (sort_headers_fixed (sort_headers r.headers) (sort_headers-SortedNames r.headers)),
  )
