-- ===== src/Freelist/Allocation.antt =====
-- The allocator of core/freelist.cpp hands out every page once.
use toocal.Prelude.{
  ℕ, ◌+◌, ◌<◌, ◌≡◌, ◌⊎◌, refl, ap, List, [], ◌∷◌, ◌++◌, ◌&&◌, ◌==◌, leb, ltb, if◌then◌else◌, arith,
  unsnoc, unsnoc-some, unsnoc-none, Option-cases, inl, inr,
}
use toocal.Freelist.{Freelist, empty, get_next_page, release_page}
use native.Mathlib.Nat.{mod-eq_of_lt}

abbrev pub count : ℕ → List ℕ → ℕ
count p [] = 0
count p (q ∷ qs) = (if p == q then 1 else 0) + count p qs

-- One occurrence of `p` less.
abbrev pub erase : ℕ → List ℕ → List ℕ
erase p [] = []
erase p (q ∷ qs) = if p == q then qs else q ∷ erase p qs

pub count-append : (p : ℕ) (xs ys : List ℕ) → count p (xs ++ ys) ≡ count p xs + count p ys
count-append p [] ys = omega arith
count-append p (x ∷ xs) ys = omega (arith, count-append p xs ys)

count-erase :
    (p q : ℕ) (xs : List ℕ)
    → 0 < count q xs
    → count p (erase q xs) + (if p == q then 1 else 0) ≡ count p xs
count-erase p q [] h = absurd (omega arith)
count-erase p q (x ∷ xs) h = ground (arith, count-erase p q xs)

-- Every page from 1 up to `max_page` is either used or released, and is so once; no other is.
abbrev pub IsPartition : Freelist → List ℕ → Type 0
IsPartition f used =
    (p : ℕ)
    → count p used + count p f.released_pages ≡ (if ltb 0 p && leb p f.max_page then 1 else 0)

pub empty-IsPartition : IsPartition empty []
empty-IsPartition p = ground arith

-- As long as the page numbers do not run out of 64 bits, a page given out was in no use before, and
-- the pages stay partitioned; while a released page is left, the file does not grow.
pub get_next_page-IsPartition :
    (f : Freelist) (used : List ℕ)
    → f.max_page + 1 < 18446744073709551616
    → IsPartition f used
    → (count (get_next_page f).0 used ≡ 0)
      × IsPartition (get_next_page f).1 ((get_next_page f).0 ∷ used)
      × (f.released_pages ≡ [] ⊎ ((get_next_page f).1.max_page ≡ f.max_page))
unfolding get_next_page
get_next_page-IsPartition f used h part = elim (Option-cases (unsnoc f.released_pages)) [
  | inl e ↦
      rw (e, get_next_page, mod-eq_of_lt h)
        (
          ground (
            arith,
            part (f.max_page + 1),
            ap (count (f.max_page + 1)) (unsnoc-none f.released_pages e),
          ),
          λ p. ground (arith, part p, part (f.max_page + 1)),
          inl (unsnoc-none f.released_pages e),
        )
  | inr ((pages, back), e) ↦
      rw (e, get_next_page)
        (
          ground (
            arith,
            part back,
            ap (count back) (unsnoc-some f.released_pages e),
            count-append back pages (back ∷ []),
          ),
          λ p. ground (
            arith,
            part p,
            ap (count p) (unsnoc-some f.released_pages e),
            count-append p pages (back ∷ []),
          ),
          inr refl,
        )
]

-- A used page that is released can be given out again.
pub release_page-IsPartition :
    (f : Freelist) (used : List ℕ) (page : ℕ)
    → 0 < count page used
    → IsPartition f used
    → IsPartition (release_page page f) (erase page used)
unfolding release_page
release_page-IsPartition f used page h part p =
    ground (arith, part p, count-erase p page used h, count-append p f.released_pages (page ∷ []))
