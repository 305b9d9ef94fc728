-- ===== src/Freelist/Steps.antt =====
-- Sequences of the operations of core/freelist.cpp, with the pages that their callers use.
use toocal.Prelude.{
  ℕ, zero, suc, ◌+◌, ◌≤◌, ◌<◌, ◌≡◌, ap, ◌∙◌, List, [], ◌∷◌, ◌++◌, arith, length, u64, unsnoc-append,
}
use mathlib.Core.List.{append_assoc, append-nil}
use toocal.Freelist.{Freelist, empty, get_next_page, release_page}
use toocal.Freelist.Allocation.{
  count, erase, IsPartition, empty-IsPartition, get_next_page-IsPartition, release_page-IsPartition,
}

pub record Pages : Type 0 where
  pub freelist : Freelist
  pub used : List ℕ

-- An allocation while the page numbers fit 64 bits, or the release of a page in use.
pub data Step : Pages → Pages → Type 0 where
  allocates :
      (s : Pages)
      → s.freelist.max_page + 1 < 18446744073709551616
      → Step s (record {
        freelist = (get_next_page s.freelist).1;
        used = (get_next_page s.freelist).0 ∷ s.used;
      })
  releases :
      (s : Pages) (page : ℕ)
      → 0 < count page s.used
      → Step s (record { freelist = release_page page s.freelist; used = erase page s.used })

pub data Reach (s : Pages) : Pages → Type 0 where
  here : Reach s s
  next : {t u : Pages} → Reach s t → Step t u → Reach s u

Step-IsPartition :
    {s t : Pages} → Step s t → IsPartition s.freelist s.used → IsPartition t.freelist t.used
Step-IsPartition (allocates s small) part =
    (get_next_page-IsPartition s.freelist s.used small part).1
Step-IsPartition (releases s page used) part =
    release_page-IsPartition s.freelist s.used page used part

Reach-IsPartition :
    {s t : Pages} → IsPartition s.freelist s.used → Reach s t → IsPartition t.freelist t.used
Reach-IsPartition part here = part
Reach-IsPartition part (next r step) = Step-IsPartition step (Reach-IsPartition part r)

-- After any sequence of allocations, while the page numbers fit 64 bits, and of releases of used
-- pages, from the empty list on, no page is in use twice, released twice, or both, page 0 and the
-- pages above the highest are neither, and each page up to the highest is one of the two.
pub Reach-disjoint :
    (s : Pages)
    → Reach (record { freelist = empty; used = [] }) s
    → (p : ℕ)
    → (count p s.used + count p s.freelist.released_pages ≤ 1)
      × (count 0 s.used + count 0 s.freelist.released_pages ≡ 0)
      × (s.freelist.max_page < p → count p s.used + count p s.freelist.released_pages ≡ 0)
      × (0 < p → p ≤ s.freelist.max_page → count p s.used + count p s.freelist.released_pages ≡ 1)
Reach-disjoint s r p =
    let part = Reach-IsPartition empty-IsPartition r in
    let at_p = part p in
    let at_zero = part 0 in (ground arith, ground arith, λ h. ground arith, λ h k. ground arith)

-- The pages of so many allocations, in their order, and the list behind them.
pub allocate : ℕ → Freelist → List ℕ × Freelist
allocate zero f = ([], f)
allocate (suc n) f =
    let (pages, f) = allocate n f in let (page, f) = get_next_page f in (pages ++ (page ∷ []), f)

abbrev pub reverse : List ℕ → List ℕ
reverse [] = []
reverse (x ∷ xs) = reverse xs ++ (x ∷ [])

allocate-released :
    (max_page : ℕ) (ys xs : List ℕ)
    → allocate (length xs) (record { max_page = max_page; released_pages = ys ++ xs })
      ≡ (reverse xs, record { max_page = max_page; released_pages = ys })
unfolding allocate get_next_page
allocate-released max_page ys [] =
    ap (λ qs. ([], record { max_page = max_page; released_pages = qs })) (append-nil ys)
allocate-released max_page ys (x ∷ xs) =
    let f : Freelist = record { max_page = max_page; released_pages = ys ++ (x ∷ xs) } in
    let all : allocate (length xs) f
        ≡ (reverse xs, record { max_page = max_page; released_pages = ys ++ (x ∷ []) }) =
      rw (append_assoc ys (x ∷ []) xs) at (allocate-released max_page (ys ++ (x ∷ [])) xs) in
    ap (λ (r : List ℕ × Freelist). (r.0 ++ ((get_next_page r.1).0 ∷ []), (get_next_page r.1).1)) all
    ∙ rw (get_next_page, unsnoc-append ys x)

-- As many allocations as there are released pages give out exactly these, the last released one
-- first, and leave the highest page; the next one after them gives out the page after the highest,
-- in 64 bits.
pub allocate-reuses :
    (f : Freelist)
    → (allocate (length f.released_pages) f
        ≡ (reverse f.released_pages, record f { released_pages = [] }))
      × (allocate (suc (length f.released_pages)) f ≡ (
        reverse f.released_pages ++ (u64 (f.max_page + 1) ∷ []),
        record { max_page = u64 (f.max_page + 1); released_pages = [] },
      ))
unfolding allocate get_next_page
allocate-reuses f = let all = allocate-released f.max_page [] f.released_pages in (all, rw all)
