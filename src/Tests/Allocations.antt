-- ===== src/Tests/Allocations.antt =====
-- The theorems on sequences of allocations and releases at concrete inputs.
use toocal.Prelude.{suc, ◌+◌, ◌≤◌, ◌<◌, ◌≡◌, [], ◌∷◌, ◌++◌, arith, length, u64}
use toocal.Freelist.{Freelist, empty, get_next_page, release_page}
use toocal.Freelist.Allocation.{count}
use toocal.Freelist.Steps.{
  Pages, Reach, here, next, allocates, releases, allocate, reverse, Reach-disjoint, allocate-reuses,
}

-- Two allocations, and the release of the first page.
abbrev one_used : Pages
one_used = record { freelist = record { max_page = 2; released_pages = 1 ∷ [] }; used = 2 ∷ [] }

one_used-Reach : Reach (record { freelist = empty; used = [] }) one_used
unfolding get_next_page release_page
one_used-Reach =
    next
      (next (next here (allocates (record { freelist = empty; used = [] }) (omega arith))) (
        allocates
          (record { freelist = record { max_page = 1; released_pages = [] }; used = 1 ∷ [] })
          (omega arith)))
      (releases
        (record { freelist = record { max_page = 2; released_pages = [] }; used = 2 ∷ 1 ∷ [] }) 1
        (omega arith))

Reach-disjoint_example :
    (count 1 one_used.used + count 1 one_used.freelist.released_pages ≤ 1)
    × (count 0 one_used.used + count 0 one_used.freelist.released_pages ≡ 0)
    × (one_used.freelist.max_page < 1
        → count 1 one_used.used + count 1 one_used.freelist.released_pages ≡ 0)
    × (0 < 1
        → 1 ≤ one_used.freelist.max_page
        → count 1 one_used.used + count 1 one_used.freelist.released_pages ≡ 1)
Reach-disjoint_example = Reach-disjoint one_used one_used-Reach 1

abbrev two_released : Freelist
two_released = record { max_page = 3; released_pages = 1 ∷ 3 ∷ [] }

allocate-reuses_example :
    (allocate (length two_released.released_pages) two_released
      ≡ (reverse two_released.released_pages, record two_released { released_pages = [] }))
    × (allocate (suc (length two_released.released_pages)) two_released ≡ (
      reverse two_released.released_pages ++ (u64 (two_released.max_page + 1) ∷ []),
      record { max_page = u64 (two_released.max_page + 1); released_pages = [] },
    ))
allocate-reuses_example = allocate-reuses two_released
