-- ===== src/Freelist.antt =====
-- core/freelist.h, core/freelist.cpp: the page allocator and its serialization.
pub mod Allocation
pub mod Codec
pub mod Steps
use toocal.Prelude.{
  ℕ, zero, suc, ◌+◌, ◌*◌, Option, none, some, List, [], ◌∷◌, ◌++◌, length, replicate, unsnoc, u16,
  u64,
}
use toocal.Platform.{Platform}
use toocal.Streams.{Stream, write_int, read_int, ◌>>=◌}

-- `released_pages` is a deque: `push_back` and `back` are its right end.
pub record Freelist : Type 0 where
  pub max_page : ℕ
  pub released_pages : List ℕ

-- `Freelist{}`
abbrev pub empty : Freelist
empty = record { max_page = 0; released_pages = [] }

unfoldable pub get_next_page : Freelist → ℕ × Freelist
get_next_page f = elim (unsnoc f.released_pages) [
  | some (pages, back) ↦ (back, record f { released_pages = pages })
  | none ↦ (u64 (f.max_page + 1), record f { max_page = u64 (f.max_page + 1) })
]

unfoldable pub release_page : ℕ → Freelist → Freelist
release_page page f = record f { released_pages = f.released_pages ++ (page ∷ []) }

module _ ⦃p : Platform⦄ where
  write_pages : List ℕ → Stream → Option Stream
  write_pages [] s = some s
  write_pages (page ∷ pages) s = do s ← write_int 8 page s; write_pages pages s

  read_pages : ℕ → Stream → Option (List ℕ × Stream)
  read_pages zero s = some ([], s)
  read_pages (suc n) s = do
    (page, s) ← read_int 8 s
    (pages, s) ← read_pages n s
    some (page ∷ pages, s)

  -- The buffer is as long as the fields written need.
  unfoldable pub serialize : Freelist → Option (List ℕ)
  unfolding write_pages
  serialize f = do
    let count = length f.released_pages
    s ←
        write_int 2 (u16 f.max_page)
          (record { buffer = replicate (2 + 2 + 8 * count) 0; position = 0 })
    s ← write_int 2 (u16 count) s
    s ← write_pages f.released_pages s
    some s.buffer

  unfoldable pub deserialize : List ℕ → Option Freelist
  unfolding read_pages
  deserialize buffer = do
    (max_page, s) ← read_int 2 (record { buffer = buffer; position = 0 })
    (count, s) ← read_int 2 s
    (pages, s) ← read_pages count s
    some (record { max_page = max_page; released_pages = pages })
