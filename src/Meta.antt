-- ===== src/Meta.antt =====
-- core/meta.h: the meta page.
pub mod Codec
use toocal.Prelude.{ℕ, ◌+◌, Option, none, some, List, replicate}
use toocal.Platform.{Platform}
use toocal.Streams.{write_int, read_int, ◌>>=◌}

pub record Meta : Type 0 where
  pub root : ℕ
  pub freelist_page : ℕ

-- `Meta::PAGE_NUM`
abbrev pub page_num : ℕ
page_num = 0

module _ ⦃p : Platform⦄ where
  unfoldable pub serialize : Meta → Option (List ℕ)
  serialize m = do
    s ← write_int 8 m.root (record { buffer = replicate (8 + 8) 0; position = 0 })
    s ← write_int 8 m.freelist_page s
    some s.buffer

  unfoldable pub deserialize : List ℕ → Option Meta
  deserialize buffer = do
    (root, s) ← read_int 8 (record { buffer = buffer; position = 0 })
    (freelist_page, s) ← read_int 8 s
    some (record { root = root; freelist_page = freelist_page })
