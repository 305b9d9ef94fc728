-- ===== src/Freelist/Codec.antt =====
-- The serialization of core/freelist.h.
use toocal.Prelude.{
  ℕ, zero, suc, ◌+◌, ◌*◌, ◌<◌, ◌^◌, ◌≡◌, refl, ap, some, List, [], ◌∷◌, ◌++◌, replicate, length,
  length-append, All, arith, u16,
}
use toocal.Platform.{Platform, encode, length-encode}
use toocal.Freelist.{Freelist, serialize, deserialize, write_pages, read_pages}
use toocal.Streams.Laws.{between, read_int-between, write_int-between}
use native.Mathlib.Nat.{zero-add, suc-add, mod-eq_of_lt}
use mathlib.Core.List.{append_assoc, append-nil}

replicate-add : (m n : ℕ) → replicate {A = ℕ} (m + n) 0 ≡ replicate m 0 ++ replicate n 0
replicate-add zero n = rw zero-add
replicate-add (suc m) n = rw suc-add (ap (0 ∷◌) (replicate-add m n))

module _ ⦃p : Platform⦄ where
  unfoldable pub pages_image : List ℕ → List ℕ
  pages_image [] = []
  pages_image (page ∷ pages) = encode 8 page ++ pages_image pages

  length-pages_image : (pages : List ℕ) → length (pages_image pages) ≡ 8 * length pages
  unfolding pages_image
  length-pages_image [] = refl
  length-pages_image (page ∷ pages) = omega (
    arith,
    length-append (encode 8 page) (pages_image pages),
    length-encode 8 page,
    length-pages_image pages,
  )

  write_pages-between :
      (pages pre : List ℕ)
      → write_pages pages (between pre (replicate (8 * length pages) 0))
        ≡ some (between (pre ++ pages_image pages) [])
  unfolding write_pages pages_image
  write_pages-between [] pre = rw (append-nil pre, append-nil pre)
  write_pages-between (page ∷ pages) pre = rw (
    mul_suc (length pages),
    replicate-add 8 (8 * length pages),
    write_int-between 8 page pre (replicate 8 0) (replicate (8 * length pages) 0) refl,
    write_pages-between pages (pre ++ encode 8 page),
    append_assoc pre (encode 8 page) (pages_image pages),
  )
    where
      mul_suc : (n : ℕ) → 8 * suc n ≡ 8 + 8 * n
      mul_suc n = omega arith

  read_pages-between :
      (pages pre ys : List ℕ)
      → All (λ page. page < 2 ^ 64) pages
      → read_pages (length pages) (between pre (pages_image pages ++ ys))
        ≡ some (pages, between (pre ++ pages_image pages) ys)
  unfolding read_pages pages_image
  read_pages-between [] pre ys h = rw (append-nil pre)
  read_pages-between (page ∷ pages) pre ys h = rw (
    append_assoc (encode 8 page) (pages_image pages) ys,
    read_int-between 8 page pre (pages_image pages ++ ys) h.0,
    read_pages-between pages (pre ++ encode 8 page) ys h.1,
    append_assoc pre (encode 8 page) (pages_image pages),
  )

  abbrev pub image : Freelist → List ℕ
  image f =
      encode 2 (u16 f.max_page)
      ++ (encode 2 (u16 (length f.released_pages)) ++ pages_image f.released_pages)

  pub serialize-image : (f : Freelist) → serialize f ≡ some (image f)
  unfolding serialize
  serialize-image f = rw (
    add_zeros (length f.released_pages),
    write_int-between 2 (u16 f.max_page) [] (replicate 2 0) _ refl,
    write_int-between 2 (u16 (length f.released_pages)) (encode 2 (u16 f.max_page)) (replicate 2 0)
        _ refl,
    write_pages-between f.released_pages,
    append-nil,
    append_assoc,
  )
    where
      add_zeros :
          (n : ℕ)
          → replicate {A = ℕ} (2 + 2 + 8 * n) 0
            ≡ replicate 2 0 ++ (replicate 2 0 ++ replicate (8 * n) 0)
      add_zeros n = replicate-add 4 (8 * n)

  -- The page count and the highest page are kept in 16 bits.
  pub deserialize-image :
      (f : Freelist) (ys : List ℕ)
      → f.max_page < 65536
      → length f.released_pages < 65536
      → All (λ page. page < 2 ^ 64) f.released_pages
      → deserialize (image f ++ ys) ≡ some f
  unfolding deserialize
  deserialize-image f ys m n h = rw (
    mod-eq_of_lt m,
    mod-eq_of_lt n,
    append_assoc (encode 2 f.max_page)
        (encode 2 (length f.released_pages) ++ pages_image f.released_pages) ys,
    append_assoc (encode 2 (length f.released_pages)) (pages_image f.released_pages) ys,
    read_int-between 2 f.max_page [] _ m,
    read_int-between 2 (length f.released_pages) (encode 2 f.max_page) _ n,
    read_pages-between f.released_pages _ ys h,
  )

  -- A freelist whose highest page and whose count of released pages fit 16 bits, and whose pages fit
  -- 64, is serialized, and is read back from any buffer that begins with its serialization.
  pub freelist_round_trip :
      (f : Freelist)
      → f.max_page < 65536
      → length f.released_pages < 65536
      → All (λ page. page < 2 ^ 64) f.released_pages
      → (bytes : List ℕ) × (serialize f ≡ some bytes)
        × (length bytes ≡ 4 + 8 * length f.released_pages)
        × ((padding : List ℕ) → deserialize (bytes ++ padding) ≡ some f)
  freelist_round_trip f m n h = (
    image f,
    serialize-image f,
    omega (
      arith,
      length-append (encode 2 (u16 f.max_page))
          (encode 2 (u16 (length f.released_pages)) ++ pages_image f.released_pages),
      length-append (encode 2 (u16 (length f.released_pages))) (pages_image f.released_pages),
      length-encode 2 (u16 f.max_page),
      length-encode 2 (u16 (length f.released_pages)),
      length-pages_image f.released_pages,
    ),
    λ padding. deserialize-image f padding m n h,
  )
