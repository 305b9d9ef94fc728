-- ===== src/Collection/Empty.antt =====
-- A collection without a root (core/collection.cpp): `find` and `remove` read the page 0, which is
-- the meta page, as a node.
use toocal.Prelude.{
  ℕ, suc, ◌+◌, ◌-◌, ◌*◌, ◌^◌, ◌≤◌, ◌<◌, ◌≡◌, some, List, [], ◌∷◌, ◌++◌, arith, length,
  length-append, replicate, slice, lt→leb,
}
use native.Mathlib.Nat.{mod-eq_of_lt}
use toocal.Platform.{Platform, encode}
use toocal.Effects.{ok, err, io_error}
use toocal.Meta
use toocal.Node.{Node, find_key_in_node}
use toocal.Node.Serializer.{deserialize}
use toocal.Node.Serializer.Items.{read_int_at-some}
use toocal.Dal.{Dal, read_page, get_node}
use toocal.Dal.Fstream
use toocal.Dal.Fstream.{File}
use toocal.Dal.Pages.{IsHealthy, read_page-ok, seek-ok}
use toocal.Dal.Startup.{HoldsImage, first_meta, length-meta_image}
use toocal.Tree.{find_key, find_key_helper}
use toocal.Collection.{Collection, find, remove}

-- The three low bytes of the freelist's page number end up as the high bytes of a child page.
abbrev pub phantom_page : ℕ
phantom_page = 1099511627776

-- The store with the fail bit of its stream set.
abbrev pub broken : Dal → Dal
broken d = record d { file = Fstream.fail d.file }

abbrev pub phantom : Node
phantom = record { page_num = 0; items = []; children = phantom_page ∷ [] }

module _ ⦃p : Platform⦄ where
  zeros : encode 8 0 ≡ replicate 8 0
  zeros = rw (
    p.encode_suc 7 0,
    p.encode_suc 6 0,
    p.encode_suc 5 0,
    p.encode_suc 4 0,
    p.encode_suc 3 0,
    p.encode_suc 2 0,
    p.encode_suc 1 0,
    p.encode_suc 0 0,
    p.encode_zero 0,
  )

  one : encode 8 1 ≡ 1 ∷ replicate 7 0
  one = rw (
    p.encode_suc 7 1,
    p.encode_suc 6 0,
    p.encode_suc 5 0,
    p.encode_suc 4 0,
    p.encode_suc 3 0,
    p.encode_suc 2 0,
    p.encode_suc 1 0,
    p.encode_suc 0 0,
    p.encode_zero 0,
  )

  child : encode 8 phantom_page ≡ 0 ∷ 0 ∷ 0 ∷ 0 ∷ 0 ∷ 1 ∷ 0 ∷ 0 ∷ []
  child = rw (
    p.encode_suc 7 phantom_page,
    p.encode_suc 6 (2 ^ 32),
    p.encode_suc 5 (2 ^ 24),
    p.encode_suc 4 (2 ^ 16),
    p.encode_suc 3 256,
    p.encode_suc 2 1,
    p.encode_suc 1 0,
    p.encode_suc 0 0,
    p.encode_zero 0,
  )

  short : (encode 1 0 ≡ 0 ∷ []) × (encode 2 0 ≡ 0 ∷ 0 ∷ [])
  short = (
    rw (p.encode_suc 0 0, p.encode_zero 0),
    rw (p.encode_suc 1 0, p.encode_suc 0 0, p.encode_zero 0),
  )

  deserialize-meta :
      (padding : List ℕ) → deserialize (Meta.Codec.image first_meta ++ padding) ≡ some phantom
  unfolding deserialize slice
  deserialize-meta padding =
      let b : List ℕ = Meta.Codec.image first_meta ++ padding in
      let len = length-append (Meta.Codec.image first_meta) padding in
      let sixteen = length-meta_image first_meta in
      let leaf = read_int_at-some b 1 0 0 (rw (zeros, short.0)) (omega arith) (omega arith) in
      let count = read_int_at-some b 2 1 0 (rw (zeros, short.1)) (omega arith) (omega arith) in
      let last =
        read_int_at-some b 8 3 phantom_page (rw (zeros, one, child)) (omega arith) (omega arith) in
      rw (leaf, count, last)

  get_node-meta_page :
      (d : Dal)
      → IsHealthy d
      → HoldsImage d 0 (Meta.Codec.image first_meta)
      → get_node 0 d ≡ ok phantom d
  unfolding get_node
  get_node-meta_page d h meta_page = rw (
    read_page-ok d h 0 meta_page.inside,
    meta_page.begins,
    deserialize-meta (replicate (d.page_size - length (Meta.Codec.image first_meta)) 0),
  )

  get_node-phantom_page :
      (d : Dal)
      → IsHealthy d
      → d.page_size ≤ 65536
      → length d.file.bytes < phantom_page * d.page_size + d.page_size
      → get_node phantom_page d ≡ err io_error (broken d)
  unfolding get_node read_page Fstream.read
  get_node-phantom_page d h small beyond =
      let start : phantom_page * d.page_size < 18446744073709551616 = omega arith in
      simp (
        mod-eq_of_lt start,
        seek-ok (phantom_page * d.page_size) d.file h.opened h.sound (omega arith),
        lt→leb _ _ beyond,
      )

  -- On a store that holds a new database's meta page and fewer than 2^40 + 1 pages, a search or a
  -- removal in a collection without a root does not answer that the key is missing: it ends with an
  -- error of the stream, and leaves the stream failed.
  pub find_no_root :
      (c : Collection) (fuel : ℕ) (key : List ℕ)
      → IsHealthy c.dal
      → c.root ≡ 0
      → c.dal.page_size ≤ 65536
      → length c.dal.file.bytes < phantom_page * c.dal.page_size + c.dal.page_size
      → HoldsImage c.dal 0 (Meta.Codec.image first_meta)
      → (find (suc fuel) key c ≡ err io_error (record c { dal = broken c.dal }))
        × (remove (suc fuel) key c ≡ err io_error (record c { dal = broken c.dal }))
  unfolding find remove find_key find_key_helper find_key_in_node
  find_no_root c fuel key h no_root small beyond meta_page =
      let root : get_node c.root c.dal ≡ ok phantom c.dal =
        rw no_root (get_node-meta_page c.dal h meta_page) in
      let next = get_node-phantom_page c.dal h small beyond in (rw (root, next), rw (root, next))
