-- ===== src/Dal.antt =====
-- core/data_access_layer.h, core/data_access_layer.cpp: the store of pages behind a file.
pub mod Fstream
pub mod Threshold
pub mod Pages
pub mod Nodes
pub mod Startup
pub mod Reopening
pub mod Persistence
pub mod SplitIndex
pub mod BuiltinOptions
use toocal.Prelude.{
  ℕ, zero, suc, ◌+◌, ◌*◌, ◌-◌, ◌^◌, Bool, true, false, Option, none, some, List, [], ◌∷◌, length,
  replicate, poke, ◌==◌, ltb, if◌then◌else◌, u32, u64, ◌&&◌, not,
}
use toocal.Platform.{Platform, default_page_size}
use toocal.Effects.{
  M, pure, fail, terminate, ◌>>=◌, ◌>>◌, defined, or_panic, get, put_state, Error, io_error,
  Outcome, ok, err, terminated, undefined_behavior, out_of_fuel,
}
use toocal.Freelist
use toocal.Freelist.{Freelist}
use toocal.Meta
use toocal.Meta.{Meta}
use toocal.Node
use toocal.Node.{Item, Node, header_size, item_size}
use toocal.Node.Serializer
use Fstream.{File}
use Threshold.{Fill, below, above}

pub record Options : Type 0 where
  pub page_size : ℕ
  pub min_fill_percent : Fill
  pub max_fill_percent : Fill

-- `Data_access_layer`, with what its `file` stands on.
pub record Dal : Type 0 where
  pub options : Options
  pub open options use *
  pub file : File
  pub meta : Meta
  pub freelist : Freelist

pub record Page : Type 0 where
  pub page_num : ℕ
  pub bytes : List ℕ

unfoldable pub close : M Dal (Unit {0})
close = do d ← get; put_state (record d { file = Fstream.close d.file })

abbrev pub allocate_empty_page : ℕ → Dal → Page
allocate_empty_page page_num d = record { page_num = page_num; bytes = replicate d.page_size 0 }

-- Where a page stands in the file, in `uint64_t`.
abbrev pub offset_of : ℕ → Dal → ℕ
offset_of page_num d = u64 (page_num * d.page_size)

unfoldable pub write_page : Page → M Dal (Unit {0})
write_page page d =
    let (found, f) = Fstream.seek (offset_of page.page_num d) d.file in
    if found
    then (let (written, f) = Fstream.write (offset_of page.page_num d) page.bytes f in
        if written then ok tt (record d { file = f }) else err io_error (record d { file = f }))
    else err io_error (record d { file = f })

unfoldable pub read_page : ℕ → M Dal Page
read_page page_num d =
    let (found, f) = Fstream.seek (offset_of page_num d) d.file in
    if found
    then (let (bytes, f) = Fstream.read (offset_of page_num d) d.page_size f in
        elim bytes [
          | none ↦ err io_error (record d { file = f })
          | some b ↦ ok (record { page_num = page_num; bytes = b }) (record d { file = f })
        ])
    else err io_error (record d { file = f })

module _ ⦃p : Platform⦄ where
  -- `std::copy(data.begin(), data.end(), page.data.begin())`, undefined where the page is shorter.
  abbrev pub copy_to_page : List ℕ → Page → Option Page
  copy_to_page d page = elim (poke page.bytes 0 d) [
    | none ↦ none
    | some bytes ↦ some (record page { bytes = bytes })
  ]

  unfoldable pub read_freelist : M Dal Freelist
  read_freelist = do
    d ← get
    page ← read_page d.meta.freelist_page
    defined (Freelist.deserialize page.bytes)

  unfoldable pub write_freelist : M Dal (Unit {0})
  write_freelist = do
    d ← get
    image ← defined (Freelist.serialize d.freelist)
    page ← defined (copy_to_page image (allocate_empty_page d.meta.freelist_page d))
    write_page page

  unfoldable pub read_meta : M Dal Meta
  read_meta = do page ← read_page Meta.page_num; defined (Meta.deserialize page.bytes)

  unfoldable pub write_meta : Meta → M Dal (Unit {0})
  write_meta m = do
    d ← get
    image ← defined (Meta.serialize m)
    page ← defined (copy_to_page image (allocate_empty_page Meta.page_num d))
    write_page page

  -- A node without a page number is given the next free page; the node is returned with its number.
  unfoldable pub number_node : Node → M Dal Node
  number_node n d =
      if n.page_num == 0
      then (let (page_num, f) = Freelist.get_next_page d.freelist in
          ok (record n { page_num = page_num }) (record d { freelist = f }))
      else ok n d

  unfoldable pub write_node : Node → M Dal Node
  unfolding number_node
  write_node n = do
    n ← number_node n
    d ← get
    image ← defined (Serializer.serialize default_page_size n)
    page ← defined (copy_to_page image (allocate_empty_page n.page_num d))
    write_page page
    pure n

  unfoldable pub get_node : ℕ → M Dal Node
  get_node page_num = do
    page ← read_page page_num
    n ← defined (Serializer.deserialize page.bytes)
    pure (record n { page_num = page_num })

  unfoldable pub delete_node : ℕ → M Dal (Unit {0})
  delete_node page_num = do
    d ← get
    put_state (record d { freelist = Freelist.release_page page_num d.freelist })

  unfoldable pub new_node : List Item → List ℕ → M Dal Node
  new_node items children d =
      let (page_num, f) = Freelist.get_next_page d.freelist in
      ok (record { page_num = page_num; items = items; children = children })
        (record d { freelist = f })

  -- The body of `initialize_database` behind the opening of the file.
  unfoldable pub initialize_database : M Dal (Unit {0})
  unfolding number_node
  initialize_database = do
    d ← get
    let (page_num, f) = Freelist.get_next_page Freelist.empty
    put_state (record d { freelist = f; meta = record d.meta { freelist_page = page_num } })
    write_freelist
    write_node (record { page_num = 0; items = []; children = [] })
    d ← get
    write_meta d.meta

  unfoldable pub load_database : M Dal (Unit {0})
  load_database = do
    m ← read_meta
    d ← get
    put_state (record d { meta = m })
    f ← read_freelist
    d ← get
    put_state (record d { freelist = f })

  -- What the constructor finds at the path: a file with its bytes or none, and whether it opens.
  unfoldable pub open_database :
      Options → Option (List ℕ) → (opens : Bool) (capacity : ℕ) → Outcome Dal (Unit {0})
  open_database options found opens capacity = elim found [
    | none ↦ if opens then or_panic initialize_database (fresh []) else terminated
    | some bytes ↦ if opens then or_panic load_database (fresh bytes) else terminated
  ]
    where
      fresh : List ℕ → Dal
      fresh bytes = record {
        options = options;
        file = record { bytes = bytes; is_open = true; failed = false; capacity = capacity };
        meta = record { root = 0; freelist_page = 0 };
        freelist = Freelist.empty;
      }

abbrev pub is_under_populated : Node → Dal → Bool
is_under_populated n d = below (Node.size n) d.min_fill_percent d.page_size

abbrev pub is_over_populated : Node → Dal → Bool
is_over_populated n d = above (Node.size n) d.max_fill_percent d.page_size

-- `return -1` as a `uint32_t`
abbrev pub no_index : ℕ
no_index = 4294967295

-- The loop of `get_split_index`, with the size so far, at the item of index `i`.
unfoldable pub split_index_from : Dal → ℕ → ℕ → List Item → ℕ
split_index_from d total i [] = no_index
split_index_from d total i (item ∷ items) =
    let total' = u32 (total + item_size item) in
    let later = split_index_from d total' (suc i) items in
    if above total' d.min_fill_percent d.page_size && not (Node.is_empty items)
    then suc i
    else later

unfoldable pub get_split_index : Node → Dal → ℕ
unfolding split_index_from
get_split_index n d = split_index_from d header_size 0 n.items

-- `Node::can_spare_an_element`
abbrev pub can_spare_an_element : Node → Dal → Bool
can_spare_an_element n d = not (get_split_index n d == no_index)
