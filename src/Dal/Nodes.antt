-- ===== src/Dal/Nodes.antt =====
-- `write_node` and `get_node` of core/data_access_layer.cpp: the store as a map from page numbers to
-- nodes.
use toocal.Prelude.{
  ℕ, zero, suc, ◌+◌, ◌-◌, ◌≤◌, ◌≡◌, ◌≢◌, refl, ap, some, List, [], ◌∷◌, ◌++◌, arith, length,
  replicate, length-replicate, length-append, store, poke-some, ne→==, eq→==,
}
use toocal.Platform.{Platform, default_page_size}
use toocal.Effects.{ok}
use toocal.Freelist.{get_next_page}
use toocal.Node.{Node}
use toocal.Node.Serializer.{deserialize}
use toocal.Node.Serializer.RoundTrip.{IsStorable, deserialize-serialize}
use toocal.Dal.{Dal, write_node, number_node, get_node, copy_to_page, allocate_empty_page}
use toocal.Dal.Pages.{
  IsHealthy, IsInside, CanHold, page_bytes, with_page, write_page-ok, read_page-ok,
  with_page-IsHealthy, with_page-IsInside, page_bytes-with_page_self, with_page-IsInside_mono,
  page_bytes-with_page_ne,
}

store-replicate :
    (n k : ℕ) (d : List ℕ) → n ≡ length d + k → store (replicate n 0) 0 d ≡ d ++ replicate k 0
unfolding store
store-replicate zero k [] e = let e' : 0 ≡ k = omega arith in rw (← e')
store-replicate zero k (b ∷ d) e = absurd (omega arith)
store-replicate (suc n) k [] e = let e' : suc n ≡ k = omega arith in rw (← e')
store-replicate (suc n) k (b ∷ d) e = ap (b ∷◌) (store-replicate n k d (omega arith))

-- What a write of a node leaves alone.
pub record SameBut (d d' : Dal) : Type 0 where
  pub same_options : d'.options ≡ d.options
  pub same_meta : d'.meta ≡ d.meta
  pub same_freelist : d'.freelist ≡ d.freelist
  pub same_capacity : d'.file.capacity ≡ d.file.capacity

-- The bytes of a page that begins with an image.
abbrev pub padded : ℕ → List ℕ → List ℕ
padded page_size image = image ++ replicate (page_size - length image) 0

pub length-padded :
    (page_size : ℕ) (image : List ℕ)
    → length image ≤ page_size
    → length (padded page_size image) ≡ page_size
length-padded page_size image h = omega (
  arith,
  length-append image (replicate (page_size - length image) 0),
  length-replicate {A = ℕ} (page_size - length image) 0,
)

module _ ⦃p : Platform⦄ where
  pub copy_to_page-ok :
      (d : Dal) (page_num : ℕ) (image : List ℕ)
      → length image ≤ d.page_size
      → copy_to_page image (allocate_empty_page page_num d)
        ≡ some (record { page_num = page_num; bytes = padded d.page_size image })
  copy_to_page-ok d page_num image h = rw (
    poke-some (replicate d.page_size 0) 0 image
        (omega (arith, length-replicate {A = ℕ} d.page_size 0)),
    copy_to_page,
    store-replicate d.page_size (d.page_size - length image) image (omega arith),
  )

  -- The page holds the serialized node.
  pub record HoldsNode (d : Dal) (page_num : ℕ) (n : Node) : Type 0 where
    pub inside : IsInside d page_num
    pub decoded : deserialize (page_bytes d page_num) ≡ some (record n { page_num = 0 })
    pub number : n.page_num ≡ page_num

  pub get_node-HoldsNode :
      (d : Dal) (page_num : ℕ) (n : Node)
      → IsHealthy d
      → HoldsNode d page_num n
      → get_node page_num d ≡ ok n d
  unfolding get_node
  get_node-HoldsNode d page_num n h holds =
      rw (read_page-ok d h page_num holds.inside, holds.decoded, ← holds.number)

  -- A node without a page number is written like one with the next free page as its number.
  pub write_node-fresh :
      (d : Dal) (n : Node)
      → n.page_num ≡ 0
      → (get_next_page d.freelist).0 ≢ 0
      → write_node n d
        ≡ write_node
            (record n { page_num = (get_next_page d.freelist).0 })
            (record d { freelist = (get_next_page d.freelist).1 })
  unfolding write_node number_node
  write_node-fresh d n none_yet some_page =
      rw (eq→== n.page_num 0 none_yet, ne→== (get_next_page d.freelist).0 0 some_page)

  -- The outcome of writing a node that has a page.
  pub record Written (d : Dal) (n : Node) : Type 0 where
    pub after : Dal
    pub result : write_node n d ≡ ok n after
    pub healthy : IsHealthy after
    pub holds : HoldsNode after n.page_num n
    pub kept :
        (q : ℕ)
        → q ≢ n.page_num
        → IsInside d q
        → IsInside after q × (page_bytes after q ≡ page_bytes d q)
    pub others : (q : ℕ) (m : Node) → q ≢ n.page_num → HoldsNode d q m → HoldsNode after q m
    pub rest : SameBut d after

  module _ (d : Dal) (h : IsHealthy d) (n : Node) (storable : IsStorable default_page_size n)
      (fits : default_page_size ≤ d.page_size) (room : CanHold d n.page_num) where
    pub write_numbered : n.page_num ≢ 0 → Written d n
    unfolding write_node number_node
    write_numbered numbered =
        let (image, serialized, size, reads) = deserialize-serialize default_page_size n storable in
        let bytes : List ℕ = padded d.page_size image in
        let full : length bytes ≡ d.page_size = length-padded d.page_size image (omega arith) in
        record {
          after = with_page d n.page_num bytes;
          result = rw (
            ne→== n.page_num 0 numbered,
            serialized,
            copy_to_page-ok d n.page_num image (omega arith),
            write_page-ok d h n.page_num bytes (omega arith),
          );
          healthy = with_page-IsHealthy d h n.page_num bytes (omega arith);
          holds = record {
            inside = with_page-IsInside d n.page_num bytes full;
            decoded =
                rw (page_bytes-with_page_self d n.page_num bytes full)
                  (reads (replicate (d.page_size - length image) 0));
            number = refl;
          };
          kept = λ q ne inside. (
            with_page-IsInside_mono d n.page_num bytes full q inside,
            page_bytes-with_page_ne d n.page_num bytes full q ne inside,
          );
          others = λ q m ne holds. record {
            inside = with_page-IsInside_mono d n.page_num bytes full q holds.inside;
            decoded =
                rw (page_bytes-with_page_ne d n.page_num bytes full q ne holds.inside)
                  holds.decoded;
            number = holds.number;
          };
          rest = record {
            same_options = refl;
            same_meta = refl;
            same_freelist = refl;
            same_capacity = refl;
          };
        }

    -- Where the stream is healthy and the file may grow to the page, a node with a page number that
    -- fits its page is written, and read back as it was; the nodes of the other pages read as before.
    pub get_node-write_node :
        n.page_num ≢ 0
        → (d' : Dal) × (write_node n d ≡ ok n d')
          × (get_node n.page_num d' ≡ ok n d')
          × ((q : ℕ) (m : Node)
              → q ≢ n.page_num
              → HoldsNode d q m
              → (get_node q d ≡ ok m d) × (get_node q d' ≡ ok m d'))
    get_node-write_node numbered =
        let w = write_numbered numbered in
        (
          w.after,
          w.result,
          get_node-HoldsNode w.after n.page_num n w.healthy w.holds,
          λ q m ne holds. (
            get_node-HoldsNode d q m h holds,
            get_node-HoldsNode w.after q m w.healthy (w.others q m ne holds),
          ),
        )
