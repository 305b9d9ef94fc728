-- ===== src/Dal/Startup.antt =====
-- `initialize_database` and `load_database` of core/data_access_layer.cpp.
use toocal.Prelude.{
  ℕ, ◌^◌, ◌≤◌, ◌<◌, ◌≡◌, ◌≢◌, refl, ap, ◌∙◌, List, [], ◌++◌, arith, length, length-append, inl, All,
}
use toocal.Platform.{Platform, default_page_size, length-encode, encode}
use toocal.Effects.{ok}
use toocal.Freelist
use toocal.Freelist.{Freelist, get_next_page}
use toocal.Meta
use toocal.Meta.{Meta}
use toocal.Node.{Node}
use toocal.Node.Serializer.RoundTrip.{IsStorable}
use toocal.Dal.{
  Dal, Options, read_freelist, write_freelist, read_meta, write_meta, initialize_database,
  load_database,
}
use toocal.Dal.Pages.{
  IsHealthy, IsInside, CanHold, page_bytes, with_page, write_page-ok, read_page-ok,
  with_page-IsHealthy, with_page-IsInside, page_bytes-with_page_self, with_page-IsInside_mono,
  page_bytes-with_page_ne,
}
use toocal.Dal.Nodes.{
  padded, length-padded, copy_to_page-ok, HoldsNode, Written, write_numbered, write_node-fresh,
}

-- The page begins with the image, and holds zeros behind it.
pub record HoldsImage (d : Dal) (page_num : ℕ) (image : List ℕ) : Type 0 where
  pub inside : IsInside d page_num
  pub begins : page_bytes d page_num ≡ padded d.page_size image

pub HoldsImage-with_page_self :
    (d : Dal) (page_num : ℕ) (image : List ℕ)
    → length image ≤ d.page_size
    → HoldsImage (with_page d page_num (padded d.page_size image)) page_num image
HoldsImage-with_page_self d page_num image h = record {
  inside = with_page-IsInside d page_num _ (length-padded d.page_size image h);
  begins = page_bytes-with_page_self d page_num _ (length-padded d.page_size image h);
}

pub HoldsImage-with_page_ne :
    (d : Dal) (page_num : ℕ) (bytes : List ℕ)
    → length bytes ≡ d.page_size
    → (q : ℕ) (image : List ℕ) → q ≢ page_num
    → HoldsImage d q image
    → HoldsImage (with_page d page_num bytes) q image
HoldsImage-with_page_ne d page_num bytes full q image ne h = record {
  inside = with_page-IsInside_mono d page_num bytes full q h.inside;
  begins = page_bytes-with_page_ne d page_num bytes full q ne h.inside ∙ h.begins;
}

module _ ⦃p : Platform⦄ where
  pub length-meta_image : (m : Meta) → length (Meta.Codec.image m) ≡ 16
  length-meta_image m = omega (
    arith,
    length-append (encode 8 m.root) (encode 8 m.freelist_page),
    length-encode 8 m.root,
    length-encode 8 m.freelist_page,
  )

  module _ (d : Dal) (h : IsHealthy d) where
    pub write_meta-ok :
        (m : Meta)
        → 16 ≤ d.page_size
        → CanHold d 0
        → write_meta m d ≡ ok tt (with_page d 0 (padded d.page_size (Meta.Codec.image m)))
    unfolding write_meta
    write_meta-ok m fits room =
        let small : length (Meta.Codec.image m) ≤ d.page_size =
          omega (arith, length-meta_image m) in
        rw (
          Meta.Codec.serialize-image m,
          copy_to_page-ok d 0 (Meta.Codec.image m) small,
          write_page-ok d h 0 (padded d.page_size (Meta.Codec.image m))
              (omega (arith, length-padded d.page_size (Meta.Codec.image m) small)),
        )

    pub write_freelist-ok :
        length (Freelist.Codec.image d.freelist) ≤ d.page_size
        → CanHold d d.meta.freelist_page
        → write_freelist d
          ≡ ok tt (
              with_page d d.meta.freelist_page
                (padded d.page_size (Freelist.Codec.image d.freelist)))
    unfolding write_freelist
    write_freelist-ok small room = rw (
      Freelist.Codec.serialize-image d.freelist,
      copy_to_page-ok d d.meta.freelist_page (Freelist.Codec.image d.freelist) small,
      write_page-ok d h d.meta.freelist_page (padded d.page_size (Freelist.Codec.image d.freelist))
          (omega (arith, length-padded d.page_size (Freelist.Codec.image d.freelist) small)),
    )

    -- What a meta page and a freelist page say is what `load_database` takes over.
    pub load_database-HoldsImage :
        (m : Meta) (f : Freelist)
        → m.root < 2 ^ 64
        → m.freelist_page < 2 ^ 64
        → f.max_page < 65536
        → length f.released_pages < 65536
        → All (λ page. page < 2 ^ 64) f.released_pages
        → HoldsImage d 0 (Meta.Codec.image m)
        → HoldsImage d m.freelist_page (Freelist.Codec.image f)
        → load_database d ≡ ok tt (record d { meta = m; freelist = f })
    unfolding load_database read_meta read_freelist
    load_database-HoldsImage m f a b c e g meta_page freelist_page = rw (
      read_page-ok d h 0 meta_page.inside,
      meta_page.begins,
      Meta.Codec.deserialize-image m _ a b,
      read_page-ok (record d { meta = m })
          (record {
            opened = h.opened;
            sound = h.sound;
            within = h.within;
            addressable = h.addressable;
          })
          m.freelist_page freelist_page.inside,
      freelist_page.begins,
      Freelist.Codec.deserialize-image f _ c e g,
    )

  abbrev pub first_freelist : Freelist
  first_freelist = record { max_page = 1; released_pages = [] }

  abbrev pub first_meta : Meta
  first_meta = record { root = 0; freelist_page = 1 }

  abbrev pub first_node : Node
  first_node = record { page_num = 2; items = []; children = [] }

  length-first_freelist : length (Freelist.Codec.image first_freelist) ≡ 4
  unfolding Freelist.Codec.pages_image
  length-first_freelist = omega (
    arith,
    length-append (encode 2 1) (encode 2 0 ++ []),
    length-append (encode 2 0) [],
    length-encode 2 1,
    length-encode 2 0,
  )

  -- A new database: the meta page, the freelist of before the first node, and an empty node.
  pub record IsNew (d d' : Dal) : Type 0 where
    pub healthy : IsHealthy d'
    pub same_options : d'.options ≡ d.options
    pub meta : d'.meta ≡ first_meta
    pub freelist : d'.freelist ≡ record { max_page = 2; released_pages = [] }
    pub meta_page : HoldsImage d' 0 (Meta.Codec.image first_meta)
    pub freelist_page : HoldsImage d' 1 (Freelist.Codec.image first_freelist)
    pub root_page : HoldsNode d' 2 first_node

  module _ (d : Dal) (h : IsHealthy d) (no_root : d.meta.root ≡ 0) (room : CanHold d 2)
      (fits : 16 ≤ d.page_size) (page : default_page_size ≤ d.page_size)
      (least : 4 ≤ default_page_size) (most : default_page_size ≤ 65536) where
    -- On an empty stream that may grow to three pages, `initialize_database` succeeds. The freelist
    -- that it writes does not know of the page of the node that it writes next.
    pub initialize_database-IsNew : (d' : Dal) × (initialize_database d ≡ ok tt d') × IsNew d d'
    unfolding initialize_database get_next_page
    initialize_database-IsNew =
        let d₁ : Dal = record d {
          freelist = first_freelist;
          meta = record d.meta { freelist_page = 1 };
        } in
        let h₁ : IsHealthy d₁ = record {
          opened = h.opened;
          sound = h.sound;
          within = h.within;
          addressable = h.addressable;
        } in
        let small : length (Freelist.Codec.image first_freelist) ≤ d.page_size =
          omega (arith, length-first_freelist) in
        let bytes : List ℕ = padded d.page_size (Freelist.Codec.image first_freelist) in
        let full : length bytes ≡ d.page_size =
          length-padded d.page_size (Freelist.Codec.image first_freelist) small in
        let d₂ : Dal = with_page d₁ 1 bytes in
        let h₂ : IsHealthy d₂ = with_page-IsHealthy d₁ h₁ 1 bytes (omega arith) in
        let d₃ : Dal = record d₂ { freelist = record { max_page = 2; released_pages = [] } } in
        let h₃ : IsHealthy d₃ = record {
          opened = h₂.opened;
          sound = h₂.sound;
          within = h₂.within;
          addressable = h₂.addressable;
        } in
        let storable : IsStorable default_page_size first_node = record {
          short = tt;
          pages = tt;
          shape = inl refl;
          fits = least;
          offsets = most;
        } in
        let w : Written d₃ first_node =
          write_numbered d₃ h₃ first_node storable page room (omega arith) in
        let size : w.after.page_size ≡ d.page_size =
          ap (λ (o : Options). o.page_size) w.rest.same_options in
        let cap = w.rest.same_capacity in
        let meta : w.after.meta ≡ first_meta =
          w.rest.same_meta ∙ ap (λ (r : ℕ). record { root = r; freelist_page = 1 }) no_root in
        let image = Meta.Codec.image first_meta in
        let meta_small : length image ≤ w.after.page_size =
          omega (arith, length-meta_image first_meta) in
        let meta_full = length-padded w.after.page_size image meta_small in
        let kept = w.kept 1 (λ e. cc) (with_page-IsInside d₁ 1 bytes full) in
        let listed : HoldsImage w.after 1 (Freelist.Codec.image first_freelist) = record {
          inside = kept.0;
          begins = kept.1 ∙ page_bytes-with_page_self d₁ 1 bytes full ∙ rw size refl;
        } in
        (
          with_page w.after 0 (padded w.after.page_size image),
          rw
              (
                write_freelist-ok d₁ h₁ small (omega arith),
                write_node-fresh d₂ (record { page_num = 0; items = []; children = [] }) refl
                    (omega arith),
                w.result,
              )
              (ap (λ m. write_meta m w.after) meta
                ∙ write_meta-ok w.after w.healthy first_meta (omega arith) (omega arith)),
          record {
            healthy = with_page-IsHealthy w.after w.healthy 0 _ (omega arith);
            same_options = w.rest.same_options;
            meta = meta;
            freelist = w.rest.same_freelist;
            meta_page = HoldsImage-with_page_self w.after 0 image meta_small;
            freelist_page =
                HoldsImage-with_page_ne w.after 0 _ meta_full 1
                  (Freelist.Codec.image first_freelist) (omega arith) listed;
            root_page = record {
              inside = with_page-IsInside_mono w.after 0 _ meta_full 2 w.holds.inside;
              decoded =
                  rw (page_bytes-with_page_ne w.after 0 _ meta_full 2 (omega arith) w.holds.inside)
                    w.holds.decoded;
              number = refl;
            };
          },
        )
