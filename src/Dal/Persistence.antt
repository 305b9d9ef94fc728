-- ===== src/Dal/Persistence.antt =====
-- `write_freelist`, `write_meta` and `load_database` of core/data_access_layer.cpp: what is written
-- is what a later start takes over.
use toocal.Prelude.{ℕ, ◌^◌, ◌≤◌, ◌<◌, ◌≡◌, ◌≢◌, refl, List, arith, length, All}
use toocal.Platform.{Platform}
use toocal.Effects.{ok, ◌>>◌}
use toocal.Freelist
use toocal.Freelist.{Freelist}
use toocal.Meta
use toocal.Meta.{Meta}
use toocal.Dal.{Dal, write_freelist, write_meta, load_database}
use toocal.Dal.Pages.{IsHealthy, CanHold, with_page, with_page-IsHealthy}
use toocal.Dal.Nodes.{padded, length-padded}
use toocal.Dal.Startup.{
  HoldsImage-with_page_self, HoldsImage-with_page_ne, length-meta_image, write_meta-ok,
  write_freelist-ok, load_database-HoldsImage,
}

module _ ⦃p : Platform⦄ where
  -- A store whose meta and freelist fit their pages and their fields.
  pub record IsSavable (d : Dal) : Type 0 where
    pub root : d.meta.root < 2 ^ 64
    pub freelist_page : d.meta.freelist_page < 2 ^ 64
    pub apart : d.meta.freelist_page ≢ 0
    pub max_page : d.freelist.max_page < 65536
    pub count : length d.freelist.released_pages < 65536
    pub pages : All (λ page. page < 2 ^ 64) d.freelist.released_pages
    pub freelist_fits : length (Freelist.Codec.image d.freelist) ≤ d.page_size
    pub meta_fits : 16 ≤ d.page_size
    pub meta_room : CanHold d 0
    pub freelist_room : CanHold d d.meta.freelist_page

  -- On a healthy store whose meta and freelist fit, writing both succeeds, and a start on the file
  -- that this leaves takes over the same meta and the same freelist, whatever they were in memory.
  pub load_database-saved :
      (d : Dal)
      → IsHealthy d
      → IsSavable d
      → (d' : Dal) × ((write_freelist >> write_meta d.meta) d ≡ ok tt d')
        × ((m : Meta) (f : Freelist)
            → load_database (record d' { meta = m; freelist = f }) ≡ ok tt d')
        × (d'.meta ≡ d.meta)
        × (d'.freelist ≡ d.freelist)
  load_database-saved d h s =
      let listed : List ℕ = padded d.page_size (Freelist.Codec.image d.freelist) in
      let listed_full =
        length-padded d.page_size (Freelist.Codec.image d.freelist) s.freelist_fits in
      let d₁ : Dal = with_page d d.meta.freelist_page listed in
      let h₁ =
        with_page-IsHealthy d h d.meta.freelist_page listed (omega (arith, s.freelist_room)) in
      let image : List ℕ = Meta.Codec.image d.meta in
      let small : length image ≤ d.page_size =
        omega (arith, length-meta_image d.meta, s.meta_fits) in
      let full = length-padded d.page_size image small in
      let d₂ : Dal = with_page d₁ 0 (padded d.page_size image) in
      let h₂ =
        with_page-IsHealthy d₁ h₁ 0 (padded d.page_size image) (omega (arith, s.meta_room)) in
      let meta_page = HoldsImage-with_page_self d₁ 0 image small in
      let freelist_page =
        HoldsImage-with_page_ne d₁ 0 (padded d.page_size image) full d.meta.freelist_page
          (Freelist.Codec.image d.freelist) s.apart
          (HoldsImage-with_page_self d d.meta.freelist_page (Freelist.Codec.image d.freelist)
            s.freelist_fits) in
      (
        d₂,
        rw (
          write_freelist-ok d h s.freelist_fits s.freelist_room,
          write_meta-ok d₁ h₁ d.meta s.meta_fits s.meta_room,
        ),
        λ m f.
            load_database-HoldsImage (record d₂ { meta = m; freelist = f })
              (record {
                opened = h₂.opened;
                sound = h₂.sound;
                within = h₂.within;
                addressable = h₂.addressable;
              })
              d.meta d.freelist s.root s.freelist_page s.max_page s.count s.pages
              (record { inside = meta_page.inside; begins = meta_page.begins })
              (record { inside = freelist_page.inside; begins = freelist_page.begins }),
        refl,
        refl,
      )
