-- ===== src/Dal/Reopening.antt =====
-- `load_database` of core/data_access_layer.cpp on a database that was used since it was new.
use toocal.Prelude.{ℕ, ◌≤◌, ◌≡◌, ◌≢◌, refl, sym, ap, ◌∙◌, List, arith}
use toocal.Platform.{Platform, default_page_size}
use toocal.Effects.{ok}
use toocal.Freelist
use toocal.Freelist.{Freelist, get_next_page}
use toocal.Meta
use toocal.Meta.{Meta}
use toocal.Node.{Node}
use toocal.Node.Serializer.RoundTrip.{IsStorable}
use toocal.Dal.{Dal, Options, write_node, load_database}
use toocal.Dal.Pages.{IsHealthy, CanHold}
use toocal.Dal.Nodes.{padded, HoldsNode, Written, write_numbered}
use toocal.Dal.Startup.{HoldsImage, load_database-HoldsImage, first_meta, first_freelist}

module _ ⦃p : Platform⦄ where
  Written-HoldsImage :
      (d : Dal) (n : Node) (w : Written d n) (q : ℕ) (image : List ℕ)
      → q ≢ n.page_num
      → HoldsImage d q image
      → HoldsImage w.after q image
  Written-HoldsImage d n w q image ne h =
      let kept = w.kept q ne h.inside in
      record {
        inside = kept.0;
        begins =
            kept.1
            ∙ h.begins
            ∙ ap (λ (o : Options). padded o.page_size image) (sym w.rest.same_options);
      }

  -- What is written behind the first two pages is not recorded in them: when a database whose first
  -- pages are those of a new one has a node written to a page from 2 on and is then opened again,
  -- its root is 0 again, and the next page given out is page 2, in use or not.
  pub load_database-write_node :
      (d : Dal) (n : Node)
      → IsHealthy d
      → IsStorable default_page_size n
      → default_page_size ≤ d.page_size
      → CanHold d n.page_num
      → 2 ≤ n.page_num
      → HoldsImage d 0 (Meta.Codec.image first_meta)
      → HoldsImage d 1 (Freelist.Codec.image first_freelist)
      → (d' : Dal) × (d'' : Dal) × (write_node n d ≡ ok n d')
        × (load_database d' ≡ ok tt d'')
        × HoldsNode d'' n.page_num n
        × (d''.meta.root ≡ 0)
        × ((get_next_page d''.freelist).0 ≡ 2)
  unfolding get_next_page
  load_database-write_node d n h storable page room behind meta_page freelist_page =
      let w : Written d n = write_numbered d h n storable page room (omega arith) in
      let zero_page =
        Written-HoldsImage d n w 0 (Meta.Codec.image first_meta) (omega arith) meta_page in
      let one_page =
        Written-HoldsImage d n w 1 (Freelist.Codec.image first_freelist) (omega arith)
          freelist_page in
      (
        w.after,
        record w.after { meta = first_meta; freelist = first_freelist },
        w.result,
        load_database-HoldsImage w.after w.healthy first_meta first_freelist (omega arith)
            (omega arith) (omega arith) (omega arith) tt zero_page one_page,
        record { inside = w.holds.inside; decoded = w.holds.decoded; number = refl },
        refl,
        refl,
      )
