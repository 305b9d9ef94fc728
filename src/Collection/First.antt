-- ===== src/Collection/First.antt =====
-- `Collection::put` of core/collection.cpp into a collection without a root.
use toocal.Prelude.{ℕ, ◌+◌, ◌≤◌, ◌<◌, ◌≡◌, ◌≢◌, refl, List, [], ◌∷◌, arith, eq→==, inl}
use toocal.Platform.{Platform, default_page_size}
use toocal.Effects.{ok}
use toocal.Freelist.{get_next_page}
use toocal.Node.{Item, Node}
use toocal.Node.Serializer.Cells.{IsShort, cell_bytes}
use toocal.Dal.{Dal, new_node}
use toocal.Dal.Pages.{IsHealthy, CanHold}
use toocal.Dal.Nodes.{Written, write_numbered}
use toocal.Tree.Shape.{leaf}
use toocal.Tree.Order.{find_item}
use toocal.Collection.{Collection, put, find}
use toocal.Collection.Find.{IsTree, find-find_item}

module _ ⦃p : Platform⦄ where
  -- On a healthy store, the first `put` of a short item that fits a page makes the next free page,
  -- which is not 0 and has room, the root page of a tree with that item alone: `find` returns it for
  -- its key, and no item for another key.
  pub put-first :
      (c : Collection) (key value : List ℕ) (fuel : ℕ) (stale : List ℕ)
      → IsHealthy c.dal
      → c.root ≡ 0
      → (get_next_page c.dal.freelist).0 ≢ 0
      → CanHold c.dal (get_next_page c.dal.freelist).0
      → default_page_size ≤ c.dal.page_size
      → default_page_size ≤ 65536
      → IsShort (record { key = key; value = value })
      → 5 + cell_bytes (record { key = key; value = value }) < default_page_size
      → let item : Item = record { key = key; value = value } in
        (c' : Collection) × (put fuel stale key value c ≡ ok tt c')
        × (c'.root ≡ (get_next_page c.dal.freelist).0)
        × (c'.dal.freelist ≡ (get_next_page c.dal.freelist).1)
        × IsTree c' (leaf c'.root (item ∷ []))
        × ((k : List ℕ) → find 1 k c' ≡ ok (find_item k (item ∷ [])) c')
  unfolding put new_node
  put-first c key value fuel stale healthy no_root some_page room page_fits small short fits =
      let item : Item = record { key = key; value = value } in
      let page : ℕ = (get_next_page c.dal.freelist).0 in
      let d : Dal = record c.dal { freelist = (get_next_page c.dal.freelist).1 } in
      let n : Node = record { page_num = page; items = item ∷ []; children = [] } in
      let w : Written d n =
        write_numbered d
          (record {
            opened = healthy.opened;
            sound = healthy.sound;
            within = healthy.within;
            addressable = healthy.addressable;
          })
          n
          (record {
            short = (short, tt);
            pages = tt;
            shape = inl refl;
            fits = omega arith;
            offsets = small;
          })
          page_fits room some_page in
      let c' : Collection = record c { dal = w.after; root = page } in
      let is_tree : IsTree c' (leaf page (item ∷ [])) = record {
        healthy = w.healthy;
        root_page = refl;
        holds = w.holds;
      } in
      (
        c',
        rw (eq→== c.root 0 no_root, w.result),
        refl,
        w.rest.same_freelist,
        is_tree,
        λ k. find-find_item 1 k c' (leaf page (item ∷ [])) is_tree (tt, tt) (omega arith),
      )
