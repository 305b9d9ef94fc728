-- ===== src/Tree/Rebalance/AfterRotation.antt =====
-- The nodes that a rotation of core/node.cpp leaves, written to their pages: their merge is that of the
-- nodes before.
use toocal.Prelude.{
  ℕ, zero, suc, ◌<◌, some, List, [], ◌∷◌, ◌≡◌, ◌≢◌, refl, sym, ap, ◌∙◌, arith, length, get_elem?,
  set, erase_idx, lt_of_get_elem?,
}
use toocal.Platform.{Platform, default_page_size}
use toocal.Node.{Item, Node, Rotated}
use toocal.Node.Rotation.{IsRotation}
use toocal.Node.Serializer.RoundTrip.{IsStorable}
use toocal.Dal.{Dal}
use toocal.Dal.Pages.{CanHold}
use toocal.Dal.Nodes.{Written, write_numbered}
use toocal.Tree.Split.{CanHold-after}
use toocal.Tree.Merge.{CanMerge, joined, shrunk}

erase_idx-set : (xs : List Item) (j : ℕ) (x : Item) → erase_idx (set xs j x) j ≡ erase_idx xs j
erase_idx-set [] j x = refl
erase_idx-set (y ∷ xs) zero x = refl
erase_idx-set (y ∷ xs) (suc j) x = ap (y ∷◌) (erase_idx-set xs j x)

get_elem?-set :
    (xs : List Item) (j : ℕ) (x : Item) → j < length xs → get_elem? (set xs j x) j ≡ some x
get_elem?-set [] j x h = absurd (omega arith)
get_elem?-set (y ∷ xs) zero x h = refl
get_elem?-set (y ∷ xs) (suc j) x h = get_elem?-set xs j x (omega arith)

module _ {a parent u : Node} {j : ℕ} {r : Rotated} (rot : IsRotation a parent u j r) where
  pub joined-rotated : joined r.anode rot.new r.bnode ≡ joined a rot.old u
  joined-rotated i = record {
    page_num = rot.pages.0 i;
    items = rot.items i;
    children = rot.children i;
  }

  pub shrunk-rotated : shrunk j r.pnode ≡ shrunk j parent
  shrunk-rotated =
      ap (shrunk j) rot.parent
      ∙ ap (λ xs. record parent { items = xs; children = erase_idx parent.children (suc j) })
          (erase_idx-set parent.items j rot.new)

module _ ⦃p : Platform⦄ where
  -- Room for the nodes that a rotation leaves, next to what their merge needs.
  pub record CanRotate (d : Dal) (parent a b : Node) (r : Rotated) : Type 0 where
    pub numbered : b.page_num ≢ 0
    pub apart : (b.page_num ≢ a.page_num) × (b.page_num ≢ parent.page_num)
    pub room : CanHold d b.page_num
    pub left_storable : IsStorable default_page_size r.anode
    pub parent_storable : IsStorable default_page_size r.pnode
    pub right_storable : IsStorable default_page_size r.bnode
    pub same_kind : r.anode.children ≡ [] → r.bnode.children ≡ []

  module _ {d : Dal} {parent a b : Node} {j : ℕ} {separator : Item} {r : Rotated}
      (m : CanMerge d parent a b j separator) (c : CanRotate d parent a b r)
      (rot : IsRotation a parent b j r) where
    pub parent_page : r.pnode.page_num ≡ parent.page_num
    parent_page = ap (λ (n : Node). n.page_num) rot.parent

    pub left_rotated : Written d r.anode
    left_rotated =
        write_numbered d m.healthy r.anode c.left_storable m.page_fits
          (rw rot.pages.0 (omega (arith, m.held.inside, m.healthy.within)))
          (λ e. m.numbered.0 (sym rot.pages.0 ∙ e))

    pub parent_rotated : Written left_rotated.after r.pnode
    parent_rotated =
        write_numbered left_rotated.after left_rotated.healthy r.pnode c.parent_storable
          (rw left_rotated.rest.same_options m.page_fits)
          (CanHold-after left_rotated r.pnode.page_num (rw parent_page m.room))
          (λ e. m.numbered.1 (sym parent_page ∙ e))

    pub right_rotated : Written parent_rotated.after r.bnode
    right_rotated =
        write_numbered parent_rotated.after parent_rotated.healthy r.bnode c.right_storable
          (rw (parent_rotated.rest.same_options, left_rotated.rest.same_options) m.page_fits)
          (CanHold-after parent_rotated r.bnode.page_num
            (CanHold-after left_rotated r.bnode.page_num (rw rot.pages.1 c.room)))
          (λ e. c.numbered (sym rot.pages.1 ∙ e))

    pub rotated-CanMerge :
        separator ≡ rot.old → CanMerge right_rotated.after r.pnode r.anode r.bnode j rot.new
    rotated-CanMerge same = record {
      healthy = right_rotated.healthy;
      left_child = rw (rot.parent, rot.pages.0) m.left_child;
      right_child = rw (rot.parent, rot.pages.1) m.right_child;
      between =
          rw rot.parent (
            get_elem?-set parent.items j rot.new
              (lt_of_get_elem? parent.items j rot.old_separator));
      held =
          right_rotated.others r.anode.page_num r.anode
            (λ e. c.apart.0 (sym rot.pages.1 ∙ sym e ∙ rot.pages.0))
            (parent_rotated.others r.anode.page_num r.anode
              (λ e. m.apart (sym rot.pages.0 ∙ e ∙ parent_page)) left_rotated.holds);
      same_kind = c.same_kind;
      numbered = (λ e. m.numbered.0 (sym rot.pages.0 ∙ e), λ e. m.numbered.1 (sym parent_page ∙ e));
      apart = λ e. m.apart (sym rot.pages.0 ∙ e ∙ parent_page);
      left_storable = rw (joined-rotated rot, ← same) m.left_storable;
      parent_storable = rw (shrunk-rotated rot) m.parent_storable;
      page_fits =
          rw
            (
              right_rotated.rest.same_options, parent_rotated.rest.same_options,
              left_rotated.rest.same_options,
            )
            m.page_fits;
      room = CanHold-after right_rotated r.pnode.page_num (
          CanHold-after parent_rotated r.pnode.page_num
            (CanHold-after left_rotated r.pnode.page_num (rw parent_page m.room)));
    }
