-- ===== src/Collection/WaySplit.antt =====
-- `Collection::put` of core/collection.cpp where the leaf becomes too full and no other node on the way
-- is: the loop over the ancestors splits the leaf.
use toocal.Prelude.{
  ℕ, zero, suc, ◌+◌, ◌<◌, true, false, none, List, [], ◌∷◌, ◌≡◌, refl, sym, ap, ◌∙◌, All, arith,
  inl, inr, ne→==, eq→==, ◌==◌, Bool, subst,
}
use native.Mathlib.Nat.{zero-add}
use toocal.Platform.{Platform}
use toocal.Effects.{ok}
use toocal.Freelist.{get_next_page}
use toocal.Freelist.Allocation.{count}
use toocal.Node.{Item, Node}
use toocal.Dal.{Dal, is_over_populated}
use toocal.Tree.{located, find_key, split}
use toocal.Tree.Shape.{
  BTree, Branches, inner, page_of, node_of, inorder, height, height_branches, HoldsTree,
}
use toocal.Tree.Order.{IsSorted, find_item, search_tree, search_tree-find_item}
use toocal.Tree.Search.{position}
use toocal.Tree.Update.{height-update_tree}
use toocal.Tree.Insertion.{
  inserted, insert_branches, insert_tree, insert_sorted, inorder-insert_tree,
}
use toocal.Tree.Descent.{target, path_below, path_branches, indexes_of, nodes_of}
use toocal.Tree.Placement.{pages, pages-update_tree, find_key_helper-target}
use toocal.Tree.Split.{CanSplit, SplitDone, split_done, grown}
use toocal.Tree.SplitElsewhere.{CanSplit-elsewhere}
use toocal.Tree.Kept.{node_of-page}
use toocal.Tree.WaySplit.{Cut, Turn, turn, split_tree}
use toocal.Tree.WaySplit.Cases.{way_cases}
use toocal.Tree.WaySplit.Order.{
  turn_of, IsCut, at_end, at_next, IsCut-next, inorder-split_tree, height-split_tree,
}
use toocal.Tree.WaySplit.Store.{HoldsTree-split_tree, SplitDone-IsSplit}
use toocal.Collection.{Collection, split_root, split_ancestors, put_at, put}
use toocal.Collection.Find.{IsTree}
use toocal.Collection.Path.{
  insert_item-placed, over_as, indexes_of-update_tree, split_ancestors-calm,
}
use toocal.Collection.LeafWrite.{
  CanUpdate, Updated, way_indexes, update_leaf, root_there, root_number,
}

-- No node of the list is over-populated.
abbrev pub IsCalm : Dal → List Node → Type 0
IsCalm d ns = All (λ n. is_over_populated n d ≡ false) ns

-- No node is but the first with the page.
abbrev pub IsCalmBut : Dal → ℕ → List Node → Type 0
IsCalmBut d page [] = Unit
IsCalmBut d page (n ∷ ns) = elim (n.page_num == page) as (λ _. Type 0) [
  | true ↦ IsCalm d ns
  | false ↦ (is_over_populated n d ≡ false) × IsCalmBut d page ns
]

IsCalmBut-at :
    (d : Dal) (page : ℕ) (n : Node) (ns : List Node) (b : Bool)
    → (n.page_num == page) ≡ b
    → IsCalmBut d page (n ∷ ns)
    → elim b as (λ _. Type 0) [
      | true ↦ IsCalm d ns
      | false ↦ (is_over_populated n d ≡ false) × IsCalmBut d page ns
    ]
IsCalmBut-at d page n ns b e calm =
    subst
      (λ c. elim c as (λ _. Type 0) [
        | true ↦ IsCalm d ns
        | false ↦ (is_over_populated n d ≡ false) × IsCalmBut d page ns
      ])
      e calm

module _ ⦃p : Platform⦄ where
  -- The loop splits the node of the cut.
  split_ancestors-one :
      (d₀ d d' : Dal) (key : List ℕ) (cut : Cut) (m : Node) (fuel i q : ℕ) (bs : Branches)
      → height_branches bs < fuel
      → IsCut key cut q bs
      → d.options ≡ d₀.options
      → d'.options ≡ d.options
      → IsCalmBut d₀ cut.node (nodes_of (path_branches key 0 bs))
      → is_over_populated (node_of (turn_of key cut q bs).child) d₀ ≡ true
      → split
          (turn_of key cut q bs).parent
          (node_of (turn_of key cut q bs).child)
          (turn_of key cut q bs).index
          d
        ≡ ok m d'
      → split_ancestors
          (node_of (inner q bs) ∷ nodes_of (path_branches key 0 bs))
          (i ∷ indexes_of (path_branches key 0 bs))
          d
        ≡ ok tt d'
  unfolding split_ancestors
  split_ancestors-one d₀ d d' key cut m zero i q bs lt c same same' calm over done =
      absurd (omega arith)
  split_ancestors-one d₀ d d' key cut m (suc fuel) i q bs lt c same same' calm over done =
      elim (way_cases key cut bs (node_of (inner q bs)) 0 c.0) [
        | inl end ↦
            let here = at_end key cut q bs end in
            let below =
              IsCalmBut-at d₀ cut.node (node_of end.child) (nodes_of (path_below key end.child))
                true
                (eq→== (node_of end.child).page_num cut.node
                  (sym (node_of-page end.child) ∙ end.is_node))
                (rw (end.path 0) at calm) in
            let over' = rw here at over in
            let done' = rw here at done in
            rw (
              end.path 0,
              split_ancestors-calm d₀ d (node_of end.child) (nodes_of (path_below key end.child))
                  ((0 + end.position) ∷ indexes_of (path_below key end.child)) same below,
              over_as (node_of end.child) d₀ d same,
              over',
              zero-add end.position,
              done',
            )
        | inr go ↦
            let next = at_next key cut q bs go in
            let child = node_of (inner go.number go.branches) in
            let (quiet, below) =
              IsCalmBut-at d₀ cut.node child (nodes_of (path_branches key 0 go.branches)) false
                (ne→== go.number cut.node go.other) (rw (go.path 0) at calm) in
            let rest =
              split_ancestors-one d₀ d d' key cut m fuel (0 + go.position) go.number go.branches
                (omega (arith, go.lower)) (IsCut-next key cut q bs go c) same same' below
                (rw next at over) (rw next at done) in
            rw (go.path 0, rest, over_as child d₀ d' (same' ∙ same), quiet)
      ]

  abbrev pub cut_of : Collection → ℕ → ℕ → Item → Cut
  cut_of c node r middle = record {
    node = node;
    at = r;
    middle = middle;
    page = (get_next_page c.dal.freelist).0;
  }

  -- Where the way comes to the page `node`, with the item in the tree.
  abbrev pub way_to : Item → ℕ → Branches → ℕ → Turn
  way_to item q bs node =
      turn item.key node (node_of (inner q (insert_branches item bs))) 0 (insert_branches item bs)

  -- What a `put` needs so that it splits a node below the root: the leaf can be written with the
  -- item, the node stands on the way then and is over-populated, no other node on the way is, and the
  -- node can be split at `r` into a page that is not in the tree.
  pub record NeedsSplit (c : Collection) (item : Item) (q : ℕ) (bs : Branches) (node r : ℕ)
      (middle : Item) : Type 0 where
    pub can : CanUpdate c item.key (inserted item) (inner q bs)
    pub on_way : page_of (way_to item q bs node).child ≡ node
    pub over : is_over_populated (node_of (way_to item q bs node).child) c.dal ≡ true
    pub root_calm : is_over_populated (node_of (insert_tree item (inner q bs))) c.dal ≡ false
    pub calm : IsCalmBut c.dal node (nodes_of (path_branches item.key 0 (insert_branches item bs)))
    pub can_split :
        CanSplit c.dal
          (way_to item q bs node).parent
          (node_of (way_to item q bs node).child)
          (way_to item q bs node).index
          r
          middle
    pub fresh : count (get_next_page c.dal.freelist).0 (pages (inner q bs)) ≡ 0

  module _ (c : Collection) (q : ℕ) (bs : Branches) (key value : List ℕ)
      (is_tree : IsTree c (inner q bs)) (node r : ℕ) (middle : Item)
      (needs : NeedsSplit c (record { key = key; value = value }) q bs node r middle) (fuel : ℕ)
      (enough : height (inner q bs) < fuel) where
    abbrev item : Item
    item = record { key = key; value = value }

    abbrev bs' : Branches
    bs' = insert_branches item bs

    abbrev cut : Cut
    cut = cut_of c node r middle

    abbrev way : Turn
    way = way_to item q bs node

    updated : Updated c key (inserted item) (inner q bs)
    updated = update_leaf c (inner q bs) key (inserted item) is_tree needs.can fuel enough

    done : SplitDone updated.written.after way.parent (node_of way.child) way.index r middle
    done = split_done (
        CanSplit-elsewhere {d = c.dal} {d' = updated.written.after} updated.written.healthy
          updated.written.rest.same_options updated.written.rest.same_capacity
          updated.written.rest.same_freelist needs.can_split)

    after : Collection
    after = record c { dal = done.after }

    is_cut : IsCut key cut q bs'
    is_cut = (needs.on_way, needs.can_split.middle_item)

    same_pages : (x : ℕ) → count x (pages (inner q bs')) ≡ count x (pages (inner q bs))
    same_pages x = ap (count x) (pages-update_tree key (inserted item) (inner q bs))

    after-HoldsTree : HoldsTree done.after (split_tree key cut (inner q bs'))
    after-HoldsTree =
        HoldsTree-split_tree key cut updated.written.after done.after (suc (height_branches bs')) q
          bs' (omega arith)
          (SplitDone-IsSplit key cut way done
            (ap (λ f. (get_next_page f).0) updated.written.rest.same_freelist))
          is_cut (λ x. let all = needs.can.distinct x in let same = same_pages x in omega arith)
          (same_pages cut.page ∙ needs.fresh) updated.is_tree.holds

    after-IsTree : IsTree after (split_tree key cut (inner q bs'))
    unfolding after
    after-IsTree = record {
      healthy = done.healthy;
      root_page = updated.is_tree.root_page;
      holds = after-HoldsTree;
    }

    split_root-calm : split_root (node_of (inner q bs')) after ≡ ok tt after
    unfolding split_root after
    split_root-calm = rw (
      over_as (node_of (inner q bs')) c.dal done.after
          (done.same_options ∙ updated.written.rest.same_options),
      needs.root_calm,
    )

    put_at-splits :
        (stale : List ℕ)
        → put_at stale item
            (
              located (position key (target key (inner q bs)).items).1 (target key (inner q bs)),
              way_indexes key (inner q bs),
            )
            c
          ≡ ok tt after
    unfolding put_at after
    put_at-splits stale =
        let loop =
          split_ancestors-one c.dal updated.written.after done.after key cut
            (grown way.index middle (get_next_page updated.written.after.freelist).0 way.parent)
            (suc (height_branches bs')) 0 q bs' (omega arith) is_cut
            updated.written.rest.same_options done.same_options needs.calm needs.over done.result in
        rw
          (
            insert_item-placed stale item (target key (inner q bs)),
            updated.written.result,
            updated.nodes,
            sym (indexes_of-update_tree key (inserted item) (inner q bs)),
            loop,
          )
          split_root-calm

    -- On a healthy store whose root page is an inner node and holds a tree with strictly growing
    -- keys, none of them the key, with fuel above its height, where the pages of the tree are not 0
    -- and differ, the image of a node has at most 64 KiB and a page is as large, the leaf on the
    -- way fits its page with the item and has keys and values of at most 255 bytes, and with the
    -- item exactly one node on the way is over-populated, a leaf or an inner node below the root,
    -- which can be split: it has a split index, its two halves and its parent with the middle item
    -- fit their pages with such keys and values, and the next free page is not 0, not in the tree
    -- and has room in the file. Then put succeeds and keeps the root page, which then holds a tree
    -- of the same height whose items are those of before with the new item in its place.
    pub put-splits :
        (stale : List ℕ)
        → IsSorted (inorder (inner q bs))
        → find_item key (inorder (inner q bs)) ≡ none
        → (c' : Collection) × (t' : BTree) × (put fuel stale key value c ≡ ok tt c')
          × (c'.root ≡ c.root)
          × IsTree c' t'
          × (inorder t'
              ≡ insert_sorted (record { key = key; value = value }) (inorder (inner q bs)))
          × (height t' ≡ height (inner q bs))
    unfolding put find_key after
    put-splits stale sorted absent =
        let t : BTree = inner q bs in
        let none_there : search_tree key t ≡ none = search_tree-find_item key t sorted ∙ absent in
        let found =
          find_key_helper-target c.dal fuel key t (0 ∷ []) is_tree.healthy is_tree.holds none_there
            enough in
        (
          after,
          split_tree key cut (inner q bs'),
          rw
              (
                ne→== c.root 0 (root_number c t is_tree needs.can.numbered),
                root_there c t is_tree,
                found,
              )
              (put_at-splits stale),
          refl,
          after-IsTree,
          inorder-split_tree key cut q bs' is_cut ∙ inorder-insert_tree item t sorted,
          height-split_tree key cut q bs' is_cut ∙ height-update_tree key (inserted item) t,
        )
