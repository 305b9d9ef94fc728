-- ===== src/Collection.antt =====
-- core/collection.h, core/collection.cpp: a collection of items in the tree below a root page.
pub mod Find
pub mod Termination
pub mod Insert
pub mod First
pub mod Path
pub mod LeafWrite
pub mod Put
pub mod RootSplit
pub mod WaySplit
pub mod InnerPath
pub mod InnerRemove
pub mod Inserting
pub mod Remove
pub mod Removing
pub mod Missing
pub mod OnlyChild
pub mod PutBack
pub mod Lookup
pub mod Failure
pub mod Empty
use toocal.Prelude.{
  ℕ, zero, suc, ◌+◌, ◌-◌, Bool, true, false, Option, none, some, List, [], ◌∷◌, ◌++◌, length,
  get_elem?, insert_idx, erase_idx, ◌==◌, leb, ltb, if◌then◌else◌, ◌&&◌, not,
}
use toocal.Platform.{Platform}
use toocal.Effects.{
  M, pure, fail, stuck, ◌>>=◌, ◌>>◌, defined, or_panic, get, put_state, Outcome, ok, err,
  terminated, undefined_behavior, out_of_fuel, key_not_found,
}
use toocal.Utils.{Sign, zero_sign, bytescmp}
use toocal.Node.{Item, Node, is_leaf, is_empty, add_item}
use toocal.Dal.{Dal, write_node, get_node, new_node, is_over_populated, is_under_populated}
use toocal.Tree.{
  Found, missing, located, find_key, split, remove_item_from_leaf, remove_item_from_internal,
  rebalance_remove,
}

-- `Collection`, with the store that its `dal` points to. `root` 0 stands for no tree.
pub record Collection : Type 0 where
  pub dal : Dal
  pub name : List ℕ
  pub root : ℕ

-- A call of the store.
abbrev store_result : {A : Type 0} → Collection → Outcome Dal A → Outcome Collection A
store_result c (ok a d) = ok a (record c { dal = d })
store_result c (err e d) = err e (record c { dal = d })
store_result c terminated = terminated
store_result c undefined_behavior = undefined_behavior
store_result c out_of_fuel = out_of_fuel

abbrev pub on_store : {A : Type 0} → M Dal A → M Collection A
on_store m c = store_result c (m c.dal)

abbrev pub set_root : ℕ → M Collection (Unit {0})
set_root page_num c = ok tt (record c { root = page_num })

abbrev is_zero : Sign → Bool
is_zero zero_sign = true
is_zero _ = false

abbrev insert_before : Item → ℕ → Node → Option Node
insert_before item index n =
    if leb index (length n.items)
    then some (record n { items = insert_idx n.items index item })
    else none

-- The node with the item put in. The test reads the key at the index, which may lie behind the last
-- item (`stale` is the key that the memory there holds), and compares it with `key`, which the move
-- into `item` has left empty.
unfoldable pub insert_item : List ℕ → Item → ℕ → Node → Option Node
insert_item stale item index n =
    let old : List ℕ = elim (get_elem? n.items index) [
      | none ↦ stale
      | some present ↦ present.key
    ] in
    if not (is_empty n.items) && is_zero (bytescmp old [])
    then insert_before item index n
    else add_item item index n

module _ ⦃p : Platform⦄ where
  -- The loop of `get_nodes`, from a node on.
  unfoldable pub follow : Node → List ℕ → M Dal (List Node)
  follow n [] = pure []
  follow n (index ∷ indexes) = do
    child ← defined (get_elem? n.children index)
    next ← or_panic (get_node child)
    nodes ← follow next indexes
    pure (next ∷ nodes)

  -- The first index stands for the root itself.
  unfoldable pub get_nodes : ℕ → List ℕ → M Dal (List Node)
  unfolding follow
  get_nodes root [] = do n ← get_node root; pure (n ∷ [])
  get_nodes root (_ ∷ indexes) = do n ← get_node root; nodes ← follow n indexes; pure (n ∷ nodes)

  -- The item that a search result points to.
  abbrev pub item_at : Found → M Collection (Option Item)
  item_at missing = pure none
  item_at (located index n) = do item ← defined (get_elem? n.items index); pure (some item)

  unfoldable pub find : ℕ → List ℕ → M Collection (Option Item)
  find fuel key = do
    c ← get
    root ← on_store (get_node c.root)
    (result, _) ← on_store (find_key fuel key true root)
    item_at result

  -- The loop over the ancestors, from the last pair up. Each node is the copy that was read before
  -- the loop, whatever a split below has written since.
  unfoldable pub split_ancestors : List Node → List ℕ → M Dal (Unit {0})
  split_ancestors (parent ∷ (n ∷ nodes)) (index ∷ (next ∷ indexes)) = do
    split_ancestors (n ∷ nodes) (next ∷ indexes)
    d ← get
    if is_over_populated n d then (do split parent n next; pure tt) else pure tt
  split_ancestors _ _ = pure tt

  unfoldable pub split_root : Node → M Collection (Unit {0})
  split_root root = do
    c ← get
    if is_over_populated root c.dal
        then (do
          new_root ← on_store (new_node [] (root.page_num ∷ []))
          new_root ← on_store (split new_root root 0)
          new_root ← or_panic (on_store (write_node new_root))
          set_root new_root.page_num)
        else pure tt

  unfoldable pub put_at : List ℕ → Item → Found × List ℕ → M Collection (Unit {0})
  unfolding insert_item split_ancestors split_root
  put_at stale item (missing, ancestors) = λ _. terminated
  put_at stale item (located index n, ancestors) = do
    n ← defined (insert_item stale item index n)
    or_panic (on_store (write_node n))
    c ← get
    nodes ← on_store (get_nodes c.root ancestors)
    on_store (split_ancestors nodes ancestors)
    root ← defined (get_elem? nodes 0)
    split_root root

  unfoldable pub put : ℕ → List ℕ → List ℕ → List ℕ → M Collection (Unit {0})
  unfolding put_at
  put fuel stale key value = do
    let item : Item = record { key = key; value = value }
    c ← get
    if c.root == 0
        then (do
          n ← on_store (new_node (item ∷ []) [])
          n ← on_store (write_node n)
          set_root n.page_num)
        else (do
          root ← or_panic (on_store (get_node c.root))
          result ← on_store (find_key fuel key false root)
          put_at stale item result)

  -- The loop over the ancestors of a removal, on copies as well.
  unfoldable pub rebalance_ancestors : List Node → List ℕ → M Dal (Unit {0})
  rebalance_ancestors (parent ∷ (n ∷ nodes)) (index ∷ (next ∷ indexes)) = do
    rebalance_ancestors (n ∷ nodes) (next ∷ indexes)
    d ← get
    if is_under_populated n d then or_panic (rebalance_remove parent n next) else pure tt
  rebalance_ancestors _ _ = pure tt

  -- The root without items gives way to the next node of the path.
  unfoldable pub drop_empty_root : List Node → M Collection (Unit {0})
  drop_empty_root nodes = do
    root ← defined (get_elem? nodes 0)
    if is_empty root.items && not (is_leaf root)
        then (do next ← defined (get_elem? nodes 1); set_root next.page_num)
        else pure tt

  -- The indices of the nodes that the removal of the item went through.
  unfoldable pub remove_item : ℕ → ℕ → Node → List ℕ → M Dal (List ℕ)
  remove_item fuel index n ancestors =
      if is_leaf n then (do remove_item_from_leaf index n; pure ancestors) else (do
        affected ← or_panic (remove_item_from_internal fuel index n)
        pure (ancestors ++ affected))

  unfoldable pub remove_at : ℕ → List ℕ → Found × List ℕ → M Collection (Unit {0})
  unfolding rebalance_ancestors drop_empty_root remove_item
  remove_at fuel key (missing, ancestors) = fail (key_not_found key)
  remove_at fuel key (located index n, ancestors) = do
    ancestors ← on_store (remove_item fuel index n ancestors)
    c ← get
    nodes ← on_store (get_nodes c.root ancestors)
    on_store (rebalance_ancestors nodes ancestors)
    drop_empty_root nodes

  -- The search at the end only logs a warning where the key is still there.
  unfoldable pub remove : ℕ → List ℕ → M Collection (Unit {0})
  unfolding remove_at find
  remove fuel key = do
    c ← get
    root ← on_store (get_node c.root)
    result ← on_store (find_key fuel key true root)
    remove_at fuel key result
    find fuel key
    pure tt
