-- ===== src/CommandLine.antt =====
-- cli/main.cpp: the program that fills a collection, looks every item up, removes every item, and looks
-- every key up again. `fmt::format` gives the keys and the values.
pub mod Checks
use toocal.Prelude.{
  ℕ, zero, suc, Bool, true, false, Option, none, some, List, [], ◌∷◌, if◌then◌else◌, ◌==◌,
}
use toocal.Platform.{Platform}
use toocal.Effects.{
  M, pure, terminate, ◌>>=◌, ◌>>◌, or_panic, Outcome, ok, err, terminated, undefined_behavior,
  out_of_fuel,
}
use toocal.Utils.{sizeof_file}
use toocal.Node.{Item}
use toocal.Dal.{close}
use toocal.Dal.BuiltinOptions.{open_default}
use toocal.Collection.{Collection, find, put, remove, on_store}

-- `data_size`
abbrev pub data_size : ℕ
data_size = 1000

-- "collection1"
abbrev collection_name : List ℕ
collection_name = 99 ∷ 111 ∷ 108 ∷ 108 ∷ 101 ∷ 99 ∷ 116 ∷ 105 ∷ 111 ∷ 110 ∷ 49 ∷ []

-- `keys[i]` and `values[i]`
pub record Entry : Type 0 where
  pub key : List ℕ
  pub value : List ℕ

-- The loop that fills `keys` and `values`, from the index `i` on, for `n` rounds.
abbrev pub generate : (ℕ → List ℕ) → (ℕ → List ℕ) → ℕ → ℕ → List Entry
generate key_text value_text i zero = []
generate key_text value_text i (suc n) =
    record { key = key_text i; value = value_text i } ∷ generate key_text value_text (suc i) n

-- `==` of two strings
abbrev pub same_text : List ℕ → List ℕ → Bool
same_text [] [] = true
same_text [] (b ∷ ys) = false
same_text (a ∷ xs) [] = false
same_text (a ∷ xs) (b ∷ ys) = if a == b then same_text xs ys else false

module _ ⦃p : Platform⦄ (fuel : ℕ) where
  -- `stale` is what `put` reads behind the last item of a node.
  unfoldable pub put_all : List ℕ → List Entry → M Collection (Unit {0})
  put_all stale [] = pure tt
  put_all stale (e ∷ entries) = do or_panic (put fuel stale e.key e.value); put_all stale entries

  -- `fatal` where no item, or an item with another key or value was found.
  abbrev pub check_item : Entry → Option Item → M Collection (Unit {0})
  check_item e none = terminate
  check_item e (some item) =
      if same_text e.key item.key
      then (if same_text e.value item.value then pure tt else terminate)
      else terminate

  unfoldable pub find_all : List Entry → M Collection (Unit {0})
  find_all [] = pure tt
  find_all (e ∷ entries) = do item ← or_panic (find fuel e.key); check_item e item; find_all entries

  unfoldable pub remove_all : List Entry → M Collection (Unit {0})
  remove_all [] = pure tt
  remove_all (e ∷ entries) = do or_panic (remove fuel e.key); remove_all entries

  -- `fatal` where an item was found.
  abbrev pub check_removed : Option Item → M Collection (Unit {0})
  check_removed none = pure tt
  check_removed (some item) = terminate

  unfoldable pub find_none : List Entry → M Collection (Unit {0})
  find_none [] = pure tt
  find_none (e ∷ entries) = do
    item ← or_panic (find fuel e.key)
    check_removed item
    find_none entries

  -- The four loops, the size of the file (`stat` gives its bytes, or fails), and the end.
  unfoldable pub run : List ℕ → Option ℕ → List Entry → M Collection (Unit {0})
  unfolding put_all find_all remove_all find_none
  run stale file_bytes entries = do
    put_all stale entries
    find_all entries
    remove_all entries
    find_none entries
    sizeof_file file_bytes
    on_store close

-- `main`, on what stands at the path of the database. The collection has the name `collection1`.
unfoldable pub main :
    ⦃p : Platform⦄
    → (fuel : ℕ) (key_text value_text : ℕ → List ℕ) (stale : List ℕ) (file_bytes : Option ℕ)
    → Option (List ℕ)
    → (opens : Bool) (capacity : ℕ) → Outcome Collection (Unit {0})
unfolding run
main fuel key_text value_text stale file_bytes found opens capacity =
    elim (open_default found opens capacity) [
      | ok _ d ↦
          run fuel stale file_bytes (generate key_text value_text 0 data_size)
            (record { dal = d; name = collection_name; root = d.meta.root })
      | err e d ↦ terminated
      | terminated ↦ terminated
      | undefined_behavior ↦ undefined_behavior
      | out_of_fuel ↦ out_of_fuel
    ]
