-- ===== src/Tests/CommandLine.antt =====
-- The theorems on cli/main.cpp and on strings at concrete inputs.
use toocal.Prelude.{
  ℕ, ◌+◌, ◌≡◌, ◌⊎◌, ◌↔◌, refl, List, [], ◌∷◌, All, some, true, false, Bool, not, arith,
}
use toocal.Effects.{ok, terminated, undefined_behavior, Outcome}
use toocal.Utils.{bytescmp, memcmp, minus, plus, sizeof_file}
use toocal.Utils.Strings.{memcmp-bytescmp}
use toocal.Tree.Shape.{inorder}
use toocal.Collection.{Collection}
use toocal.CommandLine.{Entry, find_all, find_none, generate, run}
use toocal.CommandLine.Checks.{IsStored, IsGone, checks-exact}
use toocal.Tests.{little_endian, fresh, program}
use toocal.Tests.CollectionRemovals.{four, four_tree, four-IsTree, four-IsSorted}

abbrev entry : ℕ → Entry
entry k = record { key = k ∷ []; value = (k + 100) ∷ [] }

abbrev two_entries : List Entry
two_entries = entry 1 ∷ entry 4 ∷ []

checks-exact_example :
    ((find_all 2 two_entries four ≡ ok tt four) ↔ All (IsStored (inorder four_tree)) two_entries)
    × ((find_all 2 two_entries four ≡ ok tt four) ⊎ (find_all 2 two_entries four ≡ terminated))
    × ((find_none 2 two_entries four ≡ ok tt four) ↔ All (IsGone (inorder four_tree)) two_entries)
    × ((find_none 2 two_entries four ≡ ok tt four) ⊎ (find_none 2 two_entries four ≡ terminated))
checks-exact_example =
    checks-exact four four_tree 2 four-IsTree four-IsSorted (omega arith) two_entries

-- The whole program on two entries: it ends without a fault, and the stream is closed.
ends_well : Outcome Collection (Unit {0}) → Bool
ends_well (ok _ c) = not c.dal.file.is_open
ends_well _ = false

run_two :
    ends_well (run 10 [] (some 640) (generate (λ i. (i + 1) ∷ []) (λ i. (i + 101) ∷ []) 0 2) fresh)
    ≡ true
unfolding ends_well run fresh program sizeof_file
run_two = refl

memcmp-bytescmp_example : memcmp true (1 ∷ 2 ∷ []) (1 ∷ 3 ∷ []) ≡ bytescmp (1 ∷ 2 ∷ []) (1 ∷ 3 ∷ [])
memcmp-bytescmp_example =
    memcmp-bytescmp true (1 ∷ 2 ∷ []) (1 ∷ 3 ∷ [])
      (λ e. ((omega arith, (omega arith, tt)), (omega arith, (omega arith, tt))))

-- Where `char` is signed, a byte from 128 on comes before the others.
memcmp_signed : (memcmp true (200 ∷ []) (1 ∷ []) ≡ minus) × (bytescmp (200 ∷ []) (1 ∷ []) ≡ plus)
unfolding memcmp bytescmp
memcmp_signed = (refl, refl)

-- With three entries the first removal leaves the left leaf empty, which is not under-populated under
-- these options, and the second one takes the last item of that leaf for the one in the root.
run_three :
    run 10 [] (some 640) (generate (λ i. (i + 1) ∷ []) (λ i. (i + 101) ∷ []) 0 3) fresh
    ≡ undefined_behavior
unfolding run fresh program
run_three = refl
