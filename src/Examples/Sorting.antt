-- ===== src/Examples/Sorting.antt =====
-- The sort demo on concrete values.
use reconos_v.Base.{ℕ, ◌==◌, false, ◌≡◌, refl, none, List, [], ◌∷◌, length}
use reconos_v.Base.{arith}
use reconos_v.Sort.Sorted.{Sorts}
use reconos_v.Sort.Bubble.{bubblesort}
use reconos_v.Sort.Bubble.Sorts.{bubblesort-Sorts}
use reconos_v.Sort.Merge.{recursive_merge, merge_pass, simple_merge}
use reconos_v.Sort.Merge.Blocks.{join, IsRuns}
use reconos_v.Sort.Merge.Recursion.{recursive_merge-Sorts}
use reconos_v.Sort.Merge.Odd.{merge_pass-odd}
use mathlib.Core.List.{Pairwise-singleton}

bubblesort_example :
    Sorts
      (3 ∷ 1 ∷ 2 ∷ 1 ∷ [])
      (bubblesort (3 ∷ 1 ∷ 2 ∷ 1 ∷ []) (length {A = ℕ} (3 ∷ 1 ∷ 2 ∷ 1 ∷ [])))
bubblesort_example = bubblesort-Sorts (3 ∷ 1 ∷ 2 ∷ 1 ∷ []) (omega arith) (omega arith)

-- four sorted blocks of one word
abbrev four : List (List ℕ)
four = (7 ∷ []) ∷ (2 ∷ []) ∷ (9 ∷ []) ∷ (2 ∷ []) ∷ []

four-IsRuns : IsRuns 1 four
four-IsRuns = (
  refl,
  Pairwise-singleton _ 7,
  (
    refl,
    Pairwise-singleton _ 2,
    (refl, Pairwise-singleton _ 9, (refl, Pairwise-singleton _ 2, tt)),
  ),
)

recursive_merge_example :
    Sorts
      (join four)
      (recursive_merge 3 (join four) (0 ∷ 0 ∷ 0 ∷ 0 ∷ []) (length (join four)) 1 simple_merge)
recursive_merge_example =
    recursive_merge-Sorts 2 1 four (0 ∷ 0 ∷ 0 ∷ 0 ∷ []) (omega arith) refl four-IsRuns refl
      (omega arith)

merge_pass-odd_example :
    ((length {A = ℕ} (3 ∷ 1 ∷ 2 ∷ []) == 1) ≡ false)
    × (merge_pass (length {A = ℕ} (3 ∷ 1 ∷ 2 ∷ [])) 1 (3 ∷ 1 ∷ 2 ∷ []) (0 ∷ 0 ∷ 0 ∷ []) simple_merge
        ≡ none)
merge_pass-odd_example =
    merge_pass-odd 0 1 (3 ∷ 1 ∷ 2 ∷ []) (0 ∷ 0 ∷ 0 ∷ []) (omega arith) refl (omega arith)
