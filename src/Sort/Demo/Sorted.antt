-- ===== src/Sort/Demo/Sorted.antt =====
-- The merge of the blocks that the sort threads leave.
use reconos_v.Base.{ℕ, suc, ◌*◌, ◌^◌, ◌<◌, List, [], ◌∷◌}
use reconos_v.Base.{◌≡◌, ◌∙◌, ap, length, arith}
use reconos_v.Sort.Sorted.{Sorts}
use reconos_v.Sort.Merge.{recursive_merge, simple_merge}
use reconos_v.Sort.Merge.Blocks.{join, IsRuns}
use reconos_v.Sort.Merge.Recursion.{recursive_merge-Sorts, length-join}
use reconos_v.Sort.Demo.{block_words}
use mathlib.Core.Path.{subst}

-- Blocks of the length that a thread sorts.
abbrev pub IsCut : List (List ℕ) → Type 0
IsCut [] = Unit
IsCut (x ∷ blocks) = (length x ≡ block_words) × IsCut blocks

pub merge_outs :
    (j n : ℕ) (outs : List (List ℕ)) (temp : List ℕ)
    → IsRuns block_words outs
    → length outs ≡ n
    → n ≡ 2 ^ j
    → length temp ≡ length (join outs)
    → n * block_words < 2 ^ 32
    → Sorts
        (join outs)
        (recursive_merge (suc j) (join outs) temp (n * block_words) block_words simple_merge)
merge_outs j n outs temp runs counted e et bound =
    let size : length (join outs) ≡ n * block_words =
      length-join block_words outs runs ∙ ap (λ k. k * block_words) counted in
    subst
      (λ l. Sorts (join outs) (recursive_merge (suc j) (join outs) temp l block_words simple_merge))
      size
      (recursive_merge-Sorts j block_words outs temp (omega arith) (counted ∙ e) runs et
        (omega arith))
