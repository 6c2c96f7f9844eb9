-- ===== src/Sort/Demo/Block.antt =====
-- `sort_thread` on one block of the buffer: it sorts that block and leaves the others.
use reconos_v.Base.{ℕ, ◌+◌, ◌*◌, ◌-◌, ◌/◌, ◌%◌, ◌^◌, ◌<◌, some, List, ◌++◌, ◌≡◌}
use reconos_v.Base.{◌∙◌, sym, ap, length, take, drop, arith}
use mathlib.Core.Path.{subst}
use reconos_v.Sort.Sorted.{Sorts, IsSorted, length-perm}
use reconos_v.Sort.Bubble.{bubblesort}
use reconos_v.Sort.Bubble.Sorts.{bubblesort-Sorts}
use reconos_v.Base.{drop-append, take-append}
use reconos_v.Sort.Merge.Blocks.{write_at-append}
use reconos_v.Sort.Demo.{block_words, block_size, sort_block}
use mathlib.Core.List.{Perm}

module _ (address i : ℕ) (before x after : List ℕ) (eb : length before ≡ i * block_words)
    (ex : length x ≡ block_words) (mapped : address + i * block_size < 2 ^ 32) where
  block_run : Sorts x (bubblesort x block_words)
  block_run =
      subst (λ n. Sorts x (bubblesort x n)) ex (bubblesort-Sorts x (omega arith) (omega arith))

  length-run : length block_run.out ≡ block_words
  length-run = sym (length-perm block_run.same) ∙ ex

  at_word : ((address + i * block_size) % 2 ^ 32 - address) / 4 ≡ i * block_words
  at_word = omega arith

  at_block : take block_words (drop (i * block_words) (before ++ (x ++ after))) ≡ x
  at_block = ap (take block_words) (drop-append before (x ++ after) eb) ∙ take-append x after ex

  sort_block-run :
      sort_block address ((address + i * block_size) % 2 ^ 32) (before ++ (x ++ after))
      ≡ some (before ++ (block_run.out ++ after))
  unfolding sort_block
  sort_block-run =
      rw (at_word, at_block, block_run.result)
        (write_at-append before block_run.out x after eb (length-run ∙ sym ex))

  -- The block's words are sorted in place.
  pub sort_block_lem :
      (out : List ℕ) × (sort_block address
          ((address + i * block_size) % 2 ^ 32)
          (before ++ (x ++ after))
        ≡ some (before ++ (out ++ after)))
      × (length out ≡ block_words)
      × IsSorted out
      × Perm x out
  sort_block_lem = (block_run.out, sort_block-run, length-run, block_run.sorted, block_run.same)
