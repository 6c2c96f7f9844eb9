-- ===== src/Sort/Merge/Recursion.antt =====
-- `recursive_merge` of 2^k sorted blocks: it stops at depth `k + 1` with all of them merged.
use reconos_v.Base.{ℕ, zero, suc, ◌+◌, ◌*◌, ◌/◌, ◌%◌, ◌^◌, ◌<◌, ◌≤◌, some, List, [], ◌∷◌, ◌++◌}
use reconos_v.Base.{◌≡◌, refl, sym, ap, ◌∙◌, length, length-append, append-nil, arith}
use reconos_v.Base.{true, false, ◌==◌}
use reconos_v.Sort.Sorted.{Sorts, Sorts-perm, length-perm}
use reconos_v.Sort.Merge.{merge_blocks, recursive_merge, simple_merge}
use reconos_v.Sort.Merge.Blocks.{join, IsRuns, Merged, merge_blocks-Merged}
use mathlib.Core.Path.{subst}
use mathlib.Core.List.Perm
use native.Mathlib.Nat.{add-mul, mul-div_cancel, pow-suc, zero-mul}

pub length-join :
    (b : ℕ) (blocks : List (List ℕ)) → IsRuns b blocks → length (join blocks) ≡ length blocks * b
length-join b [] runs = omega arith
length-join b (x ∷ blocks) (e, s, runs) =
    omega
      (arith, length-append x (join blocks), length-join b blocks runs, add-mul 1 (length blocks) b)

two_pow-pos : (k : ℕ) → 0 < 2 ^ k
two_pow-pos zero = omega arith
two_pow-pos (suc k) = omega (arith, pow-suc 2 k, two_pow-pos k)

merge_one :
    (fuel b : ℕ) (source result : List ℕ)
    → length source ≡ b
    → recursive_merge (suc fuel) source result (length source) b simple_merge ≡ some source
unfolding recursive_merge
merge_one fuel zero source result e = rw e refl
merge_one fuel (suc b) source result e = rw (e, same) refl
  where
    same : (suc b == suc b) ≡ true
    same = ground arith

-- An even number of blocks is at least two of them.
two_blocks : (b k : ℕ) → 0 < k → b * 2 ≤ k * 2 * b
two_blocks b zero pos = absurd (omega arith)
two_blocks b (suc k) pos = omega (arith, add-mul 2 (k * 2) b)

pairs : (b k n : ℕ) → n ≡ k * 2 * suc b → (n / suc b + 1) / 2 ≡ k
pairs b k n e = rw (e, mul-div_cancel (k * 2) {n = suc b} (omega arith)) (omega arith)

merge_more :
    (fuel b k : ℕ) (source result : List ℕ) {merged : List ℕ}
    → 0 < b
    → length source ≡ k * 2 * b
    → 0 < k
    → length source < 2 ^ 32
    → merge_blocks k 0 b source result simple_merge ≡ some merged
    → recursive_merge (suc fuel) source result (length source) b simple_merge
      ≡ recursive_merge fuel merged source (length source) (b * 2) simple_merge
unfolding recursive_merge
merge_more fuel zero k source result block e pos bound m = absurd (omega arith)
merge_more fuel (suc b) k source result block e pos bound m =
    rw (differs (two_blocks (suc b) k pos), pairs b k (length source) e, m, wraps) refl
  where
    differs : suc b * 2 ≤ k * 2 * suc b → (length source == suc b) ≡ false
    differs two = ground arith

    wraps : suc b * 2 % 2 ^ 32 ≡ suc b * 2
    wraps = omega (arith, two_blocks (suc b) k pos)

-- For 2^k ascending blocks of b words, b not 0, fewer than 2^32 words in all, and a second buffer as
-- long, `recursive_merge` ends at depth k + 1, stays inside both buffers, and returns an ascending
-- permutation of all the words.
pub recursive_merge-Sorts :
    (k b : ℕ) (blocks : List (List ℕ)) (result : List ℕ)
    → 0 < b
    → length blocks ≡ 2 ^ k
    → IsRuns b blocks
    → length result ≡ length (join blocks)
    → length (join blocks) < 2 ^ 32
    → Sorts
        (join blocks)
        (recursive_merge (suc k) (join blocks) result (length (join blocks)) b simple_merge)
recursive_merge-Sorts zero b [] result block n runs er bound = absurd (omega arith)
recursive_merge-Sorts zero b (x ∷ y ∷ blocks) result block n runs er bound = absurd (omega arith)
recursive_merge-Sorts zero b (x ∷ []) result block n (e, s, u) er bound = record {
  out = x ++ [];
  result = merge_one 0 b (x ++ []) result (ap length (append-nil x) ∙ e);
  sorted = rw (append-nil x) s;
  same = Perm.rfl;
}
recursive_merge-Sorts (suc k) b blocks result block n runs er bound =
    subst (Sorts (join blocks))
      (sym (
        merge_more (suc k) b (2 ^ k) (join blocks) result block size (two_pow-pos k) bound
          m.result))
      (Sorts-perm m.same (
        subst
          (λ l.
            Sorts (join m.blocks)
              (recursive_merge (suc k) (join m.blocks) (join blocks) l (b * 2) simple_merge))
          (sym same_size)
          (recursive_merge-Sorts k (b * 2) m.blocks (join blocks) (omega arith) m.count m.runs
            same_size (omega (arith, same_size)))))
  where
    m :
        Merged b
          (2 ^ k)
          (join blocks)
          []
          (merge_blocks (2 ^ k) 0 b (join blocks) result simple_merge)
    m =
        merge_blocks-Merged b (2 ^ k) 0 blocks [] [] result (n ∙ pow-suc 2 k) runs
          (omega (arith, zero-mul b)) (omega (arith, zero-mul b)) er (omega arith)

    same_size : length (join blocks) ≡ length (join m.blocks)
    same_size = length-perm m.same

    size : length (join blocks) ≡ 2 ^ k * 2 * b
    size = length-join b blocks runs ∙ ap (λ l. l * b) (n ∙ pow-suc 2 k)
