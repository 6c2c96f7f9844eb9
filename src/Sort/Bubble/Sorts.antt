-- ===== src/Sort/Bubble/Sorts.antt =====
-- The bubble sort stops within its bound, stays inside the array, and leaves it in order.
use mathlib.Core.Path.{subst}
use reconos_v.Base.{ℕ, zero, suc, ◌+◌, ◌-◌, ◌^◌, ◌%◌, ◌<◌, false, Option}
use reconos_v.Base.{List, [], ◌∷◌, ◌++◌, ◌≡◌, refl, sym, inl, inr, length}
use reconos_v.Base.{arith, append_assoc, append-nil}
use reconos_v.Sort.Sorted.{
  Sorts, Sorts-perm, IsSorted, IsApart, IsApart-nil, IsApart-append, IsSorted-append,
}
use reconos_v.Sort.Bubble.{Pass, bubble_loop, bubblesort}
use reconos_v.Sort.Bubble.Passes.{Moved, bubble_pass-cases}
use mathlib.Core.List.{Perm, mem-append_left, mem-append_right}
use mathlib.Core.List.Pairwise
use mathlib.Core.List.Perm
use native.Mathlib.Nat.{zero-add}

-- The words that a pass left behind its last swap join those that were in place before it.
module _ {i x : ℕ} {xs back : List ℕ} {r : Option Pass} (m : Moved i x xs back r) where
  pub low-IsApart : IsApart (x ∷ xs) back → IsApart (m.first ∷ m.low) (m.high ++ back)
  low-IsApart h =
      IsApart-append m.apart
        λ z in_low. h z ((Perm.mem_iff (Perm.symm m.same)).0 (mem-append_left m.high in_low))

  pub high-IsSorted : IsSorted back → IsApart (x ∷ xs) back → IsSorted (m.high ++ back)
  high-IsSorted s h = IsSorted-append m.sorted s λ z in_high.
      h z ((Perm.mem_iff (Perm.symm m.same)).0 (mem-append_right (m.first ∷ m.low) in_high))

  pub moved-perm : Perm ((x ∷ xs) ++ back) ((m.first ∷ m.low) ++ (m.high ++ back))
  moved-perm = rw (sym (append_assoc (m.first ∷ m.low) m.high back)) (Perm.append_right back m.same)

bubble_loop-Sorts :
    (fuel : ℕ) (x : ℕ) (xs back : List ℕ)
    → length xs < fuel
    → IsSorted back
    → IsApart (x ∷ xs) back
    → Sorts ((x ∷ xs) ++ back) (bubble_loop fuel (length xs) ((x ∷ xs) ++ back))
unfolding bubble_loop
bubble_loop-Sorts zero x xs back lt s h = absurd (omega arith)
bubble_loop-Sorts (suc fuel) x xs back lt s h =
    elim (bubble_pass-cases 0 x xs back (length xs) false) [
      | inl (e, sorted) ↦ record {
        out = (x ∷ xs) ++ back;
        result = rw e refl;
        sorted = IsSorted-append sorted s h;
        same = Perm.rfl;
      }
      | inr m ↦ Sorts-perm (moved-perm m) (
          rw (m.result, zero-add)
            (bubble_loop-Sorts fuel m.first m.low (m.high ++ back) (omega (arith, m.shorter))
              (high-IsSorted m s h) (low-IsApart m h)))
    ]

len-1 : (n : ℕ) → suc n < 2 ^ 32 → (suc n + 2 ^ 32 - 1) % 2 ^ 32 ≡ n
len-1 n h = omega arith

-- For an array that is not empty and has fewer than 2^32 words, `bubblesort` ends within one pass
-- more than it has words, accesses no word outside the array, and leaves an ascending permutation
-- of it.
pub bubblesort-Sorts :
    (array : List ℕ)
    → 0 < length array
    → length array < 2 ^ 32
    → Sorts array (bubblesort array (length array))
unfolding bubblesort
bubblesort-Sorts [] some_word bound = absurd (omega arith)
bubblesort-Sorts (x ∷ xs) some_word bound =
    let all =
      bubble_loop-Sorts (suc (length xs) + 1) x xs [] (omega arith) Pairwise.nil IsApart-nil in
    rw (len-1 (length xs) bound) (
      subst (λ a. Sorts a (bubble_loop (suc (length xs) + 1) (length xs) a)) (append-nil (x ∷ xs))
        all)
