-- ===== src/Sort/Merge/Runs.antt =====
-- `simple_merge` of two sorted runs: it reads only the runs, and writes a sorted permutation.
use reconos_v.Base.{ℕ, suc, ◌+◌, ◌*◌, ◌^◌, ◌≤◌, ◌<◌, true, false, some}
use reconos_v.Base.{
  List, [], ◌∷◌, ◌++◌, ◌≡◌, refl, inl, inr, length, leb, Bool-cases, leb→le, ap, ◌∙◌,
}
use reconos_v.Base.{arith}
use reconos_v.Base.Maybe.{◌>>=◌}
use reconos_v.Sort.Sorted.{
  Sorts, Sorts-cons, IsSorted, IsBelow-append, IsBelow-nil, IsSorted-IsBelow,
}
use reconos_v.Sort.Merge.{from_left, merge_loop, simple_merge}
use mathlib.Core.List.{Pairwise-cons, perm_middle}
use mathlib.Core.List.Perm
use native.Mathlib.Nat.{mod-eq_of_lt, add-suc, suc-add}

-- The three ways in which the test of the loop comes out.
from_left-rest : (b l r : ℕ) (left right : List ℕ) → b ≤ r → from_left b l r left right ≡ some true
unfolding from_left
from_left-rest b l r left right h = ground arith

from_left-out :
    (b l r : ℕ) (left right : List ℕ) → r < b → b ≤ l → from_left b l r left right ≡ some false
unfolding from_left
from_left-out b l r left right hr hl = ground arith

from_left-heads :
    (b l r x y : ℕ) (left right : List ℕ)
    → r < b
    → l < b
    → from_left b l r (x ∷ left) (y ∷ right) ≡ some (leb x y)
unfolding from_left
from_left-heads b l r x y left right hr hl = ground arith

module _ (n b l r : ℕ) where
  take_left :
      (x : ℕ) (left right : List ℕ)
      → from_left b l r (x ∷ left) right ≡ some true
      → merge_loop (suc n) b l r (x ∷ left) right
        ≡ (merge_loop n b (l + 1) r left right >>= λ t. some (x ∷ t))
  unfolding merge_loop
  take_left x left right e = rw e refl

  take_right :
      (y : ℕ) (left right : List ℕ)
      → from_left b l r left (y ∷ right) ≡ some false
      → merge_loop (suc n) b l r left (y ∷ right)
        ≡ (merge_loop n b l (r + 1) left right >>= λ t. some (y ∷ t))
  unfolding merge_loop
  take_right y left right e = rw e refl

not_leb : (x y : ℕ) → leb x y ≡ false → y ≤ x
not_leb x y e = ground arith

merge_loop-Sorts :
    (b l r : ℕ) (xs ys more more' : List ℕ)
    → l + length xs ≡ b
    → r + length ys ≡ b
    → IsSorted xs
    → IsSorted ys
    → Sorts (xs ++ ys) (merge_loop (length xs + length ys) b l r (xs ++ more) (ys ++ more'))
unfolding merge_loop
merge_loop-Sorts b l r [] [] more more' el er sx sy = record {
  out = [];
  result = refl;
  sorted = sx;
  same = Perm.rfl;
}
merge_loop-Sorts b l r (x ∷ xs) [] more more' el er sx sy =
    rw
      (
        suc-add (length xs) 0,
        take_left (length xs + 0) b l r x (xs ++ more) more'
            (from_left-rest b l r (x ∷ xs ++ more) more' (omega arith)),
      )
      (Sorts-cons Perm.rfl (IsBelow-append (Pairwise-cons.0 sx).0 IsBelow-nil)
        (merge_loop-Sorts b (l + 1) r xs [] more more' (omega arith) er (Pairwise-cons.0 sx).1 sy))
merge_loop-Sorts b l r [] (y ∷ ys) more more' el er sx sy =
    rw
      (
        add-suc 0 (length ys),
        take_right (0 + length ys) b l r y more (ys ++ more')
            (from_left-out b l r more (y ∷ ys ++ more') (omega arith) (omega arith)),
      )
      (Sorts-cons Perm.rfl (Pairwise-cons.0 sy).0
        (merge_loop-Sorts b l (r + 1) [] ys more more' el (omega arith) sx (Pairwise-cons.0 sy).1))
merge_loop-Sorts b l r (x ∷ xs) (y ∷ ys) more more' el er sx sy = elim (Bool-cases (leb x y)) [
  | inl e ↦
      rw
        (
          suc-add (length xs) (suc (length ys)),
          take_left (length xs + suc (length ys)) b l r x (xs ++ more) (y ∷ ys ++ more') (
              from_left-heads b l r x y (xs ++ more) (ys ++ more') (omega arith) (omega arith)
              ∙ ap some e),
        )
        (Sorts-cons Perm.rfl
          (IsBelow-append (Pairwise-cons.0 sx).0 (IsSorted-IsBelow (leb→le x y e) sy))
          (merge_loop-Sorts b (l + 1) r xs (y ∷ ys) more more' (omega arith) er
            (Pairwise-cons.0 sx).1 sy))
  | inr e ↦
      rw
        (
          add-suc (suc (length xs)) (length ys),
          take_right (suc (length xs) + length ys) b l r y (x ∷ xs ++ more) (ys ++ more') (
              from_left-heads b l r x y (xs ++ more) (ys ++ more') (omega arith) (omega arith)
              ∙ ap some e),
        )
        (Sorts-cons (perm_middle (x ∷ xs) ys)
          (IsBelow-append (IsSorted-IsBelow (not_leb x y e) sx) (Pairwise-cons.0 sy).0)
          (merge_loop-Sorts b l (r + 1) (x ∷ xs) ys more more' el (omega arith) sx
            (Pairwise-cons.0 sy).1))
]

-- `simple_merge` of two sorted runs of a block each, both of which start a longer buffer.
pub simple_merge-Sorts :
    {b : ℕ} (xs ys more more' : List ℕ)
    → length xs ≡ b
    → length ys ≡ b
    → b * 2 < 2 ^ 32
    → IsSorted xs
    → IsSorted ys
    → Sorts (xs ++ ys) (simple_merge b (xs ++ more) (ys ++ more'))
unfolding simple_merge
simple_merge-Sorts {b} xs ys more more' ex ey bound sx sy =
    rw (mod-eq_of_lt bound, twice b (length xs) (length ys) ex ey)
      (merge_loop-Sorts b 0 0 xs ys more more' (omega arith) (omega arith) sx sy)
  where
    twice : (b m n : ℕ) → m ≡ b → n ≡ b → b * 2 ≡ m + n
    twice b m n e e' = omega arith
