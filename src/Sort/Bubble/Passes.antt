-- ===== src/Sort/Bubble/Passes.antt =====
-- One pass of the bubble sort: either it finds the words in order, or it ends with the largest of
-- them in place behind its last swap.
use reconos_v.Base.{ℕ, suc, ◌+◌, ◌≤◌, ◌<◌, Bool, true, false, Option, some, arith}
use reconos_v.Base.{List, [], ◌∷◌, ◌++◌, ◌≡◌, refl, ◌⊎◌, inl, inr, ltb, length}
use reconos_v.Base.{Bool-cases, ltb→lt}
use reconos_v.Base.Maybe.{◌>>=◌}
use reconos_v.Sort.Sorted.{
  IsSorted, IsBelow, IsApart, IsBelow-of_le, IsApart-cons, IsSorted-cons, IsSorted-IsBelow,
}
use reconos_v.Sort.Bubble.{Pass, keep, bubble_pass}
use mathlib.Core.List.{Perm, Pairwise-singleton, not-mem-nil}
use mathlib.Core.List.Perm
use native.Mathlib.Nat.{add-zero}

-- A pass over `x ∷ xs` from index `i`, in front of `back`, that swapped last at `i + length low`.
pub record Moved (i x : ℕ) (xs back : List ℕ) (r : Option Pass) : Type 0 where
  pub first : ℕ
  pub low : List ℕ
  pub high : List ℕ
  pub result :
      r
      ≡ some
          record { array = (first ∷ low) ++ (high ++ back); n_new = i + length low; swapped = true }
  pub shorter : length low < length xs
  pub same : Perm (x ∷ xs) ((first ∷ low) ++ high)
  pub sorted : IsSorted high
  pub apart : IsApart (first ∷ low) high
  pub above : IsBelow x high

abbrev pub Settled : (x : ℕ) (xs back : List ℕ) (n_new : ℕ) (swapped : Bool) → Option Pass → Type 0
Settled x xs back n_new swapped r =
    (r ≡ some record { array = (x ∷ xs) ++ back; n_new = n_new; swapped = swapped })
    × IsSorted (x ∷ xs)

Settled-later :
    {x y : ℕ} {xs : List ℕ} (back : List ℕ) {n : ℕ} {s : Bool} {r : Option Pass}
    → x ≤ y
    → Settled y xs back n s r
    → Settled x (y ∷ xs) back n s (r >>= λ p. some (keep x p))
Settled-later back le (e, s) = (rw e refl, IsSorted-cons (IsSorted-IsBelow le s) s)

add-suc-one : (i k : ℕ) → i + 1 + k ≡ i + suc k
add-suc-one i k = omega arith

suc_lt : {a b : ℕ} → a < b → suc a < suc b
suc_lt h = omega arith

module _ {i x y : ℕ} {xs back : List ℕ} where
  -- Prefix a step that swapped, after which the pass found the rest in order.
  Moved-first :
      {r : Option Pass}
      → y ≤ x
      → Settled x xs back i true r
      → Moved i x (y ∷ xs) back (r >>= λ p. some (keep y p))
  Moved-first le (e, s) = record {
    first = y;
    low = [];
    high = x ∷ xs;
    result = rw (e, add-zero) refl;
    shorter = omega arith;
    same = Perm.swap y x xs;
    sorted = s;
    apart = IsApart-cons (IsSorted-IsBelow le s) (λ a m. absurd (not-mem-nil m));
    above = IsSorted-IsBelow (omega arith) s;
  }

  -- Prefix a step after which the pass swapped: `z` is the word that it left behind.
  Moved-later :
      {z c : ℕ} {r : Option Pass}
      → z ≤ c
      → x ≤ c
      → Perm (x ∷ y ∷ xs) (z ∷ c ∷ xs)
      → Moved (i + 1) c xs back r
      → Moved i x (y ∷ xs) back (r >>= λ p. some (keep z p))
  Moved-later {z} le lx perm m = record {
    first = z;
    low = m.first ∷ m.low;
    high = m.high;
    result = rw (m.result, add-suc-one i (length m.low)) refl;
    shorter = suc_lt m.shorter;
    same = Perm.trans perm (Perm.cons z m.same);
    sorted = m.sorted;
    apart = IsApart-cons (IsBelow-of_le le m.above) m.apart;
    above = IsBelow-of_le lx m.above;
  }

-- A test `y < x` that fails leaves `x ≤ y`.
not_ltb : (y x : ℕ) → ltb y x ≡ false → x ≤ y
not_ltb y x e = ground arith

pub bubble_pass-cases :
    (i x : ℕ) (xs back : List ℕ) (n : ℕ) (s : Bool)
    → let r = bubble_pass (length xs) i ((x ∷ xs) ++ back) n s in
      Settled x xs back n s r ⊎ Moved i x xs back r
unfolding bubble_pass
bubble_pass-cases i x [] back n s = inl (refl, Pairwise-singleton _ x)
bubble_pass-cases i x (y ∷ xs) back n s = elim (Bool-cases (ltb y x)) [
  | inl e ↦ rw e (elim (bubble_pass-cases (i + 1) x xs back i true) [
    | inl settled ↦ inr (Moved-first (omega (arith, ltb→lt)) settled)
    | inr moved ↦ inr (Moved-later (omega (arith, ltb→lt)) (omega arith) (Perm.swap y x xs) moved)
  ])
  | inr e ↦ rw e (elim (bubble_pass-cases (i + 1) y xs back n s) [
    | inl settled ↦ inl (Settled-later back (not_ltb y x e) settled)
    | inr moved ↦ inr (Moved-later (not_ltb y x e) (not_ltb y x e) Perm.rfl moved)
  ])
]
