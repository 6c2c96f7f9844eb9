-- ===== src/Sort/Sorted.antt =====
-- Ascending lists of words, their parts and their permutations.
use reconos_v.Base.{Option, some, ℕ, ◌≤◌, List, [], ◌∷◌, ◌++◌, ◌≡◌, refl, ap, ◌∙◌, length, suc}
use reconos_v.Base.Maybe.{◌>>=◌}
use mathlib.Core.Logic.Or
use mathlib.Core.List.{Mem, Perm, Pairwise, mem-append, forall_mem-cons, not-mem-nil}
use mathlib.Core.List.{Pairwise-append, Pairwise-cons}
use mathlib.Core.List.{Permᴰ}
use mathlib.Core.List.Perm
use mathlib.Core.Logic.{∥∥₁_elim}
use mathlib.Core.HLevel.{hedberg}
use native.Mathlib.Decide.{ℕ_discrete}
use native.Mathlib.Bridge.{le_prop}
use native.Mathlib.Nat.{le_trans}

abbrev pub IsSorted : List ℕ → Type 0
IsSorted = Pairwise ◌≤◌

-- Nothing in the list is below the word.
abbrev pub IsBelow : ℕ → List ℕ → Type 0
IsBelow a l = (x : ℕ) → Mem x l → a ≤ x

-- Everything in the first list is at most everything in the second.
abbrev pub IsApart : List ℕ → List ℕ → Type 0
IsApart l r = (x : ℕ) → Mem x l → IsBelow x r

pub IsBelow-nil : {a : ℕ} → IsBelow a []
IsBelow-nil x m = absurd (not-mem-nil m)

pub IsBelow-cons : {a b : ℕ} {l : List ℕ} → a ≤ b → IsBelow a l → IsBelow a (b ∷ l)
IsBelow-cons {a} p h = (forall_mem-cons {p = λ x. a ≤ x} (λ x. le_prop)).1 (p, h)

pub IsBelow-uncons : {a b : ℕ} {l : List ℕ} → IsBelow a (b ∷ l) → (a ≤ b) × IsBelow a l
IsBelow-uncons {a} h = (forall_mem-cons {p = λ x. a ≤ x} (λ x. le_prop)).0 h

pub IsBelow-of_le : {a b : ℕ} {l : List ℕ} → a ≤ b → IsBelow b l → IsBelow a l
IsBelow-of_le p h x m = le_trans p (h x m)

pub IsBelow-perm : {a : ℕ} {l r : List ℕ} → Perm l r → IsBelow a r → IsBelow a l
IsBelow-perm p h x m = h x ((Perm.mem_iff p).0 m)

pub IsBelow-append : {a : ℕ} {l r : List ℕ} → IsBelow a l → IsBelow a r → IsBelow a (l ++ r)
IsBelow-append {a} hl hr x m = Or.elim le_prop (mem-append.0 m) (hl x) (hr x)

pub IsApart-nil : {l : List ℕ} → IsApart l []
IsApart-nil x m = IsBelow-nil

pub IsApart-cons : {a : ℕ} {l r : List ℕ} → IsBelow a r → IsApart l r → IsApart (a ∷ l) r
IsApart-cons {r} h rest x m y n =
    (forall_mem-cons {p = λ x. x ≤ y} (λ x. le_prop)).1 (h y n, λ x' m'. rest x' m' y n) x m

pub IsApart-perm : {l l' r : List ℕ} → Perm l l' → IsApart l' r → IsApart l r
IsApart-perm p h x m = h x ((Perm.mem_iff p).0 m)

pub IsApart-append : {l r s : List ℕ} → IsApart l r → IsApart l s → IsApart l (r ++ s)
IsApart-append hr hs x m = IsBelow-append (hr x m) (hs x m)

pub IsSorted-cons : {a : ℕ} {l : List ℕ} → IsBelow a l → IsSorted l → IsSorted (a ∷ l)
IsSorted-cons h s = Pairwise.cons h s

-- The head of an ascending list is below all of it.
pub IsSorted-IsBelow : {a b : ℕ} {l : List ℕ} → a ≤ b → IsSorted (b ∷ l) → IsBelow a (b ∷ l)
IsSorted-IsBelow p s = IsBelow-cons p (IsBelow-of_le p (Pairwise-cons.0 s).0)

pub IsSorted-append : {l r : List ℕ} → IsSorted l → IsSorted r → IsApart l r → IsSorted (l ++ r)
IsSorted-append sl sr h = (Pairwise-append (λ a b. le_prop)).1 (sl, sr, h)

-- The result of a sort of `array`.
pub record Sorts (array : List ℕ) (r : Option (List ℕ)) : Type 0 where
  pub out : List ℕ
  pub result : r ≡ some out
  pub sorted : IsSorted out
  pub same : Perm array out

pub Sorts-perm :
    {array array' : List ℕ} {r : Option (List ℕ)}
    → Perm array array'
    → Sorts array' r
    → Sorts array r
Sorts-perm p rest = record {
  out = rest.out;
  result = rest.result;
  sorted = rest.sorted;
  same = Perm.trans p rest.same;
}

-- A word in front of a sorted list of words that are all at least it.
pub Sorts-cons :
    {a : ℕ} {array rest : List ℕ} {r : Option (List ℕ)}
    → Perm array (a ∷ rest)
    → IsBelow a rest
    → Sorts rest r
    → Sorts array (r >>= λ l. some (a ∷ l))
Sorts-cons {a} p below s = record {
  out = a ∷ s.out;
  result = rw s.result refl;
  sorted = IsSorted-cons (IsBelow-perm (Perm.symm s.same) below) s.sorted;
  same = Perm.trans p (Perm.cons a s.same);
}

pub length-perm : {l r : List ℕ} → Perm l r → length l ≡ length r
length-perm {l} {r} p = ∥∥₁_elim p (hedberg ℕ_discrete (length l) (length r)) length-permᴰ
  where
    length-permᴰ : {l r : List ℕ} → Permᴰ l r → length l ≡ length r
    length-permᴰ Permᴰ.nil = refl
    length-permᴰ (Permᴰ.cons e d) = ap suc (length-permᴰ d)
    length-permᴰ (Permᴰ.swap e e') = refl
    length-permᴰ (Permᴰ.trans d d') = length-permᴰ d ∙ length-permᴰ d'
