-- ===== src/Sort/Merge/Blocks.antt =====
-- One pass of `recursive_merge`: it merges the sorted blocks of one buffer in pairs into the other.
use reconos_v.Base.{ℕ, zero, suc, ◌+◌, ◌*◌, ◌%◌, ◌^◌, ◌<◌, Option, some, List, []}
use reconos_v.Base.{◌∷◌, true, leb}
use reconos_v.Base.{◌++◌, ◌≡◌, refl, sym, ap, ◌∙◌, length, take, drop, length-append, append_assoc}
use reconos_v.Base.{length-take, length-drop, drop-append, take-append, take-append-drop, arith}
use reconos_v.Sort.Sorted.{Sorts, IsSorted, length-perm}
use reconos_v.Sort.Merge.{write_at, merge_blocks, simple_merge}
use reconos_v.Sort.Merge.Runs.{simple_merge-Sorts}
use mathlib.Core.Path.{subst, ap₂}
use mathlib.Core.List.{Perm}
use mathlib.Core.List.Perm
use native.Mathlib.Nat.{mod-eq_of_lt, add-mul}

abbrev pub join : List (List ℕ) → List ℕ
join [] = []
join (x ∷ blocks) = x ++ join blocks

-- Sorted blocks of one length.
abbrev pub IsRuns : ℕ → List (List ℕ) → Type 0
IsRuns b [] = Unit
IsRuns b (x ∷ blocks) = (length x ≡ b) × IsSorted x × IsRuns b blocks

-- The words that are written replace as many.
pub write_at-append :
    {k : ℕ} (done words old rest : List ℕ)
    → length done ≡ k
    → length words ≡ length old
    → write_at k words (done ++ (old ++ rest)) ≡ some (done ++ (words ++ rest))
unfolding write_at
write_at-append {k} done words old rest ek ew =
    rw
      (
        in_room,
        take-append done (old ++ rest) ek,
        sym (append_assoc done old rest),
        drop-append (done ++ old) rest reach,
      )
      refl
  where
    reach : length (done ++ old) ≡ k + length words
    reach = omega (arith, length-append done old)

    in_room : leb (k + length words) (length (done ++ (old ++ rest))) ≡ true
    in_room = ground (arith, length-append done (old ++ rest), length-append old rest)

-- What a pass leaves: `done`, which it does not touch, and the merged blocks behind it.
pub record Merged (b k : ℕ) (source done : List ℕ) (r : Option (List ℕ)) : Type 0 where
  pub blocks : List (List ℕ)
  pub result : r ≡ some (done ++ join blocks)
  pub runs : IsRuns (b * 2) blocks
  pub count : length blocks ≡ k
  pub same : Perm source (join blocks)

merge_blocks-step :
    (k i b : ℕ) (source result : List ℕ) {left right words written : List ℕ}
    → drop (i * b % 2 ^ 32) source ≡ left
    → drop ((i + 1) * b % 2 ^ 32) source ≡ right
    → simple_merge b left right ≡ some words
    → write_at (i * b % 2 ^ 32) words result ≡ some written
    → merge_blocks (suc k) i b source result simple_merge
      ≡ merge_blocks k (i + 2) b source written simple_merge
unfolding merge_blocks
merge_blocks-step k i b source result l r m w = rw (l, r, m, w) refl

-- A merged pair in front of the blocks that the rest of the pass leaves.
Merged-cons :
    {b k : ℕ} (x y : List ℕ) {tail done out : List ℕ} {r : Option (List ℕ)}
    → length out ≡ b * 2
    → IsSorted out
    → Perm (x ++ y) out
    → Merged b k tail (done ++ out) r
    → Merged b (suc k) (x ++ (y ++ tail)) done r
Merged-cons x y {tail} {done} {out} len sorted same rest = record {
  blocks = out ∷ rest.blocks;
  result = rest.result ∙ ap some (append_assoc done out (join rest.blocks));
  runs = (len, sorted, rest.runs);
  count = ap suc rest.count;
  same = rw (sym (append_assoc x y tail)) (Perm.append same rest.same);
}

module _ (b k i : ℕ) (x y : List ℕ) (tail before done old : List ℕ) (ex : length x ≡ b)
    (ey : length y ≡ b) (sx : IsSorted x) (sy : IsSorted y) (eb : length before ≡ i * b)
    (ed : length done ≡ i * b) (eo : length old ≡ length (x ++ (y ++ tail)))
    (bound : length before + length (x ++ (y ++ tail)) < 2 ^ 32) where
  lengths : length (x ++ (y ++ tail)) ≡ b * 2 + length tail
  lengths = omega (arith, length-append x (y ++ tail), length-append y tail)

  run : Sorts (x ++ y) (simple_merge b (x ++ (y ++ tail)) (y ++ tail))
  run = simple_merge-Sorts x y (y ++ tail) tail ex ey (omega (arith, lengths)) sx sy

  length-run : length run.out ≡ b * 2
  length-run = omega (arith, length-perm run.same, length-append x y)

  next : length (before ++ x) ≡ (i + 1) * b
  next = omega (arith, length-append before x, add-mul i 1 b)

  here_lt : i * b < 2 ^ 32
  here_lt = omega arith

  next_lt : (i + 1) * b < 2 ^ 32
  next_lt = omega (arith, add-mul i 1 b, length-append x (y ++ tail))

  at_left : drop (i * b % 2 ^ 32) (before ++ (x ++ (y ++ tail))) ≡ x ++ (y ++ tail)
  at_left = rw (mod-eq_of_lt here_lt) (drop-append before (x ++ (y ++ tail)) eb)

  at_right : drop ((i + 1) * b % 2 ^ 32) (before ++ (x ++ (y ++ tail))) ≡ y ++ tail
  at_right =
      rw (mod-eq_of_lt next_lt, sym (append_assoc before x (y ++ tail)))
        (drop-append (before ++ x) (y ++ tail) next)

  replaced : length run.out ≡ length (take (b * 2) old)
  replaced = omega (arith, length-run, length-take (b * 2) old, lengths)

  stored :
      write_at (i * b % 2 ^ 32) run.out (done ++ old) ≡ some (done ++ (run.out ++ drop (b * 2) old))
  stored = rw (mod-eq_of_lt here_lt) (
      ap (λ o. write_at (i * b) run.out (done ++ o)) (sym (take-append-drop (b * 2) old))
      ∙ write_at-append done run.out (take (b * 2) old) (drop (b * 2) old) ed replaced)

  pair-step :
      merge_blocks (suc k) i b (before ++ (x ++ (y ++ tail))) (done ++ old) simple_merge
      ≡ merge_blocks k
          (i + 2)
          b
          ((before ++ (x ++ y)) ++ tail)
          ((done ++ run.out) ++ drop (b * 2) old)
          simple_merge
  pair-step =
      merge_blocks-step k i b (before ++ (x ++ (y ++ tail))) (done ++ old) at_left at_right
        run.result stored
      ∙ ap₂ (λ source result. merge_blocks k (i + 2) b source result simple_merge)
          (ap (λ l. before ++ l) (sym (append_assoc x y tail))
            ∙ sym (append_assoc before (x ++ y) tail))
          (sym (append_assoc done run.out (drop (b * 2) old)))

  room : length (drop (b * 2) old) ≡ length tail
  room = omega (arith, length-drop (b * 2) old, lengths)

  before-on : length (before ++ (x ++ y)) ≡ (i + 2) * b
  before-on = omega (arith, length-append before (x ++ y), length-append x y, add-mul i 2 b)

  done-on : length (done ++ run.out) ≡ (i + 2) * b
  done-on = omega (arith, length-append done run.out, length-run, add-mul i 2 b)

  bound-on : length (before ++ (x ++ y)) + length tail < 2 ^ 32
  bound-on = omega (arith, before-on, lengths, add-mul i 2 b)

  -- The pass over a first pair, with the pass over the rest.
  pair-Merged :
      ((before' done' old' : List ℕ)
        → length before' ≡ (i + 2) * b
        → length done' ≡ (i + 2) * b
        → length old' ≡ length tail
        → length before' + length tail < 2 ^ 32
        → Merged b k tail done'
            (merge_blocks k (i + 2) b (before' ++ tail) (done' ++ old') simple_merge))
      → Merged b
          (suc k)
          (x ++ (y ++ tail))
          done
          (merge_blocks (suc k) i b (before ++ (x ++ (y ++ tail))) (done ++ old) simple_merge)
  pair-Merged rest = subst (Merged b (suc k) (x ++ (y ++ tail)) done) (sym pair-step) (
      Merged-cons x y length-run run.sorted run.same (
        rest (before ++ (x ++ y)) (done ++ run.out) (drop (b * 2) old) before-on done-on room
          bound-on))

module _ (b : ℕ) where
  pub merge_blocks-Merged :
      (k i : ℕ) (blocks : List (List ℕ)) (before done old : List ℕ)
      → length blocks ≡ k * 2
      → IsRuns b blocks
      → length before ≡ i * b
      → length done ≡ i * b
      → length old ≡ length (join blocks)
      → length before + length (join blocks) < 2 ^ 32
      → Merged b k
          (join blocks)
          done
          (merge_blocks k i b (before ++ join blocks) (done ++ old) simple_merge)
  unfolding merge_blocks
  merge_blocks-Merged zero i [] before done [] n runs eb ed eo bound = record {
    blocks = [];
    result = refl;
    runs = runs;
    count = refl;
    same = Perm.rfl;
  }
  merge_blocks-Merged zero i [] before done (o ∷ old) n runs eb ed eo bound = absurd (omega arith)
  merge_blocks-Merged zero i (x ∷ blocks) before done old n runs eb ed eo bound =
      absurd (omega arith)
  merge_blocks-Merged (suc k) i [] before done old n runs eb ed eo bound = absurd (omega arith)
  merge_blocks-Merged (suc k) i (x ∷ []) before done old n runs eb ed eo bound =
      absurd (omega arith)
  merge_blocks-Merged (suc k) i (x ∷ y ∷ blocks) before done old n (ex, sx, (ey, sy, runs)) eb ed eo
        bound =
      pair-Merged b k i x y (join blocks) before done old ex ey sx sy eb ed eo bound
        λ before' done' old'.
          merge_blocks-Merged k (i + 2) blocks before' done' old' (omega arith) runs
