-- ===== src/Memtest/Agrees.antt =====
-- The words that the hardware thread leaves are those that `simulate` gives.
use reconos_v.Base.{
  ℕ, zero, suc, ◌+◌, ◌*◌, ◌-◌, ◌/◌, ◌%◌, ◌^◌, ◌≤◌, ◌<◌, List, ◌≡◌, refl, ◌∙◌, sym, ap, ◌⊎◌, inl,
  inr,
}
use reconos_v.Base.{arith, get_or, length, Bool-cases, ◌==◌}
use reconos_v.Memtest.{copy_loop, hwt_memaccess, effective, simulate}
use reconos_v.Memtest.Cells.{Even, Odd}
use reconos_v.Memtest.Rounds.{Cell, Cells, Turn, count, burst}
use native.Mathlib.Nat.{
  mul-add-div_right, mul-add-mod_self_right, mod-eq_of_lt, div-eq_of_lt, mul-zero, add-zero,
}
use mathlib.Core.Path.{subst}

-- After `t` bursts: the counters, all positions, and the memory outside the two buffers.
record Done (size a t : ℕ) (mem out : List ℕ) : Type 0 where
  pub cyc : ℕ
  pub rem : ℕ
  pub inside : rem < size
  pub bursts : cyc * size + rem ≡ t
  pub cells : Cells size cyc rem t a out
  pub long : length out ≡ length mem
  pub outside : (i : ℕ) → (i < a) ⊎ (a + size + size ≤ i) → get_or out i 0 ≡ get_or mem i 0

turned : (size t : ℕ) {a x y : ℕ} → Turn size t a x y → Turn size (t + 1) a y x
turned size t (inl (d, ex, ey)) = inr (omega arith, ey, ex)
turned size t (inr (d, ex, ey)) = inl (omega arith, ey, ex)

hwt_memaccess-Done :
    (repeat size cyc rem t a x y : ℕ) (mem : List ℕ)
    → Turn size t a x y
    → rem < size
    → cyc * size + rem ≡ t
    → t + repeat < 2 ^ 31
    → a + size + size ≤ length mem
    → Cells size cyc rem t a mem
    → Done size a (t + repeat + 1) mem (hwt_memaccess repeat (rem + 1) size x y mem)
unfolding hwt_memaccess
hwt_memaccess-Done zero size cyc rem t a x y mem turn h b small fits cells =
    let k = count size cyc rem h in
    let (cells', long, outside) = burst t a mem k turn h (omega arith) fits cells in
    record {
      cyc = k.cyc';
      rem = k.rem';
      inside = k.inside;
      bursts = omega (arith, k.bursts);
      cells =
          subst (λ n. Cells size k.cyc' k.rem' (n + 1) a (copy_loop (rem + 1) 0 x y mem))
            (sym (add-zero t)) cells';
      long = long;
      outside = outside;
    }
hwt_memaccess-Done (suc repeat) size cyc rem t a x y mem turn h b small fits cells =
    let k = count size cyc rem h in
    let (cells', long, outside) = burst t a mem k turn h (omega arith) fits cells in
    let next = copy_loop (rem + 1) 0 x y mem in
    let d =
      hwt_memaccess-Done repeat size k.cyc' k.rem' (t + 1) a y x next (turned size t turn) k.inside
        (omega (arith, k.bursts)) (omega arith) (omega (arith, long)) cells' in
    rw k.blen record {
      cyc = d.cyc;
      rem = d.rem;
      inside = d.inside;
      bursts = omega (arith, d.bursts);
      cells =
          subst (λ n. Cells size d.cyc d.rem n a (hwt_memaccess repeat (k.rem' + 1) size y x next))
            (after t repeat) d.cells;
      long = d.long ∙ long;
      outside = λ i o. d.outside i o ∙ outside i o;
    }
  where
    after : (t r : ℕ) → t + 1 + r + 1 ≡ t + suc r + 1
    after t r = omega arith

cyc-of : (size cyc rem : ℕ) → rem < size → (cyc * size + rem) / size ≡ cyc
cyc-of size cyc rem h =
    mul-add-div_right (omega arith) cyc rem ∙ ap (λ n. cyc + n) (div-eq_of_lt h) ∙ add-zero cyc

rem-of : (size cyc rem : ℕ) → rem < size → (cyc * size + rem) % size ≡ rem
rem-of size cyc rem h = mul-add-mod_self_right cyc size rem ∙ mod-eq_of_lt h

-- What `simulate` counts is what the bursts count.
Even-effective :
    {size pos cyc rem t x y : ℕ}
    → rem < size
    → pos % 2 ≡ 0
    → (v : Even pos cyc rem ((size - pos) * cyc) t x y)
    → effective (cyc * size + rem) pos size ≡ v.e
unfolding effective
Even-effective {size} {pos} {cyc} {rem} h o v =
    rw (cyc-of size cyc rem h, rem-of size cyc rem h, o) (ground (arith, v.counted))

Odd-effective :
    {size pos cyc rem t x y : ℕ}
    → rem < size
    → pos % 2 ≡ 1
    → (v : Odd pos cyc rem ((size - pos) * cyc) t x y) → effective (cyc * size + rem) pos size ≡ v.e
unfolding effective
Odd-effective {size} {pos} {cyc} {rem} h o v =
    rw (cyc-of size cyc rem h, rem-of size cyc rem h, o) (ground (arith, v.counted, v.few))

-- A position's words are those that `simulate` gives.
Cell-simulate :
    {size pos cyc rem t x y : ℕ}
    → rem < size
    → cyc * size + rem ≡ t
    → Cell size pos cyc rem t x y
    → simulate t pos size ≡ (x, y)
unfolding simulate
Cell-simulate h b (inl (o, v)) = rw (sym b, Even-effective h o v, o, sym v.first, sym v.second) refl
Cell-simulate h b (inr (o, v)) = rw (sym b, Odd-effective h o v, o, sym v.first, sym v.second) refl

Cells-zero :
    (size a : ℕ) (mem : List ℕ)
    → ((i : ℕ) → a ≤ i → i < a + size + size → get_or mem i 0 ≡ 0)
    → Cells size 0 0 0 a mem
Cells-zero size a mem clear pos lt =
    rw
      (
        clear (a + pos) (omega arith) (omega arith),
        clear (a + size + pos) (omega arith) (omega arith),
      )
      (elim (Bool-cases (pos % 2 == 0)) [
        | inl e ↦ inl (
          ground arith,
          record {
            e = 0;
            counted = omega (arith, mul-zero (size - pos));
            early = omega arith;
            parity = ground arith;
            first = omega arith;
            second = omega arith;
          },
        )
        | inr e ↦ inr (
          ground arith,
          record {
            e = 0;
            few = omega (arith, mul-zero (size - pos));
            counted = omega (arith, mul-zero (size - pos));
            early = omega (arith, mul-zero (size - pos));
            parity = ground (arith, mul-zero (size - pos));
            first = omega arith;
            second = omega arith;
          },
        )
      ])

-- The same for all positions at once.
pub hwt_memaccess-all :
    (n size a : ℕ) (mem : List ℕ)
    → n < 2 ^ 31
    → 0 < size
    → a + size + size ≤ length mem
    → ((i : ℕ) → a ≤ i → i < a + size + size → get_or mem i 0 ≡ 0)
    → let out = hwt_memaccess n 1 size a (a + size) mem in
      ((pos : ℕ)
        → pos < size
        → simulate (n + 1) pos size ≡ (get_or out (a + pos) 0, get_or out (a + size + pos) 0))
      × (length out ≡ length mem)
      × ((i : ℕ) → (i < a) ⊎ (a + size + size ≤ i) → get_or out i 0 ≡ get_or mem i 0)
hwt_memaccess-all n size a mem small some_words fits clear =
    let d =
      hwt_memaccess-Done n size 0 0 0 a a (a + size) mem (inl (omega arith, refl, refl))
        (omega arith) (omega arith) (omega arith) fits (Cells-zero size a mem clear) in
    (
      λ pos lt.
          ap (λ t. simulate t pos size) (omega arith)
          ∙ Cell-simulate d.inside d.bursts (d.cells pos lt),
      d.long,
      d.outside,
    )
