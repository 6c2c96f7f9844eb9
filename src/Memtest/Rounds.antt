-- ===== src/Memtest/Rounds.antt =====
-- One burst of the hardware thread, for all positions of its two buffers.
use reconos_v.Base.{ℕ, ◌+◌, ◌*◌, ◌-◌, ◌%◌, ◌^◌, ◌≤◌, ◌<◌, List, ◌≡◌, refl, ◌⊎◌, inl, inr}
use reconos_v.Base.{arith, get_or, length, Bool-cases, ltb, ltb→lt, false, if◌then◌else◌}
use reconos_v.Memtest.{copy_loop}
use reconos_v.Memtest.Bursts.{copy_loop-Copied}
use reconos_v.Memtest.Cells.{
  Next, longer, again, Even, Odd, Even-skip, Even-forth, Even-back, Odd-skip, Odd-forth, Odd-back,
}
use native.Mathlib.Nat.{mul-add, add-mul, mul-one, one-mul}

abbrev pub Cell : (size pos cyc rem t x y : ℕ) → Type 0
Cell size pos cyc rem t x y =
    ((pos % 2 ≡ 0) × Even pos cyc rem ((size - pos) * cyc) t x y)
    ⊎ ((pos % 2 ≡ 1) × Odd pos cyc rem ((size - pos) * cyc) t x y)

-- All positions of the two buffers, from `a` on and behind it, before burst `t`.
abbrev pub Cells : (size cyc rem t a : ℕ) → List ℕ → Type 0
Cells size cyc rem t a mem =
    (pos : ℕ)
    → pos < size
    → Cell size pos cyc rem t (get_or mem (a + pos) 0) (get_or mem (a + size + pos) 0)

-- The counters after the next burst, for all positions.
pub record Counters (size cyc rem : ℕ) : Type 0 where
  pub cyc' : ℕ
  pub rem' : ℕ
  pub inside : rem' < size
  pub blen : (if ltb (rem + 1) size then rem + 1 + 1 else 1) ≡ rem' + 1
  pub bursts : cyc' * size + rem' ≡ cyc * size + rem + 1
  pub next : (pos : ℕ) → Next size pos cyc rem ((size - pos) * cyc) cyc' rem' ((size - pos) * cyc')

pub count : (size cyc rem : ℕ) → rem < size → Counters size cyc rem
count size cyc rem h = elim (Bool-cases (ltb (rem + 1) size)) [
  | inl e ↦ record {
    cyc' = cyc;
    rem' = rem + 1;
    inside = ltb→lt _ _ e;
    blen = rw e refl;
    bursts = omega arith;
    next = λ pos. longer (ltb→lt _ _ e) refl refl refl;
  }
  | inr e ↦ record {
    cyc' = cyc + 1;
    rem' = 0;
    inside = omega arith;
    blen = rw e (omega arith);
    bursts = omega (arith, add-mul cyc 1 size, one-mul size, full e);
    next = λ pos.
        again (full e) refl refl (omega (arith, mul-add (size - pos) cyc 1, mul-one (size - pos)));
  }
]
  where
    full : ltb (rem + 1) size ≡ false → rem + 1 ≡ size
    full e = ground arith

-- The buffer that a burst reads and the one that it writes
abbrev pub Turn : (size t a x y : ℕ) → Type 0
Turn size t a x y =
    ((t % 2 ≡ 0) × (x ≡ a) × (y ≡ a + size)) ⊎ ((t % 2 ≡ 1) × (x ≡ a + size) × (y ≡ a))

reached : {m n : ℕ} → ltb m n ≡ false → n ≤ m
reached e = ground arith

module _ {size cyc rem : ℕ} (t a : ℕ) (mem : List ℕ) (k : Counters size cyc rem) where
  skip :
      {pos x y : ℕ}
      → pos < size
      → rem < pos
      → Cell size pos cyc rem t x y
      → Cell size pos k.cyc' k.rem' (t + 1) x y
  skip {pos} {x} {y} lt h (inl (o, v)) = inl (o, Even-skip t x y lt (k.next pos) h v)
  skip {pos} {x} {y} lt h (inr (o, v)) = inr (o, Odd-skip t x y lt (k.next pos) h v)

  forth :
      rem < size
      → t % 2 ≡ 0
      → t < 2 ^ 31
      → a + size + size ≤ length mem
      → Cells size cyc rem t a mem
      → Cells size k.cyc' k.rem' (t + 1) a (copy_loop (rem + 1) 0 a (a + size) mem)
  forth h d small fits cells pos lt =
      let c = copy_loop-Copied (rem + 1) 0 a (a + size) mem (inl (omega arith)) (omega arith) in
      rw (c.below (a + pos) (omega arith)) (elim (Bool-cases (ltb rem pos)) [
        | inl e ↦
            rw (c.above (a + size + pos) (omega (arith, ltb→lt _ _ e)))
              (skip lt (ltb→lt _ _ e) (cells pos lt))
        | inr e ↦
            rw (c.written pos (omega arith) (omega (arith, reached e)))
              (hit (reached e) (cells pos lt))
      ])
    where
      hit :
          {x y : ℕ}
          → pos ≤ rem
          → Cell size pos cyc rem t x y
          → Cell size pos k.cyc' k.rem' (t + 1) x ((x + 1) % 2 ^ 32)
      hit {x} {y} h' (inl (o, v)) = inl (o, Even-forth t x y lt (k.next pos) h' o d small v)
      hit {x} {y} h' (inr (o, v)) = inr (o, Odd-forth t x y lt (k.next pos) h' o d small v)

  back :
      rem < size
      → t % 2 ≡ 1
      → t < 2 ^ 31
      → a + size + size ≤ length mem
      → Cells size cyc rem t a mem
      → Cells size k.cyc' k.rem' (t + 1) a (copy_loop (rem + 1) 0 (a + size) a mem)
  back h d small fits cells pos lt =
      let c = copy_loop-Copied (rem + 1) 0 (a + size) a mem (inr (omega arith)) (omega arith) in
      rw (c.above (a + size + pos) (omega arith)) (elim (Bool-cases (ltb rem pos)) [
        | inl e ↦
            rw (c.above (a + pos) (omega (arith, ltb→lt _ _ e)))
              (skip lt (ltb→lt _ _ e) (cells pos lt))
        | inr e ↦
            rw (c.written pos (omega arith) (omega (arith, reached e)))
              (hit (reached e) (cells pos lt))
      ])
    where
      hit :
          {x y : ℕ}
          → pos ≤ rem
          → Cell size pos cyc rem t x y
          → Cell size pos k.cyc' k.rem' (t + 1) ((y + 1) % 2 ^ 32) y
      hit {x} {y} h' (inl (o, v)) = inl (o, Even-back t x y lt (k.next pos) h' o d small v)
      hit {x} {y} h' (inr (o, v)) = inr (o, Odd-back t x y lt (k.next pos) h' o d small v)

  pub burst :
      {x y : ℕ}
      → Turn size t a x y
      → rem < size
      → t < 2 ^ 31
      → a + size + size ≤ length mem
      → Cells size cyc rem t a mem
      → Cells size k.cyc' k.rem' (t + 1) a (copy_loop (rem + 1) 0 x y mem)
        × (length (copy_loop (rem + 1) 0 x y mem) ≡ length mem)
        × ((i : ℕ)
            → (i < a) ⊎ (a + size + size ≤ i)
            → get_or (copy_loop (rem + 1) 0 x y mem) i 0 ≡ get_or mem i 0)
  burst (inl (d, ex, ey)) h small fits cells =
      let c = copy_loop-Copied (rem + 1) 0 a (a + size) mem (inl (omega arith)) (omega arith) in
      rw (ex, ey) (forth h d small fits cells, c.long, outside c.below c.above)
    where
      outside :
          ((i : ℕ)
            → i < a + size + 0
            → get_or (copy_loop (rem + 1) 0 a (a + size) mem) i 0 ≡ get_or mem i 0)
          → ((i : ℕ)
              → a + size + 0 + (rem + 1) ≤ i
              → get_or (copy_loop (rem + 1) 0 a (a + size) mem) i 0 ≡ get_or mem i 0)
          → (i : ℕ) → (i < a) ⊎ (a + size + size ≤ i)
          → get_or (copy_loop (rem + 1) 0 a (a + size) mem) i 0 ≡ get_or mem i 0
      outside b c i (inl o) = b i (omega arith)
      outside b c i (inr o) = c i (omega arith)
  burst (inr (d, ex, ey)) h small fits cells =
      let c = copy_loop-Copied (rem + 1) 0 (a + size) a mem (inr (omega arith)) (omega arith) in
      rw (ex, ey) (back h d small fits cells, c.long, outside c.below c.above)
    where
      outside :
          ((i : ℕ)
            → i < a + 0
            → get_or (copy_loop (rem + 1) 0 (a + size) a mem) i 0 ≡ get_or mem i 0)
          → ((i : ℕ)
              → a + 0 + (rem + 1) ≤ i
              → get_or (copy_loop (rem + 1) 0 (a + size) a mem) i 0 ≡ get_or mem i 0)
          → (i : ℕ) → (i < a) ⊎ (a + size + size ≤ i)
          → get_or (copy_loop (rem + 1) 0 (a + size) a mem) i 0 ≡ get_or mem i 0
      outside b c i (inl o) = b i (omega arith)
      outside b c i (inr o) = c i (omega arith)
