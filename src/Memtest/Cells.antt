-- ===== src/Memtest/Cells.antt =====
-- The two words of a position, after each burst of the hardware thread.
use Prim.Native.Nat.{min}
use reconos_v.Base.{ℕ, ◌+◌, ◌*◌, ◌-◌, ◌/◌, ◌%◌, ◌^◌, ◌≤◌, ◌<◌, ◌≡◌, arith}

-- The burst after `cyc` rounds of all lengths and `rem` more: it has `rem + 1` words.
pub data Next (size pos cyc rem p : ℕ) (cyc' rem' p' : ℕ) : Type 0 where
  longer :
      rem + 1 < size → cyc' ≡ cyc → rem' ≡ rem + 1 → p' ≡ p → Next size pos cyc rem p cyc' rem' p'
  again :
      rem + 1 ≡ size
      → cyc' ≡ cyc + 1
      → rem' ≡ 0
      → p' ≡ p + (size - pos)
      → Next size pos cyc rem p cyc' rem' p'

-- The words `x` and `y` of an even position before burst `t`; `p` is what the full rounds wrote.
pub record Even (pos cyc rem p t x y : ℕ) : Type 0 where
  pub e : ℕ
  pub counted : e ≡ p + (rem - pos)
  pub early : e ≤ t
  pub parity : (t + e + (pos - rem)) % 2 ≡ 0
  pub first : x ≡ e / 2 * 2
  pub second : y ≡ (e + 1) / 2 * 2 - 1

-- The same for an odd position, where the first write of a round repeats the last one before it.
pub record Odd (pos cyc rem p t x y : ℕ) : Type 0 where
  pub e : ℕ
  pub few : cyc ≤ p
  pub counted : e + (cyc + min 1 (rem - pos) - 1) ≡ p + (rem - pos)
  pub early : p + (rem - pos) ≤ t
  pub parity : (t + p + (rem - pos) + cyc + 1 + (pos - rem)) % 2 ≡ 0
  pub first : x ≡ (e + 1) / 2 * 2 - 1
  pub second : y ≡ e / 2 * 2

module _ {size pos cyc rem p cyc' rem' p' : ℕ} (t x y : ℕ) (inside : pos < size) where
  pub Even-skip :
      Next size pos cyc rem p cyc' rem' p'
      → rem < pos
      → Even pos cyc rem p t x y
      → Even pos cyc' rem' p' (t + 1) x y
  Even-skip (longer a b c d) h v = record {
    e = v.e;
    counted = omega (arith, v.counted);
    early = omega (arith, v.early);
    parity = omega (arith, v.parity);
    first = v.first;
    second = v.second;
  }
  Even-skip (again a b c d) h v = absurd (omega arith)

  pub Even-forth :
      Next size pos cyc rem p cyc' rem' p'
      → pos ≤ rem
      → pos % 2 ≡ 0
      → t % 2 ≡ 0
      → t < 2 ^ 31
      → Even pos cyc rem p t x y
      → Even pos cyc' rem' p' (t + 1) x ((x + 1) % 2 ^ 32)
  Even-forth n h o d small v = record {
    e = v.e + 1;
    counted = counted n;
    early = omega (arith, v.early);
    parity = parity n;
    first = omega (arith, v.first, v.parity);
    second = omega (arith, v.first, v.parity, v.early);
  }
    where
      counted : Next size pos cyc rem p cyc' rem' p' → v.e + 1 ≡ p' + (rem' - pos)
      counted (longer a b c d) = omega (arith, v.counted)
      counted (again a b c d) = omega (arith, v.counted)

      parity : Next size pos cyc rem p cyc' rem' p' → (t + 1 + (v.e + 1) + (pos - rem')) % 2 ≡ 0
      parity (longer a b c d) = omega (arith, v.parity)
      parity (again a b c d) = omega (arith, v.parity)

  pub Even-back :
      Next size pos cyc rem p cyc' rem' p'
      → pos ≤ rem
      → pos % 2 ≡ 0
      → t % 2 ≡ 1
      → t < 2 ^ 31
      → Even pos cyc rem p t x y
      → Even pos cyc' rem' p' (t + 1) ((y + 1) % 2 ^ 32) y
  Even-back n h o d small v = record {
    e = v.e + 1;
    counted = counted n;
    early = omega (arith, v.early);
    parity = parity n;
    first = omega (arith, v.second, v.parity, v.early);
    second = omega (arith, v.second, v.parity);
  }
    where
      counted : Next size pos cyc rem p cyc' rem' p' → v.e + 1 ≡ p' + (rem' - pos)
      counted (longer a b c d) = omega (arith, v.counted)
      counted (again a b c d) = omega (arith, v.counted)

      parity : Next size pos cyc rem p cyc' rem' p' → (t + 1 + (v.e + 1) + (pos - rem')) % 2 ≡ 0
      parity (longer a b c d) = omega (arith, v.parity)
      parity (again a b c d) = omega (arith, v.parity)

  pub Odd-skip :
      Next size pos cyc rem p cyc' rem' p'
      → rem < pos
      → Odd pos cyc rem p t x y
      → Odd pos cyc' rem' p' (t + 1) x y
  Odd-skip (longer a b c d) h v = record {
    e = v.e;
    few = omega (arith, v.few);
    counted = omega (arith, v.counted);
    early = omega (arith, v.early);
    parity = omega (arith, v.parity);
    first = v.first;
    second = v.second;
  }
  Odd-skip (again a b c d) h v = absurd (omega arith)

  Odd-counted :
      Next size pos cyc rem p cyc' rem' p'
      → pos ≤ rem
      → pos % 2 ≡ 1
      → (v : Odd pos cyc rem p t x y)
      → (cyc' ≤ p')
        × (p + (rem - pos) + 1 - cyc + (cyc' + min 1 (rem' - pos) - 1) ≡ p' + (rem' - pos))
        × (p' + (rem' - pos) ≤ t + 1)
        × ((t + 1 + p' + (rem' - pos) + cyc' + 1 + (pos - rem')) % 2 ≡ 0)
  Odd-counted (longer a b c d) h o v = (
    omega (arith, v.few),
    omega (arith, v.few, v.counted),
    omega (arith, v.early),
    omega (arith, v.parity),
  )
  Odd-counted (again a b c d) h o v = (
    omega (arith, v.few),
    omega (arith, v.few, v.counted),
    omega (arith, v.early),
    omega (arith, v.parity),
  )

  pub Odd-forth :
      Next size pos cyc rem p cyc' rem' p'
      → pos ≤ rem
      → pos % 2 ≡ 1
      → t % 2 ≡ 0
      → t < 2 ^ 31
      → Odd pos cyc rem p t x y
      → Odd pos cyc' rem' p' (t + 1) x ((x + 1) % 2 ^ 32)
  Odd-forth n h o d small v =
      let (few', counted', early', parity') = Odd-counted n h o v in
      record {
        e = p + (rem - pos) + 1 - cyc;
        few = few';
        counted = counted';
        early = early';
        parity = parity';
        first = omega (arith, v.first, v.counted, v.parity, v.few, v.early);
        second = omega (arith, v.first, v.counted, v.parity, v.few, v.early);
      }

  pub Odd-back :
      Next size pos cyc rem p cyc' rem' p'
      → pos ≤ rem
      → pos % 2 ≡ 1
      → t % 2 ≡ 1
      → t < 2 ^ 31
      → Odd pos cyc rem p t x y
      → Odd pos cyc' rem' p' (t + 1) ((y + 1) % 2 ^ 32) y
  Odd-back n h o d small v =
      let (few', counted', early', parity') = Odd-counted n h o v in
      record {
        e = p + (rem - pos) + 1 - cyc;
        few = few';
        counted = counted';
        early = early';
        parity = parity';
        first = omega (arith, v.second, v.counted, v.parity, v.few, v.early);
        second = omega (arith, v.second, v.counted, v.parity, v.few, v.early);
      }
