-- ===== src/Base/Bits.antt =====
-- Bits of machine words, as arithmetic.
use reconos_v.Base.Tests.{◌==◌, if◌then◌else◌}
use reconos_v.Base.Lists.{length, get_or}
use Prim.Native.Nat.{ℕ, zero, suc, ◌+◌, ◌-◌, ◌*◌, ◌/◌, ◌%◌, ◌^◌, ◌<◌}
use mathlib.Core.Path.{◌≡◌, refl}
use mathlib.Core.List.{List, [], ◌∷◌}
use native.Mathlib.Omega.{arith}

-- `x | (1 << k)`
abbrev pub or_bit : ℕ → ℕ → ℕ
or_bit k x = if x / 2 ^ k % 2 == 1 then x else x + 2 ^ k

-- `x & ~1`
abbrev pub clear_bit0 : ℕ → ℕ
clear_bit0 x = x - x % 2

-- bit `i` of `x`
unfoldable pub bit : ℕ → ℕ → ℕ
bit zero x = x % 2
bit (suc i) x = bit i (x / 2)

-- the number whose bit `i` is the lowest bit of element `i`
unfoldable pub bits : List ℕ → ℕ
bits [] = 0
bits (f ∷ fs) = f % 2 + 2 * bits fs

pub bit-bits : (i : ℕ) (fs : List ℕ) → bit i (bits fs) ≡ get_or fs i 0 % 2
unfolding bit bits
bit-bits zero [] = refl
bit-bits (suc i) [] = bit-bits i []
bit-bits zero (f ∷ fs) = omega arith
bit-bits (suc i) (f ∷ fs) =
    let e : (f % 2 + 2 * bits fs) / 2 ≡ bits fs = omega arith in rw e (bit-bits i fs)

abbrev pub pow2 : ℕ → ℕ
pow2 zero = 1
pow2 (suc n) = 2 * pow2 n

pub bits-lt : (fs : List ℕ) → bits fs < pow2 (length fs)
unfolding bits
bits-lt [] = omega arith
bits-lt (f ∷ fs) = omega (arith, bits-lt fs)

-- `uint32` arithmetic
abbrev pub add32 : ℕ → ℕ → ℕ
add32 a b = (a + b) % 2 ^ 32

abbrev pub sub32 : ℕ → ℕ → ℕ
sub32 a b = (a + 2 ^ 32 - b) % 2 ^ 32
