-- ===== src/Pvr/Fields.antt =====
-- A field read from a register is its bits, and every field of the table lies in a register.
use Prim.Native.String.{String}
use reconos_v.Base.{
  ℕ, zero, suc, ◌+◌, ◌*◌, ◌-◌, ◌/◌, ◌%◌, ◌^◌, ◌≤◌, ◌<◌, List, [], ◌∷◌, ◌≡◌, refl, ◌∙◌,
}
use reconos_v.Base.{
  ap, sym, arith, get_or, leb, ltb, ◌&&◌, Bool, true, false, some, length, get_elem?-eq-get_or,
}
use reconos_v.Pvr.{Field, fields, shift_out, read_field, lookup_loop}
use text.Mathlib.Text as Text
use reconos_v.Process.{get_numfsl}
use reconos_v.Machine.{Host}
use reconos_v.Base.{if◌then◌else◌}
use native.Mathlib.Nat.{
  pow-suc, mul_assoc, add-mul, mul-add-mod_self_right, mod-eq_of_lt, mul-div_cancel, mod-lt,
  mul-le-mul_right, suc-mul, add-mul-mod_self_right, mod-add-div', add-mul-div_right,
  div-lt_iff_lt-mul, div-add-mod', add-suc, add-zero,
}

two_pow-pos : (n : ℕ) → 0 < 2 ^ n
two_pow-pos zero = omega arith
two_pow-pos (suc n) = omega (arith, pow-suc 2 n, two_pow-pos n)

two_pow-add : (m n : ℕ) → 2 ^ (m + n) ≡ 2 ^ m * 2 ^ n
two_pow-add m zero = ap (λ k. 2 ^ k) (add-zero m) ∙ omega arith
two_pow-add m (suc n) =
    ap (λ k. 2 ^ k) (add-suc m n)
    ∙ pow-suc 2 (m + n)
    ∙ ap (λ k. k * 2) (two_pow-add m n)
    ∙ mul_assoc (2 ^ m) (2 ^ n) 2
    ∙ ap (λ k. 2 ^ m * k) (sym (pow-suc 2 n))

below : (k n m : ℕ) → 0 < m → k < n → k * m < n * m
below k n m pos h = omega (arith, mul-le-mul_right {m = suc k} {n = n} m h, suc-mul k m)

mul_pos : {a b : ℕ} → 0 < a → 0 < b → 0 < a * b
mul_pos {a} {b} pa pb = omega (arith, mul-le-mul_right {m = 1} {n = a} b pa)

-- Shifted left in a word of `n * m` and back, a number loses what is above `n`.
shifted_back : (r m n : ℕ) → 0 < m → 0 < n → r * m % (n * m) / m ≡ r % n
shifted_back r m n posm posn =
    ap (λ k. k / m)
      (ap (λ k. k * m % (n * m)) (sym (div-add-mod' r n))
        ∙ ap (λ k. k % (n * m))
            (add-mul (r / n * n) (r % n) m ∙ ap (λ k. k + r % n * m) (mul_assoc (r / n) n m))
        ∙ mul-add-mod_self_right (r / n) (n * m) (r % n * m)
        ∙ mod-eq_of_lt (below (r % n) n m posm (mod-lt r posn)))
    ∙ mul-div_cancel (r % n) posm

-- The bits from `b` on of what is below `a * b`
low_bits : (r a b : ℕ) → 0 < a → 0 < b → r % (a * b) / b ≡ r / b % a
low_bits r a b posa posb = sym (
    ap (λ k. k / b % a)
      (sym (mod-add-div' r (a * b)) ∙ ap (λ k. r % (a * b) + k) (sym (mul_assoc (r / (a * b)) a b)))
    ∙ ap (λ k. k % a) (add-mul-div_right (r % (a * b)) (r / (a * b) * a) posb)
    ∙ add-mul-mod_self_right (r % (a * b) / b) (r / (a * b)) a
    ∙ mod-eq_of_lt ((div-lt_iff_lt-mul posb).1 (mod-lt r (mul_pos posa posb))))

-- For `msb` up to `lsb` below 32, the three shifts leave the bits from `msb` to `lsb`, as a number of
-- `lsb + 1 - msb` bits.
pub shift_out_lem :
    (msb lsb r : ℕ)
    → msb ≤ lsb
    → lsb < 32
    → shift_out msb lsb r ≡ r / 2 ^ (31 - lsb) % 2 ^ (lsb + 1 - msb)
unfolding shift_out
shift_out_lem msb lsb r le lt =
    let width = lsb + 1 - msb in
    let low = 31 - lsb in
    let all : width + low + msb ≡ 32 = omega arith in
    let word : 2 ^ width * 2 ^ low * 2 ^ msb ≡ 2 ^ 32 =
      ap (λ k. k * 2 ^ msb) (sym (two_pow-add width low))
      ∙ sym (two_pow-add (width + low) msb)
      ∙ ap (λ k. 2 ^ k) all in
    ap (λ w. r * 2 ^ msb % w / 2 ^ msb / 2 ^ low) (sym word)
    ∙ ap (λ k. k / 2 ^ low)
        (shifted_back r (2 ^ msb) (2 ^ width * 2 ^ low) (two_pow-pos msb)
          (mul_pos (two_pow-pos width) (two_pow-pos low)))
    ∙ low_bits r (2 ^ width) (2 ^ low) (two_pow-pos width) (two_pow-pos low)

-- The bits of a field in the registers, as a number
abbrev pub bits : (pvr : List ℕ) → Field → ℕ
bits pvr f = get_or pvr f.reg 0 / 2 ^ (31 - f.lsb) % 2 ^ (f.lsb + 1 - f.msb)

-- The values of the entries of a table that have a name, in the table's order
abbrev pub named : List Field → (pvr : List ℕ) → String → List ℕ
named [] pvr wanted = []
named (f ∷ fs) pvr wanted =
    let rest = named fs pvr wanted in if Text.◌==◌ wanted f.name then bits pvr f ∷ rest else rest

-- Whether an entry names bits of one of the sixteen registers
abbrev fits : Field → Bool
fits f = leb f.msb f.lsb && (ltb f.lsb 32 && ltb f.reg 16)

abbrev all_fit : List Field → Bool
all_fit [] = true
all_fit (f ∷ fs) = fits f && all_fit fs

lookup_loop-named :
    (fs : List Field) (pvr : List ℕ) (wanted : String)
    → length pvr ≡ 16
    → all_fit fs ≡ true
    → lookup_loop fs pvr wanted ≡ some (named fs pvr wanted)
unfolding lookup_loop
lookup_loop-named [] pvr wanted e ok = refl
lookup_loop-named (f ∷ fs) pvr wanted e ok =
    rw
      (
        get_elem?-eq-get_or pvr f.reg 0 (ground (arith, e)),
        lookup_loop-named fs pvr wanted e (ground arith),
        shift_out_lem f.msb f.lsb (get_or pvr f.reg 0) (ground arith) (ground arith),
      )
      (either (Text.◌==◌ wanted f.name))
  where
    either :
        (b : Bool)
        → (if b then some (bits pvr f ∷ named fs pvr wanted) else some (named fs pvr wanted))
          ≡ some (if b then bits pvr f ∷ named fs pvr wanted else named fs pvr wanted)
    either true = refl
    either false = refl

fields-fit : all_fit fields ≡ true
unfolding fields
fields-fit = refl

-- For every name, with the sixteen registers, `readpvr` reads no register outside them, and prints the
-- bits that the table gives for each of its entries of that name, in the table's order.
pub read_field_lem :
    (pvr : List ℕ) (wanted : String)
    → length pvr ≡ 16
    → read_field pvr wanted ≡ some (named fields pvr wanted)
unfolding read_field
read_field_lem pvr wanted e = lookup_loop-named fields pvr wanted e fields-fit

-- The number of links that the process reads from the register is what `readpvr` prints for NUMFSL.
pub read_numfsl :
    {K : Type 0} (host : Host K) (pvr : List ℕ)
    → length pvr ≡ 16
    → get_or pvr 3 0 ≡ host.pvr3
    → read_field pvr "NUMFSL" ≡ some (get_numfsl host ∷ [])
unfolding fields get_numfsl
read_numfsl host pvr long e =
    read_field_lem pvr "NUMFSL" long ∙ ap (λ r. some ((r / 2 ^ 7 % 2 ^ 5) ∷ [])) e
