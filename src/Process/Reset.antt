-- ===== src/Process/Reset.antt =====
-- The reset word that `slot_reset` sends: one bit for each slot.
use reconos_v.Base.{
  ℕ, zero, suc, ◌+◌, ◌*◌, ◌%◌, ◌^◌, ◌≤◌, ◌<◌, ◌≡◌, refl, Bool, true, false, List, [], ◌∷◌, ◌++◌,
}
use reconos_v.Base.{
  ◌==◌, if◌then◌else◌, length, get_or, set, take, arith, take-all, length-set, get_or-set_self,
  get_or-set_ne, ◌∙◌,
}
use reconos_v.Base.Bits.{or_bit, bit, bits, bit-bits, bits-lt, pow2}
use mathlib.Core.Path.{subst}
use native.Mathlib.Decide.{ℕ_discrete}
use reconos_v.Machine.{Host, Machine, ok, update, update_self}
use reconos_v.Fsl.Link.{IsOpen, fsl_write-ok}
use reconos_v.Process.{mask_loop, in_reset, set_reset, slot_reset, max_slots}

bits-take-suc :
    (i : ℕ) (fs : List ℕ) → bits (take (suc i) fs) ≡ bits (take i fs) + pow2 i * (get_or fs i 0 % 2)
unfolding bits
bits-take-suc zero [] = refl
bits-take-suc (suc i) [] = omega arith
bits-take-suc zero (f ∷ fs) = omega arith
bits-take-suc (suc i) (f ∷ fs) = omega (arith, bits-take-suc i fs)

pow2-pos : (n : ℕ) → 0 < pow2 n
pow2-pos zero = omega arith
pow2-pos (suc n) = omega (arith, pow2-pos n)

small-shift : (mask p : ℕ) → 0 < p → (mask + 1) * (2 * p) ≤ 2 ^ 32 → mask * 2 % 2 ^ 32 ≡ mask * 2
small-shift mask p pos h = let scaled : mask * 1 ≤ mask * p = grind arith in omega arith

small-bit : (mask p b : ℕ) → b ≤ 1 → (mask + 1) * (2 * p) ≤ 2 ^ 32 → (mask * 2 + b + 1) * p ≤ 2 ^ 32
small-bit mask p b le h = let scaled : b * p ≤ 1 * p = grind arith in omega arith

-- One round of the loop, with the shift.
or_bit0 : (mask f : ℕ) → (if in_reset f then or_bit 0 (mask * 2) else mask * 2) ≡ mask * 2 + f % 2
or_bit0 mask f = ground arith

-- While the shifts stay in 32 bits, the loop collects the flags below the ones that it has.
mask_loop-bits :
    (n : ℕ) (fs : List ℕ) (mask : ℕ)
    → (mask + 1) * pow2 n ≤ 2 ^ 32
    → mask_loop n fs mask ≡ bits (take n fs) + pow2 n * mask
unfolding mask_loop bits
mask_loop-bits zero fs mask h = omega arith
mask_loop-bits (suc n) fs mask h =
    let shift : mask * 2 % 2 ^ 32 ≡ mask * 2 = small-shift mask (pow2 n) (pow2-pos n) h in
    rw (shift, or_bit0 mask (get_or fs n 0))
      (mask_loop-bits n fs (mask * 2 + get_or fs n 0 % 2)
          (small-bit mask (pow2 n) (get_or fs n 0 % 2) (omega arith) h)
        ∙ omega (arith, bits-take-suc n fs))

set_reset-bit : (reset : Bool) (f : ℕ) → set_reset reset f % 2 ≡ (if reset then 1 else 0)
set_reset-bit true f = ground arith
set_reset-bit false f = ground arith

-- the flag of one slot after the update of another, or of the same
pub flag-set :
    (flags : List ℕ) (num i v : ℕ)
    → num < length flags
    → get_or (set flags num v) i 0 ≡ (if i == num then v else get_or flags i 0)
flag-set flags num i v h = elim (ℕ_discrete num i) [
  | yes e ↦ ground (arith, get_or-set_self flags num v 0 h)
  | no e ↦ ground (arith, get_or-set_ne flags v 0 e)
]

-- The word that is sent for sixteen flags.
reset_word :
    (flags : List ℕ)
    → length flags ≡ max_slots
    → (or_bit 24 (mask_loop max_slots flags 0) ≡ 0x01000000 + bits flags) × (bits flags < 2 ^ 16)
reset_word flags e =
    let low : bits flags < 2 ^ 16 = subst (λ n. bits flags < pow2 n) e (bits-lt flags) in
    let all : mask_loop max_slots flags 0 ≡ bits flags =
      mask_loop-bits max_slots flags 0 (omega arith)
      ∙ rw (take-all max_slots flags (omega arith)) (omega arith) in
    (rw all (ground arith), low)

-- what the hardware reads of the word: bit `i` is the reset line of slot `i`
abbrev pub Lines : List ℕ → (num : ℕ) → Bool → (mask : ℕ) → Type 0
Lines flags num reset mask =
    (i : ℕ)
    → i < max_slots
    → bit i mask ≡ (if i == num then (if reset then 1 else 0) else get_or flags i 0 % 2)

module _ {K : Type 0} (host : Host K) (m : Machine K) where
  -- `slot_reset` on one of the sixteen slots sends one word on the control link. Its upper part is
  -- the command 0x01000000; its lower sixteen bits are the reset lines, where the line of that slot
  -- is as asked for and every other one is as before. The process keeps the flags that it sent.
  pub slot_reset_lem :
      (num : ℕ) (reset : Bool)
      → IsOpen m.proc.proc_control_fsl_b m.fsl_fd
      → length m.proc.slot_flags ≡ max_slots
      → num < max_slots
      → let link = m.proc.proc_control_fsl_b in
        (u : Machine K) × (mask : ℕ) × (slot_reset host num reset m ≡ ok tt u)
        × (u.tx link ≡ m.tx link ++ ((0x01000000 + mask) ∷ []))
        × (mask < 2 ^ 16)
        × Lines m.proc.slot_flags num reset mask
        × (u.proc ≡ record m.proc {
          slot_flags = set m.proc.slot_flags num (set_reset reset (get_or m.proc.slot_flags num 0));
        })
        × (u.fsl_fd ≡ m.fsl_fd)
  unfolding slot_reset
  slot_reset_lem num reset o sixteen lt =
      let link = m.proc.proc_control_fsl_b in
      let flags = set m.proc.slot_flags num (set_reset reset (get_or m.proc.slot_flags num 0)) in
      let mask = bits flags in
      let full =
        length-set m.proc.slot_flags num (set_reset reset (get_or m.proc.slot_flags num 0)) in
      let (word, low) = reset_word flags (full ∙ sixteen) in
      let m1 = record m { proc = record m.proc { slot_flags = flags } } in
      (
        record m1 { tx = update m.tx link (m.tx link ++ ((0x01000000 + mask) ∷ [])) },
        mask,
        rw word (fsl_write-ok host link m1 (0x01000000 + mask) o),
        update_self m.tx link (m.tx link ++ ((0x01000000 + mask) ∷ [])),
        low,
        λ i h. ground (
          arith,
          bit-bits i flags,
          set_reset-bit reset (get_or m.proc.slot_flags num 0),
          flag-set m.proc.slot_flags num i (set_reset reset (get_or m.proc.slot_flags num 0)),
        ),
        refl,
        refl,
      )
