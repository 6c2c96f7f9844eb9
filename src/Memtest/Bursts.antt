-- ===== src/Memtest/Bursts.antt =====
-- What the bursts of the hardware thread do to the words of its two buffers.
use reconos_v.Base.{
  ℕ, zero, suc, ◌+◌, ◌%◌, ◌^◌, ◌≤◌, ◌<◌, List, ◌≡◌, refl, ◌∙◌, sym, ap, ◌⊎◌, inl, inr,
}
use reconos_v.Base.{
  arith, get_or, set, length, length-set, get_or-set_self, get_or-set_ne, Bool-cases, ◌==◌, ==_iff,
}
use reconos_v.Base.{false}
use reconos_v.Memtest.{copy_loop}

-- The words that a burst writes from place `c` on, and those that it leaves.
pub record Copied (left c a b : ℕ) (mem out : List ℕ) : Type 0 where
  pub long : length out ≡ length mem
  pub written :
      (j : ℕ) → c ≤ j → j < c + left → get_or out (b + j) 0 ≡ (get_or mem (a + j) 0 + 1) % 2 ^ 32
  pub below : (k : ℕ) → k < b + c → get_or out k 0 ≡ get_or mem k 0
  pub above : (k : ℕ) → b + c + left ≤ k → get_or out k 0 ≡ get_or mem k 0

pub copy_loop-Copied :
    (left c a b : ℕ) (mem : List ℕ)
    → (a + c + left ≤ b) ⊎ (b + c + left ≤ a)
    → b + c + left ≤ length mem
    → Copied left c a b mem (copy_loop left c a b mem)
unfolding copy_loop
copy_loop-Copied zero c a b mem apart fits = record {
  long = refl;
  written = λ j le lt. absurd (omega arith);
  below = λ k lt. refl;
  above = λ k le. refl;
}
copy_loop-Copied (suc left) c a b mem apart fits =
    let v = (get_or mem (a + c) 0 + 1) % 2 ^ 32 in
    let rest =
      copy_loop-Copied left (c + 1) a b (set mem (b + c) v) (still apart)
        (omega (arith, length-set mem (b + c) v)) in
    record {
      long = rest.long ∙ length-set mem (b + c) v;
      written = λ j le lt. elim (Bool-cases (j == c)) [
        | inl e ↦
            ap (λ i. get_or (copy_loop left (c + 1) a b (set mem (b + c) v)) (b + i) 0)
              ((==_iff j c).0 e)
            ∙ rest.below (b + c) (omega arith)
            ∙ get_or-set_self mem (b + c) v 0 (omega arith)
            ∙ ap (λ i. (get_or mem (a + i) 0 + 1) % 2 ^ 32) (sym ((==_iff j c).0 e))
        | inr e ↦
            rest.written j (next j e le) (omega arith)
            ∙ ap (λ w. (w + 1) % 2 ^ 32) (get_or-set_ne mem v 0 (other j e le lt apart))
      ];
      below = λ k lt. rest.below k (omega arith) ∙ get_or-set_ne mem v 0 (λ e. omega arith);
      above = λ k le. rest.above k (omega arith) ∙ get_or-set_ne mem v 0 (λ e. omega arith);
    }
  where
    still :
        (a + c + suc left ≤ b) ⊎ (b + c + suc left ≤ a)
        → (a + (c + 1) + left ≤ b) ⊎ (b + (c + 1) + left ≤ a)
    still (inl h) = inl (omega arith)
    still (inr h) = inr (omega arith)

    next : (j : ℕ) → (j == c) ≡ false → c ≤ j → c + 1 ≤ j
    next j e le = ground arith

    other :
        (j : ℕ)
        → (j == c) ≡ false
        → c ≤ j
        → j < c + suc left
        → (a + c + suc left ≤ b) ⊎ (b + c + suc left ≤ a)
        → b + c ≡ a + j
        → ⊥
    other j e le lt (inl h) q = ground arith
    other j e le lt (inr h) q = ground arith
