-- ===== src/Sort/Merge/Odd.antt =====
-- A pass of `recursive_merge` over an odd number of blocks: its last pair has a block of the buffer and none.
use reconos_v.Base.{ℕ, zero, suc, ◌+◌, ◌*◌, ◌/◌, ◌%◌, ◌^◌, ◌<◌, ◌≤◌, Option, none, some, List, []}
use reconos_v.Base.{◌∷◌, ◌≡◌, refl, ◌∙◌, ap, length, drop, arith}
use reconos_v.Base.{false, ◌==◌}
use reconos_v.Base.Maybe.{◌>>=◌}
use reconos_v.Sort.Merge.{from_left, merge_loop, simple_merge, merge_blocks, merge_pass, write_at}
use native.Mathlib.Nat.{add-mul, mod-eq_of_lt, mul-div_cancel}

drop-nil : (n : ℕ) (xs : List ℕ) → length xs ≤ n → drop n xs ≡ []
drop-nil zero [] h = refl
drop-nil zero (x ∷ xs) h = absurd (omega arith)
drop-nil (suc n) [] h = refl
drop-nil (suc n) (x ∷ xs) h = drop-nil n xs (omega arith)

from_left-nil : (b : ℕ) (left : List ℕ) → 0 < b → from_left b 0 0 left [] ≡ none
unfolding from_left
from_left-nil b [] pos = ground arith
from_left-nil b (x ∷ left) pos = ground arith

simple_merge-nil : (b : ℕ) (left : List ℕ) → 0 < b → b * 2 < 2 ^ 32 → simple_merge b left [] ≡ none
unfolding simple_merge merge_loop
simple_merge-nil zero left pos bound = absurd (omega arith)
simple_merge-nil (suc b) left pos bound =
    ap (λ n. merge_loop n (suc b) 0 0 left []) count ∙ rw (from_left-nil (suc b) left pos) refl
  where
    count : suc b * 2 % 2 ^ 32 ≡ suc (b * 2 + 1)
    count = omega arith

>>=-none {ℓ κ} :
    {A : Type ℓ} {B : Type κ} (m : Option A) {f : A → Option B}
    → ((a : A) → f a ≡ none)
    → (m >>= f) ≡ none
>>=-none none h = refl
>>=-none (some a) h = h a

module _ (b : ℕ) (source : List ℕ) (pos : 0 < b) where
  lone_pair :
      (i : ℕ)
      → length source ≡ (i + 1) * b
      → b * 2 ≤ length source
      → length source < 2 ^ 32
      → simple_merge b (drop (i * b % 2 ^ 32) source) (drop ((i + 1) * b % 2 ^ 32) source) ≡ none
  lone_pair i e two bound =
      ap (simple_merge b (drop (i * b % 2 ^ 32) source))
        (rw (mod-eq_of_lt fits) (drop-nil ((i + 1) * b) source (omega arith)))
      ∙ simple_merge-nil b (drop (i * b % 2 ^ 32) source) pos (omega arith)
    where
      fits : (i + 1) * b < 2 ^ 32
      fits = omega arith

  merge_blocks-none :
      (k i : ℕ) (result : List ℕ)
      → length source ≡ (i + k * 2 + 1) * b
      → b * 2 ≤ length source
      → length source < 2 ^ 32
      → merge_blocks (suc k) i b source result simple_merge ≡ none
  unfolding merge_blocks
  merge_blocks-none zero i result e two bound =
      rw (lone_pair i (e ∙ ap (λ n. n * b) (omega arith)) two bound) refl
  merge_blocks-none (suc k) i result e two bound =
      >>=-none (simple_merge b (drop (i * b % 2 ^ 32) source) (drop ((i + 1) * b % 2 ^ 32) source))
        λ words. >>=-none (write_at (i * b % 2 ^ 32) words result) λ written.
          merge_blocks-none k (i + 2) written (e ∙ ap (λ n. n * b) (omega arith)) two bound

odd_halves : (b k n : ℕ) → 0 < b → n ≡ (k * 2 + 1) * b → (n / b + 1) / 2 ≡ suc k
odd_halves b k n pos e = rw (e, mul-div_cancel (k * 2 + 1) pos) (omega arith)

-- For an odd number of blocks of at least one word, more than one, fewer than 2^32 words in all, the test at the head of
-- `recursive_merge` lets its first pass begin, and the pass accesses a word beyond the end of a buffer:
-- its last pair has one block only.
pub merge_pass-odd :
    (k b : ℕ) (source result : List ℕ)
    → 0 < b
    → length source ≡ (suc k * 2 + 1) * b
    → length source < 2 ^ 32
    → ((length source == b) ≡ false)
      × (merge_pass (length source) b source result simple_merge ≡ none)
merge_pass-odd k zero source result pos e bound = absurd (omega arith)
merge_pass-odd k (suc b) source result pos e bound =
    (differs, rw (odd_halves (suc b) (suc k) (length source) pos e) last)
  where
    split : length source ≡ 2 * suc b + (k * 2 + 1) * suc b
    split = e ∙ ap (λ n. n * suc b) (omega arith) ∙ add-mul 2 (k * 2 + 1) (suc b)

    at_least : suc b * 2 ≤ length source
    at_least = omega (arith, split)

    differs : (length source == suc b) ≡ false
    differs = ground (arith, at_least)

    last : merge_blocks (suc (suc k)) 0 (suc b) source result simple_merge ≡ none
    last =
        merge_blocks-none (suc b) source pos (suc k) 0 result
          (e ∙ ap (λ n. n * suc b) (omega arith)) at_least bound
