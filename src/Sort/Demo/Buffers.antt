-- ===== src/Sort/Demo/Buffers.antt =====
-- The buffers of the sort demo, its check of the result and its clock.
use reconos_v.Base.{ℕ, zero, suc, ◌+◌, ◌*◌, ◌-◌, ◌/◌, ◌%◌, ◌^◌, ◌≤◌, ◌<◌, none, some}
use reconos_v.Base.{List, [], ◌∷◌, ◌≡◌, refl, ◌∙◌, ap, sym, ◌↔◌, inl, inr, length, arith, ◌==◌}
use reconos_v.Base.{==_iff, Bool-cases, get_elem?, take}
use mathlib.Core.Path.{ap₂}
use mathlib.Core.Bool.{true≢false}
use mathlib.Core.Option.{some-ne-none}
use mathlib.Core.List.{head-eq_of_cons-eq, tail-eq_of_cons-eq}
use reconos_v.Sort.Demo.{
  page_size, malloc_page_aligned, generate_loop, generate_data, check_loop, check_data, Timeval,
  calc_timediff_ms,
}

-- Inside the block of `pages + 1` pages that `malloc` returned, the buffer starts at a page and has
-- room for `pages` pages.
pub malloc_page_aligned_lem :
    (temp pages : ℕ)
    → temp + (pages + 1) * page_size < 2 ^ 32
    → let address = malloc_page_aligned temp in
      (address % page_size ≡ 0)
      × (temp < address)
      × (address + pages * page_size ≤ temp + (pages + 1) * page_size)
unfolding malloc_page_aligned
malloc_page_aligned_lem temp pages h = (omega arith, omega arith, omega arith)

length-generate_loop : (left i size : ℕ) → length (generate_loop left i size) ≡ left
unfolding generate_loop
length-generate_loop zero i size = refl
length-generate_loop (suc left) i size = ap suc (length-generate_loop left (i + 1) size)

get_elem?-generate_loop :
    (left i size k : ℕ)
    → k < left
    → get_elem? (generate_loop left i size) k ≡ some (1000 + (size - (i + k) - 1))
unfolding generate_loop
get_elem?-generate_loop zero i size k h = absurd (omega arith)
get_elem?-generate_loop (suc left) i size zero h =
    ap (λ n. some (1000 + (size - n - 1))) (omega arith)
get_elem?-generate_loop (suc left) i size (suc k) h =
    get_elem?-generate_loop left (i + 1) size k (omega arith)
    ∙ ap (λ n. some (1000 + (size - n - 1))) (omega arith)

-- `generate_data` fills its buffer with consecutive words from `1000 + size - 1` down to 1000.
pub generate_data_lem :
    (size : ℕ)
    → (length (generate_data size) ≡ size)
      × ((k : ℕ) → k < size → get_elem? (generate_data size) k ≡ some (1000 + size - 1 - k))
unfolding generate_data
generate_data_lem size = (
  length-generate_loop size 0 size,
  λ k h. get_elem?-generate_loop size 0 size k h ∙ ap some (omega arith),
)

-- A time of day in microseconds
abbrev pub micros : Timeval → ℕ
micros t = t.tv_sec * 1000000 + t.tv_usec

-- For times of day in order, `calc_timediff_ms` is the time between them in whole milliseconds, on
-- 32 bits.
pub calc_timediff_ms_lem :
    (start stop : Timeval)
    → start.tv_usec < 1000000
    → stop.tv_usec < 1000000
    → micros start ≤ micros stop
    → calc_timediff_ms start stop ≡ (micros stop - micros start) / 1000 % 2 ^ 32
unfolding calc_timediff_ms
calc_timediff_ms_lem start stop hs ht le = ground arith

check_loop_iff :
    (left i : ℕ) (source copy : List ℕ)
    → left ≤ length source
    → left ≤ length copy
    → (check_loop left i source copy ≡ none) ↔ (take left source ≡ take left copy)
unfolding check_loop
check_loop_iff zero i source copy h h' = (λ e. refl, λ e. refl)
check_loop_iff (suc left) i [] copy h h' = absurd (omega arith)
check_loop_iff (suc left) i (x ∷ source) [] h h' = absurd (omega arith)
check_loop_iff (suc left) i (x ∷ source) (y ∷ copy) h h' = elim (Bool-cases (x == y)) [
  | inl e ↦
      let same : x ≡ y = (==_iff x y).0 e in
      let (to, from) = check_loop_iff left (i + 1) source copy (omega arith) (omega arith) in
      rw e (λ later. ap₂ ◌∷◌ same (to later), λ eq. from (tail-eq_of_cons-eq eq))
  | inr e ↦ rw e (
    λ bad. absurd (some-ne-none i bad),
    λ eq. absurd (true≢false (sym ((==_iff x y).1 (head-eq_of_cons-eq eq)) ∙ e)),
  )
]

wraps : (n : ℕ) → suc n < 2 ^ 32 → (suc n + 2 ^ 32 - 1) % 2 ^ 32 ≡ n
wraps n h = omega arith

-- For buffers of `n + 1` words, `check_data` reports success just when the first `n` words of the
-- data are those of the sorted copy: it does not look at the last word.
pub check_data_iff :
    (qsort : List ℕ → List ℕ) (source copy : List ℕ) (n : ℕ)
    → suc n < 2 ^ 32
    → length source ≡ suc n
    → length (qsort copy) ≡ suc n
    → (check_data qsort source copy (suc n) ≡ none) ↔ (take n source ≡ take n (qsort copy))
unfolding check_data
check_data_iff qsort source copy n small e e' =
    rw (wraps n small) (check_loop_iff n 0 source (qsort copy) (omega arith) (omega arith))
