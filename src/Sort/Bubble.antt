-- ===== src/Sort/Bubble.antt =====
-- demos/sort_demo/linux/bubblesort.c. An array is the list of its words from the loop's index on:
-- what the index has passed is not read again in the pass. `none` is an access out of bounds.
pub mod Passes
pub mod Sorts
use reconos_v.Base.{ℕ, zero, suc, ◌+◌, ◌-◌, ◌%◌, ◌^◌, Bool, true, false}
use reconos_v.Base.{Option, none, some, List, [], ◌∷◌, if◌then◌else◌, ltb, length}
use reconos_v.Base.Maybe.{◌>>=◌}

-- What a pass leaves: the array and the locals `n_new` and `swapped`.
pub record Pass : Type 0 where
  pub array : List ℕ
  pub n_new : ℕ
  pub swapped : Bool

abbrev pub keep : ℕ → Pass → Pass
keep x r = record r { array = x ∷ r.array }

-- The `for` loop, `left` iterations from its end, with `array[i]` and what follows it.
unfoldable pub bubble_pass : (left i : ℕ) → List ℕ → (n_new : ℕ) → (swapped : Bool) → Option Pass
bubble_pass zero i array n_new swapped =
    some record { array = array; n_new = n_new; swapped = swapped }
bubble_pass (suc left) i [] n_new swapped = none
bubble_pass (suc left) i (x ∷ []) n_new swapped = none
bubble_pass (suc left) i (x ∷ y ∷ rest) n_new swapped =
    let swap = ltb y x in
    let kept = if swap then y else x in
    let carried = if swap then x else y in
    do
      r ←
          bubble_pass left (i + 1) (carried ∷ rest) (if swap then i else n_new)
            (if swap then true else swapped)
      some (keep kept r)

-- The `while` loop; the first argument bounds the number of passes.
unfoldable pub bubble_loop : (fuel n : ℕ) → List ℕ → Option (List ℕ)
bubble_loop zero n array = none
bubble_loop (suc fuel) n array = do
  r ← bubble_pass n 0 array n false
  let again = bubble_loop fuel r.n_new r.array
  if r.swapped then again else some r.array

-- `len - 1` is on 32 bits: an empty array starts with `n` at the largest word.
unfoldable pub bubblesort : List ℕ → (len : ℕ) → Option (List ℕ)
bubblesort array len = bubble_loop (len + 1) ((len + 2 ^ 32 - 1) % 2 ^ 32) array
