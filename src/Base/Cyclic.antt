-- ===== src/Base/Cyclic.antt =====
-- Arrays that are read and written round the end: the message box and the ring buffer.
use Prim.Native.Nat.{ℕ, zero, suc, ◌+◌, ◌-◌, ◌%◌, ◌≤◌, ◌<◌}
use mathlib.Core.Path.{◌≡◌, refl, ◌∙◌, ap, ap₂, sym}
use mathlib.Core.Logic.{◌≢◌}
use mathlib.Core.List.{List, [], ◌∷◌, ◌++◌}
use native.Mathlib.Nat.{mod-add-mod, mod-eq_of_lt, mod-eq-sub-mod, add-zero}
use native.Mathlib.Decide.{dec_lt}
use reconos_v.Base.Tests.{ltb, if◌then◌else◌}
use native.Mathlib.Omega.{arith}
use reconos_v.Base.Lists.{length, get_or, set, get_or-set_self, get_or-set_ne}

-- what an array shows from cell `h` on: `n` cells, round at `cap`
abbrev pub window : List ℕ → (cap h n : ℕ) → List ℕ
window cells cap h zero = []
window cells cap h (suc n) = get_or cells h 0 ∷ window cells cap ((h + 1) % cap) n

pub length-window : (cells : List ℕ) (cap h n : ℕ) → length (window cells cap h n) ≡ n
length-window cells cap h zero = refl
length-window cells cap h (suc n) = omega (arith, length-window cells cap ((h + 1) % cap) n)

-- a window that is not empty starts with its first cell
pub window_of_pos :
    (cells : List ℕ) (cap h n : ℕ)
    → 0 < n
    → window cells cap h n ≡ get_or cells h 0 ∷ window cells cap ((h + 1) % cap) (n - 1)
window_of_pos cells cap h zero pos = absurd (omega arith)
window_of_pos cells cap h (suc n) pos = let e : suc n - 1 ≡ n = omega arith in rw e

-- Two steps round the array are one.
pub step-mod : (cap h n : ℕ) → (h + suc n) % cap ≡ ((h + 1) % cap + n) % cap
step-mod cap h n = rw mod-add-mod (ap (λ k. k % cap) (omega arith))

-- Below twice the size, going round is a subtraction at most.
mod-once : (cap m : ℕ) → m < cap + cap → m % cap ≡ (if ltb m cap then m else m - cap)
mod-once cap m lt = elim (dec_lt m cap) [
  | yes small ↦ ground (arith, mod-eq_of_lt small)
  | no big ↦
      let under : m - cap < cap = omega arith in
      ground (arith, mod-eq-sub-mod {n = m} {m = cap} (omega arith), mod-eq_of_lt under)
]

-- No two of the cells in a window of at most `cap` are the same.
pub window-apart : {cap h j k : ℕ} → h < cap → j < k → k < cap → (h + j) % cap ≢ (h + k) % cap
window-apart {cap} {h} {j} {k} hh jk kc e =
    ground (arith, mod-once cap (h + j), mod-once cap (h + k))

-- the same, for the first cell
pub add-mod-ne : {cap h k : ℕ} → h < cap → suc k < cap → (h + suc k) % cap ≢ h
add-mod-ne {cap} {h} {k} hh hk = ground (arith, mod-once cap (h + suc k))

-- Two arrays that agree on the cells of a window have the same window.
pub window-congr :
    (xs ys : List ℕ) (cap h n : ℕ)
    → h < cap
    → ((k j : ℕ) → k < n → (h + k) % cap ≡ j → get_or xs j 0 ≡ get_or ys j 0)
    → window xs cap h n ≡ window ys cap h n
window-congr xs ys cap h zero hh same = refl
window-congr xs ys cap h (suc n) hh same =
    ap₂ ◌∷◌ (same 0 h (omega arith) (rw (add-zero, mod-eq_of_lt hh))) (
      window-congr xs ys cap ((h + 1) % cap) n (omega arith)
        (λ k j lt e. same (suc k) j (omega arith) (step-mod cap h k ∙ e)))

-- A window of one cell more has that cell behind it.
window-suc :
    (cells : List ℕ) (cap h n : ℕ)
    → h < cap
    → window cells cap h (suc n) ≡ window cells cap h n ++ (get_or cells ((h + n) % cap) 0 ∷ [])
window-suc cells cap h zero hh =
    let here : (h + 0) % cap ≡ h = rw (add-zero, mod-eq_of_lt hh) in rw here
window-suc cells cap h (suc n) hh =
    rw (step-mod cap h n)
      (ap (λ l. get_or cells h 0 ∷ l) (window-suc cells cap ((h + 1) % cap) n (omega arith)))

-- A value stored in the cell behind a window makes the window longer by that value.
pub window-set :
    (cells : List ℕ) (cap x n h i : ℕ)
    → cap ≤ length cells
    → h < cap
    → n < cap
    → i ≡ (h + n) % cap
    → window (set cells i x) cap h (suc n) ≡ window cells cap h n ++ (x ∷ [])
window-set cells cap x n h i room hh hn at =
    let inside : i < length cells = omega arith in
    let fresh : get_or (set cells i x) ((h + n) % cap) 0 ≡ x =
      ap (λ k. get_or (set cells i x) k 0) (sym at) ∙ get_or-set_self cells i x 0 inside in
    let old : window (set cells i x) cap h n ≡ window cells cap h n =
      window-congr (set cells i x) cells cap h n hh
        (λ k j lt e. get_or-set_ne cells x 0 (λ q. window-apart hh lt hn (e ∙ sym q ∙ at))) in
    window-suc (set cells i x) cap h n hh ∙ ap₂ (λ l v. l ++ (v ∷ [])) old fresh
