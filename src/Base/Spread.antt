-- ===== src/Base/Spread.antt =====
-- Values laid out one after the other in an array, round its end.
use Prim.Native.Nat.{ℕ, suc, ◌+◌, ◌%◌, ◌≤◌, ◌<◌}
use mathlib.Core.Path.{◌≡◌, refl, ◌∙◌, ap, ap₂, sym}
use mathlib.Core.Logic.{◌≢◌}
use mathlib.Core.List.{List, [], ◌∷◌, ◌++◌}
use native.Mathlib.Nat.{mod-eq_of_lt, add-zero}
use native.Mathlib.Omega.{arith}
use reconos_v.Base.Lists.{length, get_or, set, length-set, get_or-set_self, get_or-set_ne}
use reconos_v.Base.Cyclic.{window, step-mod, add-mod-ne}

unfoldable pub lay : List ℕ → (cap off : ℕ) → List ℕ → List ℕ
lay buf cap off [] = buf
lay buf cap off (b ∷ bs) = lay (set buf off b) cap ((off + 1) % cap) bs

pub length-lay :
    (buf : List ℕ) (cap off : ℕ) (bs : List ℕ) → length (lay buf cap off bs) ≡ length buf
unfolding lay
length-lay buf cap off [] = refl
length-lay buf cap off (b ∷ bs) =
    length-lay (set buf off b) cap ((off + 1) % cap) bs ∙ length-set buf off b

pub lay-append :
    (buf : List ℕ) (cap off : ℕ) (xs ys : List ℕ)
    → off < cap
    → lay buf cap off (xs ++ ys) ≡ lay (lay buf cap off xs) cap ((off + length xs) % cap) ys
unfolding lay
lay-append buf cap off [] ys h = rw (add-zero, mod-eq_of_lt h)
lay-append buf cap off (x ∷ xs) ys h =
    lay-append (set buf off x) cap ((off + 1) % cap) xs ys (omega arith)
    ∙ ap (λ k. lay (lay (set buf off x) cap ((off + 1) % cap) xs) cap k ys)
        (sym (step-mod cap off (length xs)))

-- A cell that no value is laid in keeps its own.
pub get_or-lay :
    (buf : List ℕ) (cap off : ℕ) (bs : List ℕ) (j : ℕ)
    → off < cap
    → ((k : ℕ) → k < length bs → (off + k) % cap ≢ j)
    → get_or (lay buf cap off bs) j 0 ≡ get_or buf j 0
unfolding lay
get_or-lay buf cap off [] j h apart = refl
get_or-lay buf cap off (b ∷ bs) j h apart =
    get_or-lay (set buf off b) cap ((off + 1) % cap) bs j (omega arith)
      (λ k lt e. apart (suc k) (omega arith) (step-mod cap off k ∙ e))
    ∙ get_or-set_ne buf b 0 (λ e. apart 0 (omega arith) (rw (add-zero, mod-eq_of_lt h) e))

-- Read back from where it was laid, a list of at most `cap` values is itself.
pub window-lay :
    (buf : List ℕ) (cap off : ℕ) (bs : List ℕ)
    → off < cap
    → cap ≤ length buf
    → length bs ≤ cap
    → window (lay buf cap off bs) cap off (length bs) ≡ bs
unfolding lay
window-lay buf cap off [] h room fits = refl
window-lay buf cap off (b ∷ bs) h room fits =
    let rest = lay (set buf off b) cap ((off + 1) % cap) bs in
    ap₂ ◌∷◌
      (get_or-lay (set buf off b) cap ((off + 1) % cap) bs off (omega arith)
          (λ k lt e. add-mod-ne h (omega arith) (step-mod cap off k ∙ e))
        ∙ get_or-set_self buf off b 0 (omega arith))
      (window-lay (set buf off b) cap ((off + 1) % cap) bs (omega arith)
        (omega (arith, length-set buf off b)) (omega arith))
