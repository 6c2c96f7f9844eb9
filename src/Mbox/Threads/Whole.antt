-- ===== src/Mbox/Threads/Whole.antt =====
-- A thread that runs through `mbox_put` or `mbox_get` step by step, with no other thread between,
-- does what the function as a whole does.
use reconos_v.Base.{ℕ, zero, suc, ◌≡◌, Option, none, some, arith}
use reconos_v.Base.Maybe.{◌>>=◌}
use reconos_v.Mbox.{Mbox, mbox_put, mbox_get}
use reconos_v.Mbox.Threads.{PutPhase, outside, GetPhase, absent, put_step, get_step}

-- `n` steps of one thread in `mbox_put(msg)` with no other thread between them.
pub put_steps : ℕ → ℕ → PutPhase → Mbox → Option (PutPhase × Mbox)
put_steps zero msg p mb = some (p, mb)
put_steps (suc n) msg p mb = do (p', mb') ← put_step msg p mb; put_steps n msg p' mb'

pub get_steps : ℕ → GetPhase → Mbox → Option (GetPhase × Mbox)
get_steps zero g mb = some (g, mb)
get_steps (suc n) g mb = do (g', mb') ← get_step g mb; get_steps n g' mb'

abbrev pub with_put : Option Mbox → Option (PutPhase × Mbox)
with_put none = none
with_put (some mb) = some (outside, mb)

-- The steps of a thread that is not interrupted are the whole function `mbox_put`.
pub put_steps-mbox_put :
    (msg : ℕ) (mb : Mbox) → put_steps 6 msg outside mb ≡ with_put (mbox_put mb msg)
unfolding put_steps put_step mbox_put
put_steps-mbox_put msg mb = ground arith

-- A thread that is not interrupted ends `mbox_get` with the box of the whole function.
pub get_steps-mbox_get :
    (mb mb' : Mbox) (x : ℕ)
    → mbox_get mb ≡ some (x, mb')
    → get_steps 6 absent mb ≡ some (absent, mb')
unfolding get_steps get_step mbox_get
get_steps-mbox_get mb mb' x h = ground arith
