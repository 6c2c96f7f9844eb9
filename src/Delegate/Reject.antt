-- ===== src/Delegate/Reject.antt =====
-- What a delegate thread does with a handle that is out of range or of another type, and with a
-- command that it does not know.
use reconos_v.Base.{
  ℕ, ◌≤◌, ◌≡◌, ◌≢◌, ◌⊎◌, Option, none, some, List, [], ◌∷◌, length, get_elem?, arith,
}
use reconos_v.Base.{◌==◌, if◌then◌else◌}
use reconos_v.Kind
use reconos_v.Machine.{Host, Machine, Hwt, Resource, Run, exited, update, update_self}
use reconos_v.Fsl.{fsl_read}
use reconos_v.Fsl.Link.{IsOpen, fsl_read-ok}
use reconos_v.Delegate.{
  cmd_mbox_get, cmd_mbox_put, cmd_sem_wait, cmd_sem_post, cmd_mutex_lock, cmd_mutex_unlock,
  cmd_mutex_trylock, cmd_cond_wait, cmd_cond_signal, cmd_cond_broadcast, cmd_rq_receive,
  cmd_rq_send, dispatch, delegate_step,
}

-- the type of the resource that a command's first handle must name; `none` for the others
unfoldable pub kind_of : ℕ → Option ℕ
kind_of cmd =
    if cmd == 0xF0
    then some Kind.mbox
    else if cmd == 0xF1
    then some Kind.mbox
    else if cmd == 0xB1
    then some Kind.sem
    else if cmd == 0xB0
    then some Kind.sem
    else if cmd == 0xC0
    then some Kind.mutex
    else if cmd == 0xC1
    then some Kind.mutex
    else if cmd == 0xC2
    then some Kind.mutex
    else if cmd == 0xD0
    then some Kind.cond
    else if cmd == 0xD1
    then some Kind.cond
    else if cmd == 0xD2
    then some Kind.cond
    else if cmd == 0xE0
    then some Kind.rq
    else if cmd == 0xE1
    then some Kind.rq
    else none

-- `h` is not below the number of resources, or names one of another type.
abbrev pub IsBad : Hwt → ℕ → ℕ → Type 0
IsBad hwt h kind =
    (hwt.num_resources ≤ h)
    ⊎ ((r : Resource) × (get_elem? hwt.resources h ≡ some r) × (r.type ≢ kind))

-- The process has left with 1, and nothing was answered and no object was touched.
abbrev pub Rejected : {K A : Type 0} → Machine K → Run K A → Type 0
Rejected m (exited code u) =
    (code ≡ 1)
    × (u.tx ≡ m.tx)
    × (u.boxes ≡ m.boxes)
    × (u.blocks ≡ m.blocks)
    × (u.os ≡ m.os)
    × (u.mem ≡ m.mem)
    × (u.proc ≡ m.proc)
Rejected m r = ⊥

-- How many words a command reads behind its first handle before it tests the handle
unfoldable pub arguments : ℕ → ℕ
arguments cmd =
    if cmd == 0xF1
    then 1
    else if cmd == 0xD0
    then 1
    else if cmd == 0xE0
    then 1
    else if cmd == 0xE1
    then 1
    else 0

module _ {K : Type 0} (host : Host K) (hwt : Hwt) (m : Machine K) (o : IsOpen hwt.slot m.fsl_fd)
    (h : ℕ) (rest : List ℕ) (e : m.rx hwt.slot ≡ h ∷ rest) where
  mbox_get-Rejected : IsBad hwt h Kind.mbox → Rejected m (cmd_mbox_get host hwt m)
  unfolding cmd_mbox_get fsl_read
  mbox_get-Rejected b = ground arith

  sem_wait-Rejected : IsBad hwt h Kind.sem → Rejected m (cmd_sem_wait host hwt m)
  unfolding cmd_sem_wait fsl_read
  sem_wait-Rejected b = ground arith

  sem_post-Rejected : IsBad hwt h Kind.sem → Rejected m (cmd_sem_post host hwt m)
  unfolding cmd_sem_post fsl_read
  sem_post-Rejected b = ground arith

  mutex_lock-Rejected : IsBad hwt h Kind.mutex → Rejected m (cmd_mutex_lock host hwt m)
  unfolding cmd_mutex_lock fsl_read
  mutex_lock-Rejected b = ground arith

  mutex_unlock-Rejected : IsBad hwt h Kind.mutex → Rejected m (cmd_mutex_unlock host hwt m)
  unfolding cmd_mutex_unlock fsl_read
  mutex_unlock-Rejected b = ground arith

  mutex_trylock-Rejected : IsBad hwt h Kind.mutex → Rejected m (cmd_mutex_trylock host hwt m)
  unfolding cmd_mutex_trylock fsl_read
  mutex_trylock-Rejected b = ground arith

  cond_signal-Rejected : IsBad hwt h Kind.cond → Rejected m (cmd_cond_signal host hwt m)
  unfolding cmd_cond_signal fsl_read
  cond_signal-Rejected b = ground arith

  cond_broadcast-Rejected : IsBad hwt h Kind.cond → Rejected m (cmd_cond_broadcast host hwt m)
  unfolding cmd_cond_broadcast fsl_read
  cond_broadcast-Rejected b = ground arith

module _ {K : Type 0} (host : Host K) (hwt : Hwt) (m : Machine K) (o : IsOpen hwt.slot m.fsl_fd)
    (h arg : ℕ) (rest : List ℕ) (e : m.rx hwt.slot ≡ h ∷ arg ∷ rest) where
  mbox_put-Rejected : IsBad hwt h Kind.mbox → Rejected m (cmd_mbox_put host hwt m)
  unfolding cmd_mbox_put fsl_read
  mbox_put-Rejected b = ground arith

  cond_wait-Rejected : IsBad hwt h Kind.cond → Rejected m (cmd_cond_wait host hwt m)
  unfolding cmd_cond_wait fsl_read
  cond_wait-Rejected b = ground arith

  rq_receive-Rejected : IsBad hwt h Kind.rq → Rejected m (cmd_rq_receive host hwt m)
  unfolding cmd_rq_receive fsl_read
  rq_receive-Rejected b = ground arith

  rq_send-Rejected : IsBad hwt h Kind.rq → Rejected m (cmd_rq_send host hwt m)
  unfolding cmd_rq_send fsl_read
  rq_send-Rejected b = ground arith

module _ {K : Type 0} (host : Host K) (hwt : Hwt) (m : Machine K) (o : IsOpen hwt.slot m.fsl_fd)
    (h cmd : ℕ) {kind : ℕ} (k : kind_of cmd ≡ some kind) (b : IsBad hwt h kind) where
  -- There is a word behind the handle.
  dispatch-Rejected :
      (arg : ℕ) (rest : List ℕ)
      → m.rx hwt.slot ≡ h ∷ arg ∷ rest
      → Rejected m (dispatch host hwt cmd m)
  unfolding kind_of dispatch
  dispatch-Rejected arg rest e = ground (
    arith,
    mbox_get-Rejected host hwt m o h (arg ∷ rest) e,
    sem_wait-Rejected host hwt m o h (arg ∷ rest) e,
    sem_post-Rejected host hwt m o h (arg ∷ rest) e,
    mutex_lock-Rejected host hwt m o h (arg ∷ rest) e,
    mutex_unlock-Rejected host hwt m o h (arg ∷ rest) e,
    mutex_trylock-Rejected host hwt m o h (arg ∷ rest) e,
    cond_signal-Rejected host hwt m o h (arg ∷ rest) e,
    cond_broadcast-Rejected host hwt m o h (arg ∷ rest) e,
    mbox_put-Rejected host hwt m o h arg rest e,
    cond_wait-Rejected host hwt m o h arg rest e,
    rq_receive-Rejected host hwt m o h arg rest e,
    rq_send-Rejected host hwt m o h arg rest e,
  )

  -- There is none, and the command does not read one.
  alone-Rejected : m.rx hwt.slot ≡ h ∷ [] → arguments cmd ≡ 0 → Rejected m (dispatch host hwt cmd m)
  unfolding kind_of arguments dispatch
  alone-Rejected e z = ground (
    arith,
    mbox_get-Rejected host hwt m o h [] e,
    sem_wait-Rejected host hwt m o h [] e,
    sem_post-Rejected host hwt m o h [] e,
    mutex_lock-Rejected host hwt m o h [] e,
    mutex_unlock-Rejected host hwt m o h [] e,
    mutex_trylock-Rejected host hwt m o h [] e,
    cond_signal-Rejected host hwt m o h [] e,
    cond_broadcast-Rejected host hwt m o h [] e,
  )

  any-Rejected :
      (rest : List ℕ)
      → m.rx hwt.slot ≡ h ∷ rest
      → arguments cmd ≤ length rest
      → Rejected m (dispatch host hwt cmd m)
  any-Rejected [] e le = alone-Rejected e (omega arith)
  any-Rejected (arg ∷ rest) e le = dispatch-Rejected arg rest e

module _ {K : Type 0} (host : Host K) (hwt : Hwt) (m : Machine K) (o : IsOpen hwt.slot m.fsl_fd)
    (cmd : ℕ) where
  -- A command whose first handle is out of range, or names a resource of another type, ends the
  -- process with code 1, once the words that it reads before its test have arrived (the handle, and one
  -- more for `MBOX_PUT`, `COND_WAIT`, `RQ_RECEIVE` and `RQ_SEND`): no answer is sent, and no message box,
  -- heap block, shared memory or object of the operating system has changed.
  pub bad_handle :
      (h : ℕ) (rest : List ℕ) {kind : ℕ}
      → m.rx hwt.slot ≡ cmd ∷ h ∷ rest
      → arguments cmd ≤ length rest
      → kind_of cmd ≡ some kind
      → IsBad hwt h kind
      → Rejected m (delegate_step host hwt m)
  unfolding delegate_step
  bad_handle h rest e le k b = rw (fsl_read-ok host hwt.slot m cmd (h ∷ rest) o e) (
      any-Rejected host hwt (record m { rx = update m.rx hwt.slot (h ∷ rest) }) o h cmd k b rest
        (update_self m.rx hwt.slot (h ∷ rest)) le)

  -- A command that is none of the known ones ends the process with code 1, with the same effects.
  pub unknown_command :
      (rest : List ℕ)
      → m.rx hwt.slot ≡ cmd ∷ rest
      → kind_of cmd ≡ none
      → cmd ≢ 0xA0
      → cmd ≢ 0xA2
      → Rejected m (delegate_step host hwt m)
  unfolding delegate_step dispatch kind_of
  unknown_command rest e k n0 n2 = rw (fsl_read-ok host hwt.slot m cmd rest o e) (ground arith)
