-- ===== src/Delegate/Sync.antt =====
-- The replies to the commands on semaphores, mutexes and condition variables.
use reconos_v.Base.{
  ℕ, ◌<◌, ◌≡◌, Bool, true, false, Option, none, some, List, [], ◌∷◌, ◌++◌, get_elem?, arith,
}
use reconos_v.Base.{◌==◌, if◌then◌else◌}
use reconos_v.Kind
use reconos_v.Machine.{Host, Machine, Hwt, Resource, Run, ok, blocked}
use reconos_v.Fsl.{fsl_read, fsl_write}
use reconos_v.Fsl.Link.{IsOpen, fsl_read-ok}
use reconos_v.Delegate.{
  cmd_sem_wait, cmd_sem_post, cmd_mutex_lock, cmd_mutex_unlock, cmd_mutex_trylock, cmd_cond_wait,
  cmd_cond_signal, cmd_cond_broadcast, dispatch, delegate_step,
}

-- The kind of resource, the call of the operating system, and whether the hardware thread is told
-- its result.
pub record Service (K : Type 0) : Type 0 where
  pub kind : ℕ
  pub call : ℕ → K → Option (ℕ × K)
  pub reports : Bool

abbrev pub service : {K : Type 0} → ℕ → (ℕ → K → Option (ℕ × K)) → Bool → Option (Service K)
service k c b = some (record { kind = k; call = c; reports = b })

-- the commands with one handle and no further argument
unfoldable pub service_of : {K : Type 0} → Host K → ℕ → Option (Service K)
service_of host cmd =
    if cmd == 0xB1
    then service Kind.sem host.sem_wait true
    else if cmd == 0xB0
    then service Kind.sem host.sem_post false
    else if cmd == 0xC0
    then service Kind.mutex host.mutex_lock true
    else if cmd == 0xC1
    then service Kind.mutex host.mutex_unlock false
    else if cmd == 0xC2
    then service Kind.mutex host.mutex_trylock true
    else if cmd == 0xD1
    then service Kind.cond host.cond_signal false
    else if cmd == 0xD2
    then service Kind.cond host.cond_broadcast false
    else none

-- `r` is the resource behind the handle `h`.
pub record Names (hwt : Hwt) (h : ℕ) (r : Resource) (kind : ℕ) : Type 0 where
  pub in_range : h < hwt.num_resources
  pub entry : get_elem? hwt.resources h ≡ some r
  pub typed : r.type ≡ kind

-- What a round comes to, by the outcome of the call: it waits with no answer, or answers one word.
abbrev pub Served :
    {K : Type 0}
    → Machine K
    → (slot : ℕ) (rest : List ℕ) → Option (ℕ × K)
    → (ℕ → ℕ)
    → Run K Bool
    → Type 0
Served m slot rest none told (blocked u) = (u.tx ≡ m.tx) × (u.os ≡ m.os) × (u.boxes ≡ m.boxes)
Served m slot rest (some (res, os)) told (ok more u) =
    (more ≡ true)
    × (u.tx slot ≡ m.tx slot ++ (told res ∷ []))
    × (u.rx slot ≡ rest)
    × (u.os ≡ os)
    × (u.boxes ≡ m.boxes)
    × (u.blocks ≡ m.blocks)
Served m slot rest o told r = ⊥

module _ {K : Type 0} (host : Host K) (hwt : Hwt) (m : Machine K)
    (o : IsOpen hwt.slot m.fsl_fd) where
  -- Each of the seven commands makes its one call on the named object. If the call blocks, nothing
  -- is answered. If it returns, one word is: its result for waiting, locking and trying to lock,
  -- and 0, whatever the result, for posting, unlocking, signalling and broadcasting.
  pub sync_reply :
      (cmd h : ℕ) (rest : List ℕ) (r : Resource) (s : Service K)
      → m.rx hwt.slot ≡ cmd ∷ h ∷ rest
      → service_of host cmd ≡ some s
      → Names hwt h r s.kind
      → Served m hwt.slot rest
          (s.call r.ptr m.os)
          (λ res. if s.reports then res else 0)
          (delegate_step host hwt m)
  unfolding service_of delegate_step dispatch cmd_sem_wait cmd_sem_post cmd_mutex_lock
      cmd_mutex_unlock cmd_mutex_trylock cmd_cond_signal cmd_cond_broadcast fsl_read fsl_write
  sync_reply cmd h rest r s e k n =
      rw (fsl_read-ok host hwt.slot m cmd (h ∷ rest) o e) (ground arith)

  -- A wait on a condition variable hands the call the condition variable and the mutex behind its
  -- two handles, and answers the call's result.
  pub cond_wait_reply :
      (h h2 : ℕ) (rest : List ℕ) (c x : Resource)
      → m.rx hwt.slot ≡ 0xD0 ∷ h ∷ h2 ∷ rest
      → Names hwt h c Kind.cond
      → Names hwt h2 x Kind.mutex
      → Served m hwt.slot rest
          (host.cond_wait c.ptr x.ptr m.os)
          (λ res. res)
          (delegate_step host hwt m)
  unfolding delegate_step dispatch cmd_cond_wait fsl_read fsl_write
  cond_wait_reply h h2 rest c x e n n2 =
      rw (fsl_read-ok host hwt.slot m 0xD0 (h ∷ h2 ∷ rest) o e) (ground arith)
