-- ===== src/Delegate.antt =====
-- The delegate thread of a hardware thread, `delegate_thread_entry` of
-- linux/libreconos/libreconos.c: it reads commands from the link of its slot and serves them.
pub mod Frame
pub mod Boxes
pub mod Words
pub mod Send
pub mod Receive
pub mod RoundTrip
pub mod Reject
pub mod Start
pub mod Sync
use reconos_v.Base.{
  ℕ, zero, suc, ◌+◌, ◌/◌, ◌^◌, Option, none, some, List, [], ◌∷◌, Bool, true, false, ◌||◌, ◌&&◌,
}
use reconos_v.Base.{ltb, leb, ◌==◌, if◌then◌else◌, get_elem?, length, not}
use reconos_v.Machine.{
  Resource, Hwt, Host, Machine, Cmd, Run, ok, blocked, exited, fault, pure, exit,
}
use reconos_v.Machine.{◌>>=◌, ◌>>◌, and_then}
use reconos_v.Fsl.{fsl_write, fsl_read}
use reconos_v.Rq.{box_put, box_get, rq_receive, rq_send, malloc}
use reconos_v.Kind
use reconos_v.Process.{slot_reset}

-- A call of the operating system on the machine's state; one that blocks leaves it as it was.
abbrev pub os_call : {K : Type 0} → (K → Option (ℕ × K)) → Cmd K ℕ
os_call call m = elim (call m.os) [
  | none ↦ blocked m
  | some (result, os) ↦ ok result (record m { os = os })
]

module _ {K : Type 0} (host : Host K) (hwt : Hwt) where
  abbrev pub read : Cmd K ℕ
  read = fsl_read host hwt.slot

  abbrev pub reply : ℕ → Cmd K (Unit {0})
  reply v = fsl_write host hwt.slot v

  -- `handle >= hwt->num_resources`
  unfoldable pub check_range : ℕ → Cmd K (Unit {0})
  check_range handle = if leb hwt.num_resources handle then exit 1 else pure tt

  -- The test of the type, and `hwt->resources[handle].ptr`. An entry outside the array is undefined.
  unfoldable pub check_type : ℕ → ℕ → Cmd K ℕ
  check_type handle kind = elim (get_elem? hwt.resources handle) [
    | none ↦ fault
    | some r ↦ if r.type == kind then pure r.ptr else exit 1
  ]

  -- the two tests that each handler makes of its handle
  unfoldable pub resource : ℕ → ℕ → Cmd K ℕ
  unfolding check_range check_type
  resource handle kind = do check_range handle; check_type handle kind

  unfoldable pub cmd_mbox_get : Cmd K (Unit {0})
  unfolding resource
  cmd_mbox_get = do
    handle ← read
    ptr ← resource handle Kind.mbox
    result ← box_get ptr
    reply result

  unfoldable pub cmd_mbox_put : Cmd K (Unit {0})
  unfolding resource
  cmd_mbox_put = do
    handle ← read
    arg0 ← read
    ptr ← resource handle Kind.mbox
    box_put ptr arg0
    reply 0

  unfoldable pub cmd_sem_wait : Cmd K (Unit {0})
  unfolding resource
  cmd_sem_wait = do
    handle ← read
    ptr ← resource handle Kind.sem
    result ← os_call (host.sem_wait ptr)
    reply result

  unfoldable pub cmd_sem_post : Cmd K (Unit {0})
  unfolding resource
  cmd_sem_post = do
    handle ← read
    ptr ← resource handle Kind.sem
    result ← os_call (host.sem_post ptr)
    reply 0

  unfoldable pub cmd_mutex_lock : Cmd K (Unit {0})
  unfolding resource
  cmd_mutex_lock = do
    handle ← read
    ptr ← resource handle Kind.mutex
    result ← os_call (host.mutex_lock ptr)
    reply result

  unfoldable pub cmd_mutex_unlock : Cmd K (Unit {0})
  unfolding resource
  cmd_mutex_unlock = do
    handle ← read
    ptr ← resource handle Kind.mutex
    result ← os_call (host.mutex_unlock ptr)
    reply 0

  unfoldable pub cmd_mutex_trylock : Cmd K (Unit {0})
  unfolding resource
  cmd_mutex_trylock = do
    handle ← read
    ptr ← resource handle Kind.mutex
    result ← os_call (host.mutex_trylock ptr)
    reply result

  unfoldable pub cmd_cond_wait : Cmd K (Unit {0})
  unfolding check_range check_type
  cmd_cond_wait = do
    handle ← read
    handle2 ← read
    check_range handle
    check_range handle2
    cond ← check_type handle Kind.cond
    mutex ← check_type handle2 Kind.mutex
    result ← os_call (host.cond_wait cond mutex)
    reply result

  unfoldable pub cmd_cond_signal : Cmd K (Unit {0})
  unfolding resource
  cmd_cond_signal = do
    handle ← read
    ptr ← resource handle Kind.cond
    result ← os_call (host.cond_signal ptr)
    reply 0

  unfoldable pub cmd_cond_broadcast : Cmd K (Unit {0})
  unfolding resource
  cmd_cond_broadcast = do
    handle ← read
    ptr ← resource handle Kind.cond
    result ← os_call (host.cond_broadcast ptr)
    reply 0

  -- `for(i = 0; i < n; i++) fsl_write(hwt->slot, msg[i])`; a word that was never written to `msg` is
  -- undefined.
  unfoldable pub reply_words : ℕ → List ℕ → Cmd K (Unit {0})
  reply_words zero msg = pure tt
  reply_words (suc n) [] = fault
  reply_words (suc n) (w ∷ ws) = reply w >> reply_words n ws

  abbrev pub words_of : Option (List ℕ) → List ℕ
  words_of none = []
  words_of (some ws) = ws

  -- The test `result < 0` of the code is on an unsigned number, so its branch is never taken.
  unfoldable pub answer : ℕ → ℕ × Option (List ℕ) → Cmd K (Unit {0})
  unfolding reply_words
  answer msg_size (result, words) =
      if result == 0 || ltb msg_size result
      then reply 0
      else (reply result >> reply_words (result / 4) (words_of words))

  unfoldable pub receive_message : (ptr msg_size : ℕ) → Cmd K (Unit {0})
  unfolding answer
  receive_message ptr msg_size = do
    msg ← malloc host msg_size
    received ← rq_receive ptr msg msg_size
    answer msg_size received

  unfoldable pub cmd_rq_receive : Cmd K (Unit {0})
  unfolding resource receive_message
  cmd_rq_receive = do
    handle ← read
    msg_size ← read
    ptr ← resource handle Kind.rq
    receive_message ptr msg_size

  -- `for(i = 0; i < n; i++) msg[i] = fsl_read(hwt->slot)`
  unfoldable pub read_words : ℕ → Cmd K (List ℕ)
  read_words zero = pure []
  read_words (suc n) = do w ← read; ws ← read_words n; pure (w ∷ ws)

  -- A null pointer `msg` is written through, or copied from, unless the message is empty.
  unfoldable pub send_message : (ptr msg_size msg : ℕ) → Cmd K (Unit {0})
  unfolding read_words
  send_message ptr msg_size msg =
      if msg == 0 && not (msg_size == 0)
      then fault
      else do words ← read_words (msg_size / 4); rq_send host ptr words msg_size; reply 0

  unfoldable pub cmd_rq_send : Cmd K (Unit {0})
  unfolding resource send_message
  cmd_rq_send = do
    handle ← read
    msg_size ← read
    ptr ← resource handle Kind.rq
    msg ← malloc host msg_size
    send_message ptr msg_size msg

  unfoldable pub cmd_get_init_data : Cmd K (Unit {0})
  cmd_get_init_data = reply hwt.init_data

  -- One round of the loop: whether the thread goes on.
  unfoldable pub dispatch : ℕ → Cmd K Bool
  dispatch cmd =
      if cmd == 0xF0
      then cmd_mbox_get >> pure true
      else if cmd == 0xF1
      then cmd_mbox_put >> pure true
      else if cmd == 0xB1
      then cmd_sem_wait >> pure true
      else if cmd == 0xB0
      then cmd_sem_post >> pure true
      else if cmd == 0xC0
      then cmd_mutex_lock >> pure true
      else if cmd == 0xC1
      then cmd_mutex_unlock >> pure true
      else if cmd == 0xC2
      then cmd_mutex_trylock >> pure true
      else if cmd == 0xD0
      then cmd_cond_wait >> pure true
      else if cmd == 0xD1
      then cmd_cond_signal >> pure true
      else if cmd == 0xD2
      then cmd_cond_broadcast >> pure true
      else if cmd == 0xE0
      then cmd_rq_receive >> pure true
      else if cmd == 0xE1
      then cmd_rq_send >> pure true
      else if cmd == 0xA0
      then cmd_get_init_data >> pure true
      else if cmd == 0xA2
      then pure false
      else exit 1

  unfoldable pub delegate_step : Cmd K Bool
  delegate_step = do cmd ← read; dispatch cmd

  -- `rounds` bounds the rounds of the loop; `true` says that the thread would go on.
  unfoldable pub delegate_loop : ℕ → Cmd K Bool
  unfolding delegate_step
  delegate_loop zero = pure true
  delegate_loop (suc rounds) = do
    more ← delegate_step
    elim more [ true ↦ delegate_loop rounds | false ↦ pure false ]

  unfoldable pub delegate_thread_entry : ℕ → Cmd K Bool
  unfolding delegate_loop
  delegate_thread_entry rounds = do
    slot_reset host hwt.slot true
    slot_reset host hwt.slot false
    delegate_loop rounds
