-- ===== src/Mbox/Threads.antt =====
-- Any number of threads inside `mbox_put` and `mbox_get` of linux/libreconos/mbox.c at once: each
-- statement of the two functions is one step, and the steps of the threads interleave freely.
pub mod Account
pub mod Owners
pub mod Fifo
pub mod Whole
use reconos_v.Base.{ℕ, ◌+◌, ◌%◌, ◌≡◌, Option, none, some, List, [], ◌∷◌, ◌++◌, set, get_elem?}
use reconos_v.Base.{if◌then◌else◌, ◌==◌}
use reconos_v.Base.Maybe.{◌>>=◌}
use reconos_v.Mbox.{Mbox, sem_wait, sem_post, mutex_lock, mutex_unlock}

-- how far a thread is in `mbox_put`: behind the statement that the name tells
pub data PutPhase : Type 0 where
  outside locked claimed stored advanced posted : PutPhase

-- how far a thread is in `mbox_get`, with the message that it has read
pub data GetPhase : Type 0 where
  absent held granted : GetPhase
  fetched moved freed : ℕ → GetPhase

unfoldable pub put_step : ℕ → PutPhase → Mbox → Option (PutPhase × Mbox)
put_step msg outside mb = do
  m ← mutex_lock mb.mutex_write
  some (locked, record mb { mutex_write = m })
put_step msg locked mb = do n ← sem_wait mb.sem_write; some (claimed, record mb { sem_write = n })
put_step msg claimed mb = some (stored, record mb { messages = set mb.messages mb.write_idx msg })
put_step msg stored mb = some (advanced, record mb { write_idx = (mb.write_idx + 1) % mb.size })
put_step msg advanced mb = some (posted, record mb { sem_read = sem_post mb.sem_read })
put_step msg posted mb = some (outside, record mb { mutex_write = mutex_unlock mb.mutex_write })

unfoldable pub get_step : GetPhase → Mbox → Option (GetPhase × Mbox)
get_step absent mb = do m ← mutex_lock mb.mutex_read; some (held, record mb { mutex_read = m })
get_step held mb = do n ← sem_wait mb.sem_read; some (granted, record mb { sem_read = n })
get_step granted mb = do msg ← get_elem? mb.messages mb.read_idx; some (fetched msg, mb)
get_step (fetched v) mb = some (moved v, record mb { read_idx = (mb.read_idx + 1) % mb.size })
get_step (moved v) mb = some (freed v, record mb { sem_write = sem_post mb.sem_write })
get_step (freed v) mb = some (absent, record mb { mutex_read = mutex_unlock mb.mutex_read })

-- A thread is in no call, in `mbox_put(msg)` or in `mbox_get`.
pub data Pc : Type 0 where
  idle : Pc
  putting : ℕ → PutPhase → Pc
  getting : GetPhase → Pc

-- `puts` and `gets` record the messages that were stored and read, in order.
pub record System : Type 0 where
  pub box : Mbox
  pub pc : ℕ → Pc
  pub puts : List ℕ
  pub gets : List ℕ

abbrev pub update : (ℕ → Pc) → ℕ → Pc → ℕ → Pc
update pc t p u = if u == t then p else pc u

abbrev pub after_put : ℕ → PutPhase → Pc
after_put msg outside = idle
after_put msg p = putting msg p

abbrev pub after_get : GetPhase → Pc
after_get absent = idle
after_get g = getting g

abbrev pub log_put : PutPhase → ℕ → List ℕ → List ℕ
log_put claimed msg l = l ++ (msg ∷ [])
log_put p msg l = l

abbrev pub log_get : GetPhase → List ℕ → List ℕ
log_get (fetched v) l = l ++ (v ∷ [])
log_get g l = l

-- The next statement of thread `t`; `none` while it has to wait.
unfoldable pub resume : Pc → ℕ → System → Option System
resume idle t s = none
resume (putting msg p) t s = do
  (p', mb) ← put_step msg p s.box
  some (record s { box = mb; pc = update s.pc t (after_put msg p'); puts = log_put p msg s.puts })
resume (getting g) t s = do
  (g', mb) ← get_step g s.box
  some (record s { box = mb; pc = update s.pc t (after_get g'); gets = log_get g' s.gets })

-- A thread that is in no call starts one; any other goes on.
pub data Event : Type 0 where
  call_put : ℕ → ℕ → Event
  call_get : ℕ → Event
  go : ℕ → Event

unfoldable pub enter : Pc → Pc → ℕ → System → Option System
enter idle call t s = resume call t s
enter p call t s = none

unfoldable pub step : Event → System → Option System
unfolding enter
step (call_put t msg) s = enter (s.pc t) (putting msg outside) t s
step (call_get t) s = enter (s.pc t) (getting absent) t s
step (go t) s = resume (s.pc t) t s

-- the schedules of any length
pub data Reach (s : System) : System → Type 0 where
  here : Reach s s
  next : {t u : System} (e : Event) → Reach s t → step e t ≡ some u → Reach s u

-- every thread is outside both functions and nothing has been sent
unfoldable pub begin : Mbox → System
begin mb = record { box = mb; pc = λ t. idle; puts = []; gets = [] }
