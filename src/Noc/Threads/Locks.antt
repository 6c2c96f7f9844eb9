-- ===== src/Noc/Threads/Locks.antt =====
-- The two mutexes of the interface: who holds them.
use reconos_v.Base.{ℕ, ◌+◌, ◌≡◌, Bool, true, false, Option, none, some, List, [], ◌∷◌, arith}
use mathlib.Core.Path.{refl, subst}
use mathlib.Core.Option.{some-injective}
use reconos_v.Noc.Packet.{Packet}
use reconos_v.Noc.Ring.{Ring, write_packet}
use reconos_v.Noc.Threads.{
  Processing, idle, lock_timer, lock_pointers, polling, ended, waiting, waking, writing,
}
use reconos_v.Noc.Threads.{
  Timer, entering, checking, asleep, roused, timing, due, testing, locking, firing,
}
use reconos_v.Noc.Threads.{
  Exchange, x_entering, x_checking, x_asleep, x_roused, x_fetching, x_putting, x_getting, x_locking,
  x_storing,
}
use reconos_v.Noc.Threads.{
  Interface, signal_abort, finish, announce, poll_packet, processing_step, timer_step,
  exchange_step, send_packet, Event, step, Reach, here, next, begin,
}
use reconos_v.Noc.Threads.{run_processing, run_timer, run_exchange, timeout, take, send, answer}

-- 1 for a thread that holds `timerMutex`
abbrev pub p_timer : Processing → ℕ
p_timer idle = 0
p_timer lock_timer = 0
p_timer ended = 1
p_timer p = 1

abbrev pub t_timer : Timer → ℕ
t_timer checking = 1
t_timer testing = 1
t_timer locking = 1
t_timer firing = 1
t_timer t = 0

-- 1 for a thread that holds `pointersMutex`
abbrev pub p_pointers : Processing → ℕ
p_pointers polling = 1
p_pointers (writing p) = 1
p_pointers ended = 1
p_pointers p = 0

abbrev pub t_pointers : Timer → ℕ
t_pointers firing = 1
t_pointers t = 0

abbrev pub x_pointers : Exchange → ℕ
x_pointers x_checking = 1
x_pointers x_fetching = 1
x_pointers (x_storing w) = 1
x_pointers x = 0

abbrev pub count : Bool → ℕ
count true = 1
count false = 0

-- As many threads are between lock and unlock of a mutex as it is held: at most one.
pub record IsLocked (s : Interface) : Type 0 where
  pub timer_count : p_timer s.processing + t_timer s.timer ≡ count s.timer_mutex
  pub pointers_count :
      p_pointers s.processing + t_pointers s.timer + x_pointers s.exchange ≡ count s.pointers_mutex

poll_packet-IsLocked :
    (ps : List Packet) (s : Interface)
    → IsLocked s
    → s.processing ≡ polling
    → IsLocked (poll_packet ps s)
unfolding poll_packet
poll_packet-IsLocked [] s i e = ground arith
poll_packet-IsLocked (p ∷ ps) s i e = ground arith

announce-IsLocked :
    (p : Packet) (s : Interface)
    → ((announce p s).processing ≡ s.processing)
      × (t_timer (announce p s).timer ≡ t_timer s.timer)
      × (t_pointers (announce p s).timer ≡ t_pointers s.timer)
      × (x_pointers (announce p s).exchange ≡ x_pointers s.exchange)
unfolding announce
announce-IsLocked p s = (ground arith, ground arith, ground arith, ground arith)

finish-IsLocked :
    (p : Packet) (o : Option Ring) (s : Interface)
    → IsLocked s
    → s.processing ≡ writing p
    → IsLocked (finish p o s)
finish-IsLocked p none s i e = ground arith
finish-IsLocked p (some r) s i e = ground (arith, announce-IsLocked p (record s { ring = r }))

processing_step-IsLocked :
    (t : Processing) (s : Interface) {u : Interface}
    → IsLocked s
    → s.processing ≡ t
    → processing_step t s ≡ some u
    → IsLocked u
unfolding processing_step
processing_step-IsLocked idle s i e h = ground arith
processing_step-IsLocked lock_timer s i e h = ground arith
processing_step-IsLocked lock_pointers s i e h = ground arith
processing_step-IsLocked polling s i e h =
    subst IsLocked (some-injective _ _ h) (poll_packet-IsLocked s.packets s i e)
processing_step-IsLocked (waiting p) s i e h = cc
processing_step-IsLocked (waking p) s i e h = ground arith
processing_step-IsLocked (writing p) s i e h =
    subst IsLocked (some-injective _ _ h) (finish-IsLocked p (write_packet s.ring p) s i e)
processing_step-IsLocked ended s i e h = cc

timer_step-IsLocked :
    (t : Timer) (s : Interface) {u : Interface}
    → IsLocked s
    → s.timer ≡ t
    → timer_step t s ≡ some u
    → IsLocked u
unfolding timer_step
timer_step-IsLocked entering s i e h = ground arith
timer_step-IsLocked checking s i e h = ground arith
timer_step-IsLocked asleep s i e h = cc
timer_step-IsLocked roused s i e h = ground arith
timer_step-IsLocked timing s i e h = cc
timer_step-IsLocked due s i e h = ground arith
timer_step-IsLocked testing s i e h = ground arith
timer_step-IsLocked locking s i e h = ground arith
timer_step-IsLocked firing s i e h = ground arith

exchange_step-IsLocked :
    (t : Exchange) (s : Interface) {u : Interface}
    → IsLocked s
    → s.exchange ≡ t
    → exchange_step t s ≡ some u
    → IsLocked u
unfolding exchange_step
exchange_step-IsLocked x_entering s i e h = ground arith
exchange_step-IsLocked x_checking s i e h = ground arith
exchange_step-IsLocked x_asleep s i e h = cc
exchange_step-IsLocked x_roused s i e h = ground arith
exchange_step-IsLocked x_fetching s i e h = ground arith
exchange_step-IsLocked x_putting s i e h = ground arith
exchange_step-IsLocked x_getting s i e h = ground arith
exchange_step-IsLocked (x_locking w) s i e h = ground arith
exchange_step-IsLocked (x_storing w) s i e h = ground arith

abort-IsLocked :
    (t : Timer) (s : Interface)
    → IsLocked s
    → s.timer ≡ t
    → IsLocked (record s { timer = signal_abort t })
abort-IsLocked timing s i e = ground arith
abort-IsLocked t s i e = ground arith

send-IsLocked :
    (p : Packet) (s : Interface) → IsLocked s → IsLocked (send_packet (some (p, true)) true s).1
unfolding send_packet
send-IsLocked p s i = ground arith

step-IsLocked : {s u : Interface} (e : Event) → IsLocked s → step e s ≡ some u → IsLocked u
unfolding step
step-IsLocked {s} run_processing i h = processing_step-IsLocked s.processing s i refl h
step-IsLocked {s} run_timer i h = timer_step-IsLocked s.timer s i refl h
step-IsLocked {s} run_exchange i h = exchange_step-IsLocked s.exchange s i refl h
step-IsLocked {s} timeout i h =
    subst IsLocked (some-injective _ _ h) (abort-IsLocked s.timer s i refl)
step-IsLocked take i h =
    subst IsLocked (some-injective _ _ h)
      (record { timer_count = i.timer_count; pointers_count = i.pointers_count })
step-IsLocked {s} (send p) i h = subst IsLocked (some-injective _ _ h) (send-IsLocked p s i)
step-IsLocked (answer w) i h =
    subst IsLocked (some-injective _ _ h)
      (record { timer_count = i.timer_count; pointers_count = i.pointers_count })

Reach-IsLocked : {s u : Interface} → IsLocked s → Reach s u → IsLocked u
Reach-IsLocked i here = i
Reach-IsLocked i (next e r h) = step-IsLocked e (Reach-IsLocked i r) h

-- In every reachable state each of the two mutexes is held by at most one of the threads, and is
-- free just when none is between its lock and its unlock.
pub one_holder : {buffer : List ℕ} {s : Interface} → Reach (begin buffer) s → IsLocked s
one_holder r = Reach-IsLocked (record { timer_count = refl; pointers_count = refl }) r
