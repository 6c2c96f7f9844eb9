-- ===== src/Noc/Threads/Delivery.antt =====
-- The interface accounts for every write offset that the exchange thread has not recorded.
use mathlib.Core.Path.{refl, subst}
use mathlib.Core.Option.{some-injective}
use reconos_v.Base.{
  ℕ, ◌/◌, ◌≡◌, ◌⊎◌, inl, Bool, true, false, Option, none, some, List, [], ◌∷◌, arith,
}
use reconos_v.Noc.Packet.{Packet}
use reconos_v.Noc.Ring.{Ring, write_packet}
use reconos_v.Noc.Threads.{Processing, polling, writing}
use reconos_v.Noc.Threads.{Timer, entering}
use reconos_v.Noc.Threads.{Exchange, x_entering, x_roused, x_fetching}
use reconos_v.Noc.Threads.{
  Interface, finish, announce, poll_packet, processing_step, timer_step, exchange_step, send_packet,
  Event, step, Reach, here, next, begin,
}
use reconos_v.Noc.Threads.{run_processing, run_timer, run_exchange, timeout, take, send, answer}

-- the exchange thread is about to fetch the write offset
abbrev pub is_fetching : Exchange → Bool
is_fetching x_roused = true
is_fetching x_fetching = true
is_fetching x = false

-- The write offset is recorded in `hw_write_offset`, or marked as dirty, or the timer is asked to start
-- or counts as running, or the exchange thread is about to fetch the offset.
abbrev pub IsAccounted : Interface → Type 0
IsAccounted s =
    (s.ring.hw_write_offset ≡ s.ring.write_offset / 4)
    ⊎ (s.write_pointer_dirty ≡ true)
    ⊎ (s.start_timer ≡ true)
    ⊎ (s.timer_running ≡ true)
    ⊎ (is_fetching s.exchange ≡ true)

announce-IsAccounted : (p : Packet) (s : Interface) → IsAccounted (announce p s)
unfolding announce
announce-IsAccounted p s = ground arith

poll_packet-IsAccounted :
    (ps : List Packet) (s : Interface) → IsAccounted s → IsAccounted (poll_packet ps s)
unfolding poll_packet
poll_packet-IsAccounted [] s i = ground arith
poll_packet-IsAccounted (p ∷ ps) s i = ground arith

finish-IsAccounted :
    (p : Packet) (o : Option Ring) (s : Interface) → IsAccounted s → IsAccounted (finish p o s)
finish-IsAccounted p none s i = ground arith
finish-IsAccounted p (some r) s i = announce-IsAccounted p (record s { ring = r })

processing_step-IsAccounted :
    (t : Processing) (s : Interface) {u : Interface}
    → IsAccounted s
    → processing_step t s ≡ some u
    → IsAccounted u
unfolding processing_step
processing_step-IsAccounted polling s i h =
    subst IsAccounted (some-injective _ _ h) (poll_packet-IsAccounted s.packets s i)
processing_step-IsAccounted (writing p) s i h =
    subst IsAccounted (some-injective _ _ h) (finish-IsAccounted p (write_packet s.ring p) s i)
processing_step-IsAccounted t s i h = ground arith

timer_step-IsAccounted :
    (t : Timer) (s : Interface) {u : Interface}
    → IsAccounted s
    → timer_step t s ≡ some u
    → IsAccounted u
unfolding timer_step
timer_step-IsAccounted entering s i h = ground arith
timer_step-IsAccounted t s i h = ground arith

exchange_step-IsAccounted :
    (t : Exchange) (s : Interface) {u : Interface}
    → IsAccounted s
    → s.exchange ≡ t
    → exchange_step t s ≡ some u
    → IsAccounted u
unfolding exchange_step
exchange_step-IsAccounted x_entering s i e h = ground arith
exchange_step-IsAccounted t s i e h = ground arith

step-IsAccounted : (s u : Interface) (e : Event) → IsAccounted s → step e s ≡ some u → IsAccounted u
unfolding step send_packet
step-IsAccounted s u run_processing i h = processing_step-IsAccounted s.processing s i h
step-IsAccounted s u run_timer i h = timer_step-IsAccounted s.timer s i h
step-IsAccounted s u run_exchange i h = exchange_step-IsAccounted s.exchange s i refl h
step-IsAccounted s u timeout i h = ground arith
step-IsAccounted s u take i h = ground arith
step-IsAccounted s u (send p) i h = ground arith
step-IsAccounted s u (answer w) i h = ground arith

Reach-IsAccounted : {s u : Interface} → IsAccounted s → Reach s u → IsAccounted u
Reach-IsAccounted i here = i
Reach-IsAccounted i (next {t} {u} e r h) = step-IsAccounted t u e (Reach-IsAccounted i r) h

-- In every reachable state the write offset in words is the one that the exchange thread has last
-- recorded in `hw_write_offset`, or one of these records that it is not: the offset is marked as dirty,
-- the timer is asked to start or counts as running, or the exchange thread is about to fetch the offset.
-- That a thread then goes on is not part of it.
pub begin-IsAccounted : {buffer : List ℕ} {s : Interface} → Reach (begin buffer) s → IsAccounted s
begin-IsAccounted r = Reach-IsAccounted (inl refl) r
