-- ===== src/Noc/Threads/Stuck.antt =====
-- The packet processing thread waits for room with the timer's mutex in its hands.
use mathlib.Core.Path.{refl, subst}
use mathlib.Core.Option.{some-injective}
use reconos_v.Base.{◌≡◌, Bool, true, false, some, arith}
use reconos_v.Noc.Packet.{Packet}
use reconos_v.Noc.Ring.{Ring}
use reconos_v.Noc.Threads.{waiting, Timer, entering, asleep, roused, timing, due, x_asleep}
use reconos_v.Noc.Threads.{
  Interface, signal_abort, processing_step, timer_step, exchange_step, send_packet, Event, step,
  Reach, here, next,
}
use reconos_v.Noc.Threads.{run_processing, run_timer, run_exchange, timeout, take, send, answer}

-- the places of the timer thread where it does not hold its mutex
abbrev pub is_out : Timer → Bool
is_out entering = true
is_out asleep = true
is_out roused = true
is_out timing = true
is_out due = true
is_out t = false

-- The processing thread waits for room for `p`, the timer thread is outside its mutex, the exchange
-- thread waits, and no exchange is asked for.
pub record IsStuck (p : Packet) (ring : Ring) (s : Interface) : Type 0 where
  pub same : s.ring ≡ ring
  pub waits : s.processing ≡ waiting p
  pub held : s.timer_mutex ≡ true
  pub out : is_out s.timer ≡ true
  pub sleeps : s.exchange ≡ x_asleep
  pub clean : s.write_pointer_dirty ≡ false

module _ {p : Packet} {ring : Ring} where
  timer_step-IsStuck :
      (t : Timer) (s : Interface) {u : Interface}
      → IsStuck p ring s
      → s.timer ≡ t
      → timer_step t s ≡ some u
      → IsStuck p ring u
  unfolding timer_step
  timer_step-IsStuck entering s i e h = ground (arith, i.held)
  timer_step-IsStuck asleep s i e h = cc
  timer_step-IsStuck roused s i e h = ground (arith, i.held)
  timer_step-IsStuck timing s i e h = cc
  timer_step-IsStuck due s i e h = ground (arith, i.held)
  timer_step-IsStuck t s i e h = ground (arith, i.out)

  abort-IsStuck :
      (t : Timer) (s : Interface)
      → IsStuck p ring s
      → s.timer ≡ t
      → IsStuck p ring (record s { timer = signal_abort t })
  abort-IsStuck timing s i e = ground arith
  abort-IsStuck t s i e = ground arith

  send-IsStuck :
      (q : Packet) (s : Interface)
      → IsStuck p ring s
      → IsStuck p ring (send_packet (some (q, true)) true s).1
  unfolding send_packet
  send-IsStuck q s i = ground arith

  step-IsStuck :
      {s u : Interface} (e : Event) → IsStuck p ring s → step e s ≡ some u → IsStuck p ring u
  unfolding step processing_step exchange_step
  step-IsStuck run_processing i h = ground (arith, i.waits)
  step-IsStuck {s} run_timer i h = timer_step-IsStuck s.timer s i refl h
  step-IsStuck run_exchange i h = ground (arith, i.sleeps)
  step-IsStuck {s} timeout i h =
      subst (λ v. IsStuck p ring v) (some-injective _ _ h) (abort-IsStuck s.timer s i refl)
  step-IsStuck take i h =
      subst (λ v. IsStuck p ring v) (some-injective _ _ h)
        (record {
          same = i.same;
          waits = i.waits;
          held = i.held;
          out = i.out;
          sleeps = i.sleeps;
          clean = i.clean;
        })
  step-IsStuck {s} (send q) i h =
      subst (λ v. IsStuck p ring v) (some-injective _ _ h) (send-IsStuck q s i)
  step-IsStuck (answer w) i h =
      subst (λ v. IsStuck p ring v) (some-injective _ _ h)
        (record {
          same = i.same;
          waits = i.waits;
          held = i.held;
          out = i.out;
          sleeps = i.sleeps;
          clean = i.clean;
        })

  -- When the processing thread waits for room, it holds the timer's mutex. If the timer thread is
  -- then outside it and no exchange of pointers is asked for, no sequence of steps of the threads,
  -- the timer, programs or the hardware ever changes the ring or ends the wait.
  pub no_way_out : {s u : Interface} → IsStuck p ring s → Reach s u → IsStuck p ring u
  no_way_out i here = i
  no_way_out i (next e r h) = step-IsStuck e (no_way_out i r) h
