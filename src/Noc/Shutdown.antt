-- ===== src/Noc/Shutdown.antt =====
-- The end of the network interface, projects/noc_test/linux/hwSwIf/reconosNoC.c: `reconosNoCStop`, the
-- control thread with the clean-up of the threads that it cancels, and the thread that takes pointers
-- from the hardware.
use reconos_v.Base.{ℕ, zero, suc, ◌+◌, Option, some, List, [], ◌∷◌, ◌≡◌, refl}
use reconos_v.Base.{length, arith}
use reconos_v.Base.Maybe.{◌>>=◌}
use reconos_v.Mbox.{Mbox, mbox_get}
use reconos_v.Mbox.Holds.{Holds, get-Holds}

-- A thread runs, was cancelled, or returned a pointer.
pub data Life : Type 0 where
  running cancelled : Life
  returned : ℕ → Life

-- `killThreadsSem` and the threads of the two directions
pub record Threads : Type 0 where
  pub kill_sem : ℕ
  pub sw2hw_exchange : Life
  pub sw2hw_timer : Life
  pub sw2hw_processing : Life
  pub hw2sw_exchange : Life

-- What the control thread prints of a thread: its cancellation, or the code that its pointer leads to.
pub data Report : Type 0 where
  by_cancel : Report
  with_code : ℕ → Report

-- The control thread waits, reads through a null pointer, or returns.
pub data Outcome : Type 0 where
  waits crashes : Outcome
  finishes : List Report → Threads → Outcome

unfoldable pub noc_stop : Threads → Threads
noc_stop t = record t { kill_sem = t.kill_sem + 1 }

unfoldable pub basic_thread_cleanup : Threads → Threads
basic_thread_cleanup t = record t { kill_sem = t.kill_sem + 1 }

-- `pthread_cancel` of a thread that has pushed the clean-up handler, which then runs.
abbrev pub cancel : Life → Life
cancel running = cancelled
cancel cancelled = cancelled
cancel (returned p) = returned p

abbrev pub after_cancel : Life → Threads → Threads
after_cancel running t = basic_thread_cleanup t
after_cancel cancelled t = t
after_cancel (returned p) t = t

-- `memory` is what a thread's pointer leads to; the null pointer leads nowhere. A thread that has not
-- ended would be waited for.
abbrev pub join : (memory : ℕ → ℕ) → Life → (Report → Outcome) → Outcome
join memory running go = waits
join memory cancelled go = go by_cancel
join memory (returned zero) go = crashes
join memory (returned (suc p)) go = go (with_code (memory (suc p)))

unfoldable pub cancel_all : Threads → Threads
cancel_all t =
    let t1 =
      after_cancel t.sw2hw_exchange (record t { sw2hw_exchange = cancel t.sw2hw_exchange }) in
    let t2 = after_cancel t1.sw2hw_timer (record t1 { sw2hw_timer = cancel t1.sw2hw_timer }) in
    after_cancel t2.sw2hw_processing (record t2 { sw2hw_processing = cancel t2.sw2hw_processing })

unfoldable pub join_all : (memory : ℕ → ℕ) → Threads → Outcome
join_all memory t = join memory t.sw2hw_exchange λ r1.
    join memory t.sw2hw_timer
      λ r2. join memory t.sw2hw_processing λ r3. finishes (r1 ∷ r2 ∷ r3 ∷ []) t

unfoldable pub thread_control_main : (memory : ℕ → ℕ) → Threads → Outcome
thread_control_main memory t = wait t.kill_sem
  where
    wait : ℕ → Outcome
    wait zero = waits
    wait (suc n) = join_all memory (cancel_all (record t { kill_sem = n }))

-- The threads of the direction to the hardware run, `posts` posts have not been taken, and the thread
-- of the other direction is in some state.
abbrev pub all_running : (posts : ℕ) → Life → Threads
all_running posts other = record {
  kill_sem = posts;
  sw2hw_exchange = running;
  sw2hw_timer = running;
  sw2hw_processing = running;
  hw2sw_exchange = other;
}

-- While nobody has posted, the control thread waits. After `reconosNoCStop`, or after the clean-up of a
-- thread, it returns with the three threads of the direction to the hardware cancelled; their
-- clean-ups have posted three times more, and the thread of the other direction is as it was.
pub stop_ends_threads :
    (memory : ℕ → ℕ) (posts : ℕ) (other : Life)
    → let ended = finishes (by_cancel ∷ by_cancel ∷ by_cancel ∷ []) record {
      kill_sem = posts + 3;
      sw2hw_exchange = cancelled;
      sw2hw_timer = cancelled;
      sw2hw_processing = cancelled;
      hw2sw_exchange = other;
    } in
      (thread_control_main memory (all_running 0 other) ≡ waits)
      × (thread_control_main memory (noc_stop (all_running posts other)) ≡ ended)
      × (thread_control_main memory (basic_thread_cleanup (all_running posts other)) ≡ ended)
unfolding thread_control_main noc_stop cancel_all join_all basic_thread_cleanup
stop_ends_threads memory posts other =
    let one : posts + 1 ≡ suc posts = omega arith in
    let three : posts + 1 + 1 + 1 ≡ posts + 3 = omega arith in
    (refl, rw (one, three) refl, rw (one, three) refl)

-- A turn of `hw2swPointerExchangeThreadMain`.
unfoldable pub hw2sw_turn : Mbox → Option (ℕ × Mbox)
hw2sw_turn mb_get = mbox_get mb_get

unfoldable pub hw2sw_turns : (count : ℕ) → Mbox → Option Mbox
hw2sw_turns zero mb_get = some mb_get
hw2sw_turns (suc count) mb_get = do (msg, rest) ← hw2sw_turn mb_get; hw2sw_turns count rest

-- The thread takes every pointer that the hardware has sent, and then waits in front of an empty box.
pub hw2sw_drains :
    {size : ℕ} (messages : List ℕ) (mb : Mbox)
    → Holds size messages mb
    → (mb' : Mbox) × (hw2sw_turns (length messages) mb ≡ some mb') × Holds size [] mb'
unfolding hw2sw_turns hw2sw_turn
hw2sw_drains [] mb h = (mb, refl, h)
hw2sw_drains (x ∷ messages) mb h =
    let (rest, got, holds) = get-Holds h in
    let (last, turns, emptied) = hw2sw_drains messages rest holds in (last, rw got turns, emptied)
