-- ===== src/Noc/Threads.antt =====
-- The threads of the interface towards the hardware, from
-- projects/noc_test/linux/hwSwIf/reconosNoC.c: packet processing, timer and pointer exchange. What a
-- thread does between two places where it can wait is one step, and the steps interleave freely.
-- `gettimeofday` is taken to succeed, and a wait on a condition variable to end by a signal only.
pub mod Delivery
pub mod Locks
pub mod Stuck
use reconos_v.Base.{ℕ, zero, suc, ◌/◌, Bool, true, false, Option, none, some, List, [], ◌∷◌, ◌++◌}
use reconos_v.Base.{◌==◌, ◌||◌, not, if◌then◌else◌, length, ltb, drop, ◌≡◌}
use reconos_v.Base.Maybe.{◌>>=◌}
use reconos_v.Mbox.{sem_wait, sem_post, mutex_lock, mutex_unlock}
use reconos_v.Noc.Packet.{Packet, mbox_size}
use reconos_v.Noc.Ring.{Ring, enough_space, is_almost_full, write_packet}

-- Where the packet processing thread is. `waiting` is in the wait for a new offset, `waking` behind
-- its signal; `ended` has left by `pthread_exit` or by a write outside the buffer.
pub data Processing : Type 0 where
  idle lock_timer lock_pointers polling ended : Processing
  waiting waking writing : Packet → Processing

-- the timer thread: `asleep` waits for the start, `timing` for the end of the time
pub data Timer : Type 0 where
  entering checking asleep roused timing due testing locking firing : Timer

-- the pointer exchange thread
pub data Exchange : Type 0 where
  x_entering x_checking x_asleep x_roused x_fetching x_putting x_getting : Exchange
  x_locking x_storing : ℕ → Exchange

-- `reconosNoCsw2hwInterface`: the queue of packets, the words on their way in the two message boxes
-- and the places of its threads are part of it.
pub record Interface : Type 0 where
  pub ring : Ring
  pub write_pointer_dirty : Bool
  pub start_timer : Bool
  pub timer_running : Bool
  pub timer_mutex : Bool
  pub pointers_mutex : Bool
  pub process_one_packet : ℕ
  pub packets : List Packet
  pub to_hw : List ℕ
  pub from_hw : List ℕ
  pub processing : Processing
  pub timer : Timer
  pub exchange : Exchange

-- `pthread_cond_signal` wakes the thread if it waits, and is lost if it does not.
abbrev pub signal_offset : Processing → Processing
signal_offset (waiting p) = waking p
signal_offset t = t

abbrev pub signal_start : Timer → Timer
signal_start asleep = roused
signal_start t = t

abbrev pub signal_abort : Timer → Timer
signal_abort timing = due
signal_abort t = t

abbrev pub signal_exchange : Exchange → Exchange
signal_exchange x_asleep = x_roused
signal_exchange t = t

-- the exchange of the write pointer at once, or by the timer
unfoldable pub announce : Packet → Interface → Interface
announce p s =
    if not (p.latency_critical == 0) || is_almost_full s.ring
    then record s {
      timer = if s.timer_running then signal_abort s.timer else s.timer;
      timer_running = false;
      start_timer = false;
      write_pointer_dirty = true;
      exchange = signal_exchange s.exchange;
    }
    else (if s.timer_running
        then s
        else record s { start_timer = true; timer = signal_start s.timer })

unfoldable pub poll_packet : List Packet → Interface → Interface
poll_packet [] s = record s { processing = ended }
poll_packet (p ∷ ps) s =
    if enough_space s.ring p then record s { packets = ps; processing = writing p } else record s {
      packets = ps;
      processing = waiting p;
      pointers_mutex = mutex_unlock s.pointers_mutex;
    }

abbrev pub finish : Packet → Option Ring → Interface → Interface
finish p none s = record s { processing = ended }
finish p (some ring) s = record (announce p (record s { ring = ring })) {
  pointers_mutex = mutex_unlock s.pointers_mutex;
  timer_mutex = mutex_unlock s.timer_mutex;
  processing = idle;
}

-- `none` is a thread that has to wait.
unfoldable pub processing_step : Processing → Interface → Option Interface
unfolding poll_packet announce
processing_step idle s = do
  n ← sem_wait s.process_one_packet
  some (record s { process_one_packet = n; processing = lock_timer })
processing_step lock_timer s = do
  m ← mutex_lock s.timer_mutex
  some (record s { timer_mutex = m; processing = lock_pointers })
processing_step lock_pointers s = do
  m ← mutex_lock s.pointers_mutex
  some (record s { pointers_mutex = m; processing = polling })
processing_step polling s = some (poll_packet s.packets s)
processing_step (waiting p) s = none
processing_step (waking p) s = do
  m ← mutex_lock s.pointers_mutex
  some (record s { pointers_mutex = m; processing = writing p })
processing_step (writing p) s = some (finish p (write_packet s.ring p) s)
processing_step ended s = none

unfoldable pub timer_step : Timer → Interface → Option Interface
timer_step entering s = do
  m ← mutex_lock s.timer_mutex
  some (record s { timer_mutex = m; timer = checking })
timer_step checking s = some (
    if s.start_timer
    then record s {
      start_timer = false;
      timer_running = true;
      timer_mutex = mutex_unlock s.timer_mutex;
      timer = timing;
    }
    else record s { timer_mutex = mutex_unlock s.timer_mutex; timer = asleep })
timer_step asleep s = none
timer_step roused s = do
  m ← mutex_lock s.timer_mutex
  some (record s { timer_mutex = m; timer = checking })
timer_step timing s = none
timer_step due s = do
  m ← mutex_lock s.timer_mutex
  some (record s { timer_mutex = m; timer = testing })
timer_step testing s = some (
    if s.timer_running
    then record s { timer = locking }
    else record s { timer = checking; timer_running = false })
timer_step locking s = do
  m ← mutex_lock s.pointers_mutex
  some (record s { pointers_mutex = m; timer = firing })
timer_step firing s = some (record s {
  write_pointer_dirty = true;
  exchange = signal_exchange s.exchange;
  pointers_mutex = mutex_unlock s.pointers_mutex;
  timer_running = false;
  timer = checking;
})

-- `mbox_get` of a word that the hardware has sent
abbrev pub take_word : List ℕ → Interface → Option Interface
take_word [] s = none
take_word (w ∷ ws) s = some (record s { from_hw = ws; exchange = x_locking w })

unfoldable pub exchange_step : Exchange → Interface → Option Interface
exchange_step x_entering s = do
  m ← mutex_lock s.pointers_mutex
  some (record s { pointers_mutex = m; exchange = x_checking })
exchange_step x_checking s = some (
    if s.write_pointer_dirty
    then record s { exchange = x_fetching }
    else record s { pointers_mutex = mutex_unlock s.pointers_mutex; exchange = x_asleep })
exchange_step x_asleep s = none
exchange_step x_roused s = do
  m ← mutex_lock s.pointers_mutex
  some (record s { pointers_mutex = m; exchange = x_fetching })
exchange_step x_fetching s = some (record s {
  write_pointer_dirty = false;
  ring = record s.ring { hw_write_offset = s.ring.write_offset / 4 };
  pointers_mutex = mutex_unlock s.pointers_mutex;
  exchange = x_putting;
})
exchange_step x_putting s =
    if ltb (length s.to_hw) mbox_size
    then some (record s { to_hw = s.to_hw ++ (s.ring.hw_write_offset ∷ []); exchange = x_getting })
    else none
exchange_step x_getting s = take_word s.from_hw s
exchange_step (x_locking w) s = do
  m ← mutex_lock s.pointers_mutex
  some (record s { pointers_mutex = m; exchange = x_storing w })
exchange_step (x_storing w) s = some (record s {
  ring = record s.ring { read_offset = w };
  processing = signal_offset s.processing;
  exchange = x_checking;
})

-- what `reconosNoCSendPacket` returns: 0, -EINVAL or -ENOMEM
pub data Sending : Type 0 where
  sent invalid no_memory : Sending

-- `packet` is the packet behind the pointer, if it is not null, with whether its payload is there;
-- `memory` says whether `malloc` of the list element gives memory.
unfoldable pub send_packet :
    Option (Packet × Bool) → (memory : Bool) → Interface → Sending × Interface
send_packet none memory s = (invalid, s)
send_packet (some (p, there)) memory s =
    if p.payload_length == 0 || not there
    then (invalid, s)
    else (if memory
        then (
          sent,
          record s {
            packets = s.packets ++ (p ∷ []);
            process_one_packet = sem_post s.process_one_packet;
          },
        )
        else (no_memory, s))

-- A thread goes on; the time of the timer is over; a program sends a packet; the hardware takes a
-- word or sends one.
pub data Event : Type 0 where
  run_processing run_timer run_exchange timeout take : Event
  send : Packet → Event
  answer : ℕ → Event

unfoldable pub step : Event → Interface → Option Interface
unfolding processing_step timer_step exchange_step send_packet
step run_processing s = processing_step s.processing s
step run_timer s = timer_step s.timer s
step run_exchange s = exchange_step s.exchange s
step timeout s = some (record s { timer = signal_abort s.timer })
step take s = some (record s { to_hw = drop 1 s.to_hw })
step (send p) s = some (send_packet (some (p, true)) true s).1
step (answer w) s = some (record s { from_hw = s.from_hw ++ (w ∷ []) })

-- the schedules of any length
pub data Reach (s : Interface) : Interface → Type 0 where
  here : Reach s s
  next : {t u : Interface} (e : Event) → Reach s t → step e t ≡ some u → Reach s u

-- what `createSw2HwInterface` sets up, for memory that is zero
abbrev pub begin : List ℕ → Interface
begin buffer = record {
  ring = record { buffer = buffer; read_offset = 0; write_offset = 0; hw_write_offset = 0 };
  write_pointer_dirty = false;
  start_timer = false;
  timer_running = false;
  timer_mutex = false;
  pointers_mutex = false;
  process_one_packet = 0;
  packets = [];
  to_hw = [];
  from_hw = [];
  processing = idle;
  timer = entering;
  exchange = x_entering;
}
