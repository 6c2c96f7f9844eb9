-- ===== src/Examples/Schedules.antt =====
-- Schedules of the threads of the network interface.
use reconos_v.Base.{ℕ, ◌≡◌, refl, Option, none, some, List, [], ◌∷◌, replicate}
use reconos_v.Noc.Packet.{Packet, header_byte1, header_byte2}
use reconos_v.Noc.Ring.{
  gap, enough_space, is_almost_full, put, store_byte, write_integer, copy, write_payload,
  align_loop, write_packet,
}
use reconos_v.Noc.Threads.{Interface, Event, step, Reach, here, next, begin}
use reconos_v.Noc.Threads.{run_processing, run_timer, run_exchange, timeout, send}
use reconos_v.Noc.Threads.{
  announce, poll_packet, processing_step, timer_step, exchange_step, send_packet,
}
use reconos_v.Noc.Threads.Locks.{IsLocked, one_holder}
use reconos_v.Noc.Threads.Delivery.{IsAccounted, begin-IsAccounted}
use reconos_v.Noc.Threads.Stuck.{IsStuck, no_way_out}

abbrev quiet : ℕ → Packet
quiet n = record {
  hw_addr_local = 2;
  hw_addr_global = 5;
  priority = 3;
  direction = 1;
  latency_critical = 0;
  src_idp = 7;
  dst_idp = 8;
  payload_length = n;
  payload = replicate n 0xAA;
}

abbrev zeros : List ℕ
zeros = replicate 64 0

abbrev or_stay : Option Interface → Interface → Interface
or_stay none s = s
or_stay (some u) s = u

abbrev after : List Event → Interface → Interface
after [] s = s
after (e ∷ es) s = after es (or_stay (step e s) s)

or_stay-Reach :
    {s : Interface} (e : Event) (t : Interface) (o : Option Interface)
    → step e t ≡ o
    → Reach s t
    → Reach s (or_stay o t)
or_stay-Reach e t none h r = r
or_stay-Reach e t (some u) h r = next e r h

after-Reach : {s : Interface} (es : List Event) (t : Interface) → Reach s t → Reach s (after es t)
after-Reach [] t r = r
after-Reach (e ∷ es) t r =
    after-Reach es (or_stay (step e t) t) (or_stay-Reach e t (step e t) refl r)

-- A packet with 26 bytes that is not critical starts the timer; one with ten bytes finds no room,
-- and the processing thread waits for it before the timer has run out.
abbrev two_packets : List Event
two_packets =
    run_timer
    ∷ run_timer
    ∷ run_exchange
    ∷ run_exchange
    ∷ send (quiet 26)
    ∷ send (quiet 10)
    ∷ run_processing
    ∷ run_processing
    ∷ run_processing
    ∷ run_processing
    ∷ run_processing
    ∷ run_timer
    ∷ run_timer
    ∷ run_processing
    ∷ run_processing
    ∷ run_processing
    ∷ run_processing
    ∷ []

abbrev waits : Interface
waits = after two_packets (begin zeros)

waits-Reach : Reach (begin zeros) waits
waits-Reach = after-Reach two_packets (begin zeros) here

waits-IsStuck : IsStuck (quiet 10) waits.ring waits
unfolding step processing_step timer_step exchange_step send_packet announce poll_packet gap
    enough_space is_almost_full put store_byte write_integer copy write_payload align_loop
    write_packet header_byte1 header_byte2
waits-IsStuck = record {
  same = refl;
  waits = refl;
  held = refl;
  out = refl;
  sleeps = refl;
  clean = refl;
}

no_way_out_example :
    IsStuck (quiet 10) waits.ring (after (timeout ∷ run_timer ∷ run_processing ∷ []) waits)
no_way_out_example =
    no_way_out waits-IsStuck (after-Reach (timeout ∷ run_timer ∷ run_processing ∷ []) waits here)

one_holder_example : IsLocked waits
one_holder_example = one_holder waits-Reach

begin-IsAccounted_example : IsAccounted waits
begin-IsAccounted_example = begin-IsAccounted waits-Reach
