-- ===== src/Examples/Queues.antt =====
-- Messages that a hardware thread sends and receives, on the machine of `Fixture`.
use reconos_v.Base.{ℕ, ◌-◌, ◌^◌, ◌≡◌, refl, true, some, List, [], ◌∷◌, arith, inr}
use reconos_v.Machine.{Machine, ok}
use reconos_v.Mbox.{Mbox, mbox_put, mbox_get}
use reconos_v.Delegate.{delegate_step, delegate_loop}
use reconos_v.Delegate.Receive.{Received, rq_receive_drops}
use reconos_v.Delegate.RoundTrip.{Passed, send_then_receive}
use reconos_v.Examples.Fixture.{
  system, machine, hwt, slot_link, empty_box, empty_box-IsValid, full_box, a_queue, a_full_queue,
}
use reconos_v.Examples.Fixture.{queue-Names, full_queue-Names}

-- eight bytes are sent; the copy is the second block, at the address 2
abbrev sending : Machine ℕ
sending = machine (0xE1 ∷ 4 ∷ 8 ∷ 111 ∷ 222 ∷ [])

abbrev with_two : Mbox
with_two = record empty_box {
  sem_read = 1;
  sem_write = 3;
  messages = 2 ∷ 0 ∷ 0 ∷ 0 ∷ [];
  write_idx = 1;
}

put_two : mbox_put empty_box 2 ≡ some with_two
unfolding mbox_put
put_two = refl

abbrev emptied : Mbox
emptied = record full_box { sem_read = 0; sem_write = 4; read_idx = 1 }

get_nine : mbox_get full_box ≡ some (9, emptied)
unfolding mbox_get
get_nine = refl

-- a buffer of `n` bytes for the message of eight bytes that waits
abbrev receiving : ℕ → List ℕ
receiving n = 0xE0 ∷ 5 ∷ n ∷ []

rq_receive_drops_example :
    (u : Machine ℕ) × (delegate_step system hwt (machine (receiving 4)) ≡ ok true u)
    × Received (machine (receiving 4)) 2 201 (0 ∷ []) [] (machine []).blocks emptied u
rq_receive_drops_example =
    rq_receive_drops system hwt (machine (receiving 4)) (slot_link (receiving 4)) 5 4 8 9 1
      (111 ∷ 222 ∷ []) [] a_full_queue emptied 1 full_queue-Names refl refl get_nine refl
      (inr (omega arith)) (omega arith)

-- the same with an empty message
abbrev overrun : Machine ℕ
overrun = record (machine (receiving (2 ^ 32 - 1))) { blocks = λ p. some (0 ∷ []) }

abbrev both : List ℕ
both = 0xE1 ∷ 4 ∷ 8 ∷ 111 ∷ 222 ∷ 0xE0 ∷ 4 ∷ 16 ∷ []

send_then_receive_example :
    (u : Machine ℕ) × (delegate_loop system hwt 2 (machine both) ≡ ok true u)
    × Passed (machine both) 2 2 8 (111 ∷ 222 ∷ []) [] u
send_then_receive_example =
    send_then_receive system hwt (machine both) (slot_link both) 4 8 1 2 0 16 (111 ∷ 222 ∷ []) []
      a_queue 1 queue-Names refl refl (omega arith) (omega arith) (omega arith) empty_box-IsValid
      refl (omega arith) refl (omega arith) refl (omega arith) (λ n k. omega arith)
