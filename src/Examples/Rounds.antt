-- ===== src/Examples/Rounds.antt =====
-- Rounds of a delegate thread on the machine of `Fixture`.
use reconos_v.Base.{ℕ, ◌≡◌, refl, true, some, [], ◌∷◌, arith, inr}
use reconos_v.Kind
use reconos_v.Machine.{Machine, state}
use reconos_v.Mbox.Refine.{enqueue, dequeue}
use reconos_v.Delegate.{delegate_step, delegate_loop}
use reconos_v.Delegate.Frame.{delegate_loop-Keeps}
use reconos_v.Delegate.Reject.{kind_of, arguments, Rejected, bad_handle}
use reconos_v.Delegate.Sync.{service_of, Served, sync_reply}
use reconos_v.Delegate.Boxes.{Appended, Removed, mbox_put_command, mbox_get_command}
use reconos_v.Examples.Fixture.{system, machine, hwt, slot_link, empty_box-IsValid, a_box, a_mutex}
use reconos_v.Examples.Fixture.{box-Names, mutex-Names}

delegate_loop-Keeps_example :
    let m = machine (0xA0 ∷ []) in
    ((state (delegate_loop system hwt 2 m)).rx 3 ≡ 0xA0 ∷ [])
    × ((state (delegate_loop system hwt 2 m)).tx 3 ≡ [])
delegate_loop-Keeps_example = delegate_loop-Keeps system hwt 2 (machine (0xA0 ∷ [])) 3 (omega arith)

-- the handle of the semaphore in a command for a mutex
abbrev wrong_type : Machine ℕ
wrong_type = machine (0xC0 ∷ 1 ∷ [])

bad_handle_example : Rejected wrong_type (delegate_step system hwt wrong_type)
unfolding kind_of arguments
bad_handle_example =
    bad_handle system hwt wrong_type (slot_link (0xC0 ∷ 1 ∷ [])) 0xC0 1 [] {kind = Kind.mutex} refl
      (omega arith) refl (inr (_, refl, omega arith))

-- a try to lock a mutex that is held: the answer is 16, EBUSY
abbrev trying : Machine ℕ
trying = machine (0xC2 ∷ 2 ∷ [])

sync_reply_example :
    Served trying 2 [] (some (16, 0)) (λ res. res) (delegate_step system hwt trying)
unfolding service_of
sync_reply_example =
    sync_reply system hwt trying (slot_link (0xC2 ∷ 2 ∷ [])) 0xC2 2 [] a_mutex
      (record { kind = Kind.mutex; call = system.mutex_trylock; reports = true }) refl refl
      mutex-Names

abbrev waiting : Machine ℕ
waiting = machine (0xD0 ∷ 3 ∷ 2 ∷ [])

mbox_put_command_example :
    let m = machine (0xF1 ∷ 0 ∷ 55 ∷ []) in
    Appended m 2 100 [] (enqueue 4 [] 55) (delegate_step system hwt m)
mbox_put_command_example =
    mbox_put_command system hwt (machine (0xF1 ∷ 0 ∷ 55 ∷ [])) (slot_link (0xF1 ∷ 0 ∷ 55 ∷ [])) 0 []
      a_box box-Names empty_box-IsValid 55 refl

mbox_get_command_example :
    let m = machine (0xF0 ∷ 0 ∷ []) in Removed m 2 100 [] (dequeue []) (delegate_step system hwt m)
mbox_get_command_example =
    mbox_get_command system hwt (machine (0xF0 ∷ 0 ∷ [])) (slot_link (0xF0 ∷ 0 ∷ [])) 0 [] a_box
      box-Names empty_box-IsValid refl
