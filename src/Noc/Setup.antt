-- ===== src/Noc/Setup.antt =====
-- Start of the network interface, projects/noc_test/linux/hwSwIf/reconosNoC.c: the two directions
-- are created call by call, and the first call that fails ends it.
pub mod Created
use reconos_v.Base.{
  ℕ, zero, ◌-◌, ◌^◌, Bool, true, false, Option, none, some, List, [], ◌∷◌, ◌++◌, ◌==◌,
  if◌then◌else◌,
}
use reconos_v.Kind
use reconos_v.Machine.{Resource, Hwt}
use reconos_v.Mbox.{Mbox, Library, Status, done, failed, aborted, mbox_init, mbox_put}
use reconos_v.Process.{reconos_hwt_setresources}
use reconos_v.Noc.Packet.{mbox_size}

pub data Worker : Type 0 where
  pointer_exchange timer packet_processing : Worker

-- The results of the calls that create one direction, and where the interface's two boxes are. A
-- code of 0 is success.
pub record Calls : Type 0 where
  pub interface_memory : Bool
  pub ring_memory : Option ℕ
  pub sem_init_first : ℕ
  pub sem_init_second : ℕ
  pub put_library : Library
  pub get_library : Library
  pub put_address : ℕ
  pub get_address : ℕ
  pub pthread_create : Worker → ℕ

-- What the interface of one direction holds; `started` is the slot of the hardware thread that runs,
-- `workers` the threads that were started, in order.
pub record Side : Type 0 where
  pub ring_base : Option ℕ
  pub mb_put : Mbox
  pub mb_get : Mbox
  pub hwt : Hwt
  pub started : Option ℕ
  pub workers : List Worker

-- A function returns a code, fails an assertion, or waits.
pub data Result : Type 0 where
  returns : ℕ → Result
  aborts blocks : Result

abbrev pub enomem : ℕ
enomem = 2 ^ 32 - 12

abbrev pub Stage : Type 0
Stage = Side → Result × Side

-- `if(errCode) return errCode;`
abbrev pub check : ℕ → Stage → Stage
check code go s = if code == 0 then go s else (returns code, s)

abbrev pub boxed : Status → Stage → Stage
boxed done go s = go s
boxed failed go s = (returns (2 ^ 32 - 1), s)
boxed aborted go s = (aborts, s)

module _ (calls : Calls) where
  abbrev pub init_put : Stage → Stage
  init_put go s =
      let (status, mb) = mbox_init calls.put_library s.mb_put mbox_size in
      boxed status go (record s { mb_put = mb })

  abbrev pub init_get : Stage → Stage
  init_get go s =
      let (status, mb) = mbox_init calls.get_library s.mb_get mbox_size in
      boxed status go (record s { mb_get = mb })

  -- The hardware thread gets the two boxes as resources and starts in its slot.
  abbrev pub start_hwt : ℕ → Side → Side
  start_hwt slot s =
      let res =
        record { ptr = calls.put_address; type = Kind.mbox }
        ∷ record { ptr = calls.get_address; type = Kind.mbox }
        ∷ [] in
      record s {
        hwt = record (reconos_hwt_setresources s.hwt res 2) { slot = slot };
        started = some slot;
      }

  -- the base address of the ring buffer, for the hardware
  abbrev pub send_base : ℕ → Stage → Stage
  send_base base go s = elim (mbox_put s.mb_put base) [
    | none ↦ (blocks, s)
    | some mb ↦ go (record s { mb_put = mb })
  ]

  abbrev pub start : Worker → Stage → Stage
  start w go s =
      if calls.pthread_create w == 0
      then go (record s { workers = s.workers ++ (w ∷ []) })
      else (returns (calls.pthread_create w), s)

  abbrev pub finished : Stage
  finished s = (returns 0, s)

  -- what both functions do up to the software threads
  abbrev pub prepare : (slot base : ℕ) → Stage → Stage
  prepare slot base workers s =
      check calls.sem_init_first
        (check calls.sem_init_second
          (init_put (init_get (λ t. send_base base workers (start_hwt slot t)))))
        (record s { ring_base = some base })

  abbrev pub with_ring : Option ℕ → (ℕ → Stage) → Stage
  with_ring none go s = (returns enomem, s)
  with_ring (some base) go s = go base s

  -- `s` is what the memory of the interface holds.
  unfoldable pub create_sw2hw_interface : Stage
  create_sw2hw_interface s =
      if calls.interface_memory
      then with_ring calls.ring_memory
          (λ base.
            prepare 1 base
              (start pointer_exchange (start timer (start packet_processing finished))))
          s
      else (returns enomem, s)

  unfoldable pub create_hw2sw_interface : Stage
  create_hw2sw_interface s =
      if calls.interface_memory
      then with_ring calls.ring_memory (λ base. prepare 0 base (start pointer_exchange finished)) s
      else (returns enomem, s)

-- The two directions, and whether the thread that ends all others runs.
pub record Noc : Type 0 where
  pub control_runs : Bool
  pub sw2hw : Side
  pub hw2sw : Side

-- `errCode = createSw2HwInterface(nocPtr); if(errCode) return errCode;`, then the other direction
abbrev pub go_on : Calls → Result → Noc → Result × Noc
go_on hw (returns zero) m =
    let (r, t) = create_hw2sw_interface hw m.hw2sw in (r, record m { hw2sw = t })
go_on hw r m = (r, m)

-- The control thread is started first; a direction that fails ends the start with its code.
unfoldable pub reconos_noc_init :
    (memory : Bool) (control : ℕ) → (sw hw : Calls) → Noc → Result × Noc
reconos_noc_init memory control sw hw n =
    if memory
    then (if control == 0
        then (let (r, s) = create_sw2hw_interface sw n.sw2hw in
            go_on hw r (record n { control_runs = true; sw2hw = s }))
        else (returns control, n))
    else (returns enomem, n)
