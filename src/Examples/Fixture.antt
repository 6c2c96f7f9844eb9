-- ===== src/Examples/Fixture.antt =====
-- A machine with sixteen links, and an operating system whose calls succeed.
use reconos_v.Base.{ℕ, suc, ◌*◌, ◌^◌, refl, false, none, some, List, [], ◌∷◌}
use reconos_v.Base.{replicate, arith, if◌then◌else◌, ◌==◌}
use reconos_v.Kind
use reconos_v.Machine.{Process, Resource, Hwt, Host, Machine}
use reconos_v.Mbox.{Mbox}
use reconos_v.Mbox.Refine.{IsValid}
use reconos_v.Fsl.Link.{IsOpen}
use reconos_v.Delegate.Sync.{Names}

-- The state counts the blocks that were allocated, which are at the addresses 1, 2, ...
abbrev pub system : Host ℕ
system = record {
  open_fsl = λ n. some n;
  open_getpgd = some 20;
  open_cache = some 21;
  read_getpgd = some 0x1000;
  pvr3 = 3 * 2 ^ 7;
  create_thread = λ t k. (0, k);
  malloc = λ n k. (suc k, suc k);
  sem_wait = λ p k. some (0, k);
  sem_post = λ p k. some (0, k);
  mutex_lock = λ p k. some (0, k);
  mutex_unlock = λ p k. some (0, k);
  mutex_trylock = λ p k. some (16, k);
  cond_wait = λ c x k. some (0, k);
  cond_signal = λ p k. some (0, k);
  cond_broadcast = λ p k. some (0, k);
}

-- an empty box of four cells
abbrev pub empty_box : Mbox
empty_box = record {
  sem_read = 0;
  sem_write = 4;
  mutex_read = false;
  mutex_write = false;
  messages = 0 ∷ 0 ∷ 0 ∷ 0 ∷ [];
  read_idx = 0;
  write_idx = 0;
  size = 4;
}

pub empty_box-IsValid : IsValid empty_box
empty_box-IsValid = record {
  unread = refl;
  unlocked = refl;
  block = omega arith;
  counted = refl;
  read_in = omega arith;
  write_in = refl;
}

-- a box that holds the address 9 of a message
abbrev pub full_box : Mbox
full_box = record empty_box {
  sem_read = 1;
  sem_write = 3;
  messages = 9 ∷ 0 ∷ 0 ∷ 0 ∷ [];
  write_idx = 1;
}

abbrev pub process : Process
process = record {
  page_faults = 0;
  proc_control_fsl_a = 14;
  proc_control_fsl_b = 15;
  slot_flags = replicate 16 0;
  fd_cache = none;
}

-- every link holds the words that are given
abbrev pub machine : List ℕ → Machine ℕ
machine words = record {
  rx = λ n. words;
  tx = λ n. [];
  fsl_fd = replicate 16 (some 5);
  proc = process;
  mem = λ a. 0xFFFFFFFF;
  flushes = 0;
  boxes = λ p. if p == 201 then full_box else empty_box;
  blocks = λ p. if p == 9 then some (8 ∷ 111 ∷ 222 ∷ []) else none;
  os = 0;
}

abbrev pub a_box : Resource
a_box = record { ptr = 100; type = Kind.mbox }

abbrev pub a_semaphore : Resource
a_semaphore = record { ptr = 101; type = Kind.sem }

abbrev pub a_mutex : Resource
a_mutex = record { ptr = 102; type = Kind.mutex }

abbrev pub a_condition : Resource
a_condition = record { ptr = 103; type = Kind.cond }

abbrev pub a_queue : Resource
a_queue = record { ptr = 200; type = Kind.rq }

abbrev pub a_full_queue : Resource
a_full_queue = record { ptr = 201; type = Kind.rq }

abbrev pub hwt : Hwt
hwt = record {
  slot = 2;
  resources = a_box ∷ a_semaphore ∷ a_mutex ∷ a_condition ∷ a_queue ∷ a_full_queue ∷ [];
  num_resources = 6;
  init_data = 77;
}

pub slot_link : (words : List ℕ) → IsOpen 2 (machine words).fsl_fd
slot_link words = record { in_range = omega arith; fd = 5; opened = refl }

pub control_link : (words : List ℕ) → IsOpen 15 (machine words).fsl_fd
control_link words = record { in_range = omega arith; fd = 5; opened = refl }

pub fault_link : (words : List ℕ) → IsOpen 14 (machine words).fsl_fd
fault_link words = record { in_range = omega arith; fd = 5; opened = refl }

pub box-Names : Names hwt 0 a_box Kind.mbox
box-Names = record { in_range = omega arith; entry = refl; typed = refl }

pub semaphore-Names : Names hwt 1 a_semaphore Kind.sem
semaphore-Names = record { in_range = omega arith; entry = refl; typed = refl }

pub mutex-Names : Names hwt 2 a_mutex Kind.mutex
mutex-Names = record { in_range = omega arith; entry = refl; typed = refl }

pub condition-Names : Names hwt 3 a_condition Kind.cond
condition-Names = record { in_range = omega arith; entry = refl; typed = refl }

pub queue-Names : Names hwt 4 a_queue Kind.rq
queue-Names = record { in_range = omega arith; entry = refl; typed = refl }

pub full_queue-Names : Names hwt 5 a_full_queue Kind.rq
full_queue-Names = record { in_range = omega arith; entry = refl; typed = refl }
