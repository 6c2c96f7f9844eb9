-- ===== src/Machine.antt =====
-- The state that linux/libreconos works on, and the commands over it: the FSL links to the
-- hardware, `reconos_proc`, the message boxes and the blocks on the heap.
use reconos_v.Base.{ℕ, Option, List, ◌==◌, if◌then◌else◌, ◌≡◌, arith}
use reconos_v.Mbox.{Mbox}

-- `struct reconos_process`, but for the thread handle. An index is the bit pattern of an `int`.
pub record Process : Type 0 where
  pub page_faults : ℕ
  pub proc_control_fsl_a : ℕ
  pub proc_control_fsl_b : ℕ
  pub slot_flags : List ℕ
  pub fd_cache : Option ℕ

-- `struct reconos_resource`
pub record Resource : Type 0 where
  pub ptr : ℕ
  pub type : ℕ

-- `struct reconos_hwt`, but for the thread handle
pub record Hwt : Type 0 where
  pub slot : ℕ
  pub resources : List Resource
  pub num_resources : ℕ
  pub init_data : ℕ

-- the threads that the library starts
pub data Thread : Type 0 where
  control : Thread
  delegate : Hwt → Thread

-- What the operating system does; it keeps a state of its own in `K`. A call gives its result and
-- the new state, and `none` if it blocks. A missing descriptor is a call of `open` that fails.
pub record Host (K : Type 0) : Type 0 where
  pub open_fsl : ℕ → Option ℕ
  pub open_getpgd : Option ℕ
  pub open_cache : Option ℕ
  pub read_getpgd : Option ℕ
  pub pvr3 : ℕ
  pub create_thread : Thread → K → ℕ × K
  pub malloc : ℕ → K → ℕ × K
  pub sem_wait : ℕ → K → Option (ℕ × K)
  pub sem_post : ℕ → K → Option (ℕ × K)
  pub mutex_lock : ℕ → K → Option (ℕ × K)
  pub mutex_unlock : ℕ → K → Option (ℕ × K)
  pub mutex_trylock : ℕ → K → Option (ℕ × K)
  pub cond_wait : ℕ → ℕ → K → Option (ℕ × K)
  pub cond_signal : ℕ → K → Option (ℕ × K)
  pub cond_broadcast : ℕ → K → Option (ℕ × K)

-- `rx n` holds the words that can be read from link `n`, `tx n` those that were written to it, both
-- oldest first. `fsl_fd` is the table of descriptors, `none` for -1. `mem` is the memory that the
-- hardware shares, `boxes` the message boxes and `blocks` the messages on the heap, by address.
pub record Machine (K : Type 0) : Type 0 where
  pub rx : ℕ → List ℕ
  pub tx : ℕ → List ℕ
  pub fsl_fd : List (Option ℕ)
  pub proc : Process
  pub mem : ℕ → ℕ
  pub flushes : ℕ
  pub boxes : ℕ → Mbox
  pub blocks : ℕ → Option (List ℕ)
  pub os : K

abbrev pub update {ℓ} : {A : Type ℓ} → (ℕ → A) → ℕ → A → ℕ → A
update f n a k = if k == n then a else f k

-- A command ends, waits for another thread or the hardware, leaves the process by `exit`, or does
-- what C does not define: a failed assertion or a bad address.
pub data Run (K A : Type 0) : Type 0 where
  ok : A → Machine K → Run K A
  blocked : Machine K → Run K A
  exited : ℕ → Machine K → Run K A
  fault : Machine K → Run K A

abbrev pub Cmd : Type 0 → Type 0 → Type 0
Cmd K A = Machine K → Run K A

module _ {K A : Type 0} where
  abbrev pub pure : A → Cmd K A
  pure a m = ok a m

  abbrev pub exit : ℕ → Cmd K A
  exit n m = exited n m

module _ {K A B : Type 0} where
  abbrev pub and_then : Run K A → (A → Cmd K B) → Run K B
  and_then (ok a m) k = k a m
  and_then (blocked m) k = blocked m
  and_then (exited n m) k = exited n m
  and_then (fault m) k = fault m

  infixl 5 ◌>>=◌ ◌>>◌
  abbrev pub ◌>>=◌ : Cmd K A → (A → Cmd K B) → Cmd K B
  c >>= k = λ m. and_then (c m) k

  abbrev pub ◌>>◌ : Cmd K A → Cmd K B → Cmd K B
  c >> d = c >>= λ a. d

-- the machine that a command leaves, however it ends
abbrev pub state : {K A : Type 0} → Run K A → Machine K
state (ok a m) = m
state (blocked m) = m
state (exited n m) = m
state (fault m) = m

pub update_self {ℓ} : {A : Type ℓ} (f : ℕ → A) (n : ℕ) (a : A) → update f n a n ≡ a
update_self f n a = ground arith
