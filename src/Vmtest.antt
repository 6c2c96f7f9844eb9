-- ===== src/Vmtest.antt =====
-- demos/hwvm/linux/vmtest.c, with the hardware thread that serves it,
-- demos/hwvm/edk/pcores/hwt_memaccess_v1_00_a/hdl/vhdl/hwt_memaccess.vhd: `hwt_read` and `hwt_write`
-- against the thread, one call of a message box in a step. The memory is its words.
pub mod Phases
pub mod Reads
pub mod Ends
pub mod Written
pub mod Writes
pub mod Stores
pub mod Synced
use reconos_v.Base.{ℕ, zero, suc, ◌+◌, ◌*◌, ◌/◌, ◌%◌, ◌^◌, Option, none, some, List, [], ◌∷◌, ◌++◌}
use reconos_v.Base.{if◌then◌else◌, ◌==◌, get_or, set}
use reconos_v.Base.Bits.{or_bit}
use reconos_v.Base.Maybe.{◌>>=◌}
use reconos_v.Mbox.{Mbox, mbox_put, mbox_get}

-- Where the software is in `hwt_read` or `hwt_write`: in front of the put of the request or of the
-- address, in front of its `i`th word, or behind all of them and the synchronisation.
pub data Place : Type 0 where
  request address done : Place
  word : ℕ → Place

-- The states of the hardware thread that wait for a box. `addr` is the index of the first word, `k`
-- counts the words that are done and `left` those that are not.
pub data State : Type 0 where
  get_request : State
  get_addr : (req : ℕ) → State
  mbox_put_word mbox_get_word : (addr k left : ℕ) → State
  ack : (addr : ℕ) → State

pub record Vm : Type 0 where
  pub sw2hw : Mbox
  pub hw2sw : Mbox
  pub place : Place
  pub dst : List ℕ
  pub state : State
  pub memory : List ℕ

-- `hwt_read`. `none` is a wait, or the end.
unfoldable pub read_step : (vaddr n : ℕ) → Place → Vm → Option Vm
read_step vaddr n request s = do
  mb ← mbox_put s.sw2hw (n * 4 % 2 ^ 32)
  some (record s { sw2hw = mb; place = address })
read_step vaddr n address s = do
  mb ← mbox_put s.sw2hw vaddr
  some (record s { sw2hw = mb; place = word 0 })
read_step vaddr n (word i) s =
    let next = mbox_get s.hw2sw >>= λ got.
    some (record s { hw2sw = got.1; dst = s.dst ++ (got.0 ∷ []); place = word (i + 1) }) in
    if i == n then some (record s { place = done }) else next
read_step vaddr n done s = none

-- `hwt_write` of the words `src`.
unfoldable pub write_step : (src : List ℕ) (vaddr n : ℕ) → Place → Vm → Option Vm
write_step src vaddr n request s = do
  mb ← mbox_put s.sw2hw (or_bit 31 (n * 4 % 2 ^ 32))
  some (record s { sw2hw = mb; place = address })
write_step src vaddr n address s = do
  mb ← mbox_put s.sw2hw vaddr
  some (record s { sw2hw = mb; place = word 0 })
write_step src vaddr n (word i) s =
    let sync = mbox_get s.hw2sw >>= λ got. some (record s { hw2sw = got.1; place = done }) in
    let next = mbox_put s.sw2hw (get_or src i 0) >>= λ mb.
    some (record s { sw2hw = mb; place = word (i + 1) }) in
    if i == n then sync else next
write_step src vaddr n done s = none

-- A step of the hardware thread. A burst of no words is `none`: its count would wrap round.
unfoldable pub thread_step : State → Vm → Option Vm
thread_step get_request s = do
  (req, mb) ← mbox_get s.sw2hw
  some (record s { sw2hw = mb; state = get_addr req })
thread_step (get_addr req) s = do
  (addr, mb) ← mbox_get s.sw2hw
  let len = req / 4 % 2 ^ 22
  let reads = record s { sw2hw = mb; state = mbox_put_word (addr / 4) 0 len }
  let writes = record s { sw2hw = mb; state = mbox_get_word (addr / 4) 0 len }
  some (if req / 2 ^ 24 == 0 then reads else writes)
thread_step (mbox_put_word addr k zero) s = none
thread_step (mbox_put_word addr k (suc left)) s = do
  mb ← mbox_put s.hw2sw (get_or s.memory (addr + k) 0)
  some (record s {
    hw2sw = mb;
    state = if left == 0 then get_request else mbox_put_word addr (k + 1) left;
  })
thread_step (mbox_get_word addr k zero) s = none
thread_step (mbox_get_word addr k (suc left)) s = do
  (data_word, mb) ← mbox_get s.sw2hw
  some (record s {
    sw2hw = mb;
    memory = set s.memory (addr + k) data_word;
    state = if left == 0 then ack addr else mbox_get_word addr (k + 1) left;
  })
thread_step (ack addr) s = do
  mb ← mbox_put s.hw2sw (addr * 4)
  some (record s { hw2sw = mb; state = get_request })

-- Who makes a step, and the runs of a call, `read_step` or `write_step`.
pub data Side : Type 0 where
  software hardware : Side

unfoldable pub step : (call : Place → Vm → Option Vm) → Side → Vm → Option Vm
step call software s = call s.place s
step call hardware s = thread_step s.state s

unfoldable pub run : (call : Place → Vm → Option Vm) → List Side → Vm → Option Vm
run call [] s = some s
run call (side ∷ sides) s = do next ← step call side s; run call sides next
