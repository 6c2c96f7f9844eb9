-- ===== src/Process.antt =====
-- The process side of linux/libreconos/libreconos.c: reset of the slots, start-up, the MMU
-- counters, the self-test and the control thread.
pub mod Reset
pub mod Control
use reconos_v.Base.{
  ℕ, zero, suc, ◌+◌, ◌-◌, ◌*◌, ◌/◌, ◌%◌, ◌^◌, Option, none, some, List, map, Bool, true, false,
}
use reconos_v.Base.{◌==◌, if◌then◌else◌, get_or, set}
use reconos_v.Base.Bits.{or_bit, clear_bit0}
use reconos_v.Machine.{
  Process, Hwt, Resource, Thread, control, delegate, Host, Machine, Cmd, Run, ok,
}
use reconos_v.Machine.{exited, pure, exit, ◌>>=◌, ◌>>◌, update, and_then}
use reconos_v.Fsl.{fsl_write, fsl_read}

abbrev pub max_slots : ℕ
max_slots = 16

-- `slot_flags[i] & SLOT_FLAG_RESET`, the lowest bit
abbrev pub in_reset : ℕ → Bool
in_reset flag = flag % 2 == 1

-- The loop from the last slot down to the first; the argument is the number of slots left.
unfoldable pub mask_loop : ℕ → List ℕ → ℕ → ℕ
mask_loop zero flags mask = mask
mask_loop (suc i) flags mask =
    let shifted = mask * 2 % 2 ^ 32 in
    mask_loop i flags (if in_reset (get_or flags i 0) then or_bit 0 shifted else shifted)

-- what the first test of `slot_reset` stores for one slot
abbrev pub set_reset : Bool → ℕ → ℕ
set_reset true flag = or_bit 0 flag
set_reset false flag = clear_bit0 flag

module _ {K : Type 0} (host : Host K) where
  abbrev pub get_proc : Cmd K Process
  get_proc m = ok m.proc m

  abbrev pub put_proc : Process → Cmd K (Unit {0})
  put_proc p m = ok tt (record m { proc = p })

  unfoldable pub slot_reset : ℕ → Bool → Cmd K (Unit {0})
  slot_reset num reset = do
    p ← get_proc
    let flags = set p.slot_flags num (set_reset reset (get_or p.slot_flags num 0))
    put_proc (record p { slot_flags = flags })
    let mask = mask_loop max_slots flags 0
    fsl_write host p.proc_control_fsl_b (or_bit 24 mask)

  -- A device that cannot be opened or read leaves the process.
  unfoldable pub getpgd : Cmd K ℕ
  getpgd m = elim host.open_getpgd [
    | none ↦ exited 1 m
    | some fd ↦ elim host.read_getpgd [ none ↦ exited 1 m | some pgd ↦ ok pgd m ]
  ]

  -- The hits, misses and page faults that the caller's pointers receive.
  unfoldable pub reconos_mmu_stats : Cmd K (ℕ × ℕ × ℕ)
  reconos_mmu_stats = do
    p ← get_proc
    fsl_write host p.proc_control_fsl_b 0x05000000
    hits ← fsl_read host p.proc_control_fsl_b
    misses ← fsl_read host p.proc_control_fsl_b
    pure (hits, misses, p.page_faults)

  -- whether the first part of the self-test succeeds
  unfoldable pub proc_control_selftest : Cmd K Bool
  proc_control_selftest = do
    p ← get_proc
    fsl_write host p.proc_control_fsl_b 0x06000000
    result ← fsl_read host p.proc_control_fsl_b
    pure (result == 0x5E1F7E57)

  abbrev pub cache_flush : Cmd K (Unit {0})
  cache_flush m = ok tt (record m { flushes = suc m.flushes })

  abbrev pub write_mem : ℕ → ℕ → Cmd K (Unit {0})
  write_mem addr v m = ok tt (record m { mem = update m.mem addr v })

  abbrev pub read_mem : ℕ → Cmd K ℕ
  read_mem addr m = ok (m.mem addr) m

  abbrev pub count_fault : Cmd K (Unit {0})
  count_fault m =
      ok tt (record m { proc = record m.proc { page_faults = (m.proc.page_faults + 1) % 2 ^ 32 } })

  -- the case of command 1 in the control thread
  unfoldable pub page_fault : Cmd K (Unit {0})
  page_fault = do
    p ← get_proc
    addr ← fsl_read host p.proc_control_fsl_a
    count_fault
    write_mem addr 0
    cache_flush
    word ← read_mem addr
    let ret = word % 2 ^ 24
    fsl_write host p.proc_control_fsl_a (or_bit 25 (or_bit 24 ret))

  -- one round of the loop of the control thread
  unfoldable pub control_step : Cmd K (Unit {0})
  unfolding page_fault
  control_step = do
    p ← get_proc
    cmd ← fsl_read host p.proc_control_fsl_a
    if cmd == 1 then page_fault else pure tt

  unfoldable pub control_thread_entry : ℕ → Cmd K (Unit {0})
  unfolding control_step
  control_thread_entry zero = pure tt
  control_thread_entry (suc rounds) = control_step >> control_thread_entry rounds

  abbrev pub create_thread : Thread → Cmd K ℕ
  create_thread t m = let (e, os) = host.create_thread t m.os in ok e (record m { os = os })

  -- What `pthread_create` and the second `open` return is not looked at.
  unfoldable pub reconos_init : ℕ → ℕ → Cmd K ℕ
  unfolding getpgd
  reconos_init a b = do
    p ← get_proc
    put_proc (record p {
      proc_control_fsl_a = a;
      proc_control_fsl_b = b;
      page_faults = 0;
      slot_flags = map (or_bit 0) p.slot_flags;
    })
    fsl_write host b 0x04000000
    pgd ← getpgd
    fsl_write host b 0x02000000
    fsl_write host b pgd
    create_thread control
    q ← get_proc
    put_proc (record q { fd_cache = host.open_cache })
    pure 0

  unfoldable pub get_numfsl : ℕ
  get_numfsl = host.pvr3 / 2 ^ 7 % 2 ^ 5

  -- The link numbers are `int`: with fewer than two links they are negative.
  unfoldable pub reconos_init_autodetect : Cmd K ℕ
  reconos_init_autodetect =
      let n = get_numfsl in reconos_init ((n + 2 ^ 32 - 2) % 2 ^ 32) ((n + 2 ^ 32 - 1) % 2 ^ 32)

  unfoldable pub reconos_hwt_create : Hwt → ℕ → Cmd K (ℕ × Hwt)
  reconos_hwt_create hwt slot = do
    let h = record hwt { slot = slot }
    e ← create_thread (delegate h)
    pure (e, h)

unfoldable pub reconos_hwt_setresources : Hwt → List Resource → ℕ → Hwt
reconos_hwt_setresources hwt res n = record hwt { resources = res; num_resources = n }

unfoldable pub reconos_hwt_setinitdata : Hwt → ℕ → Hwt
reconos_hwt_setinitdata hwt v = record hwt { init_data = v }
