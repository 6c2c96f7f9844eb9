-- ===== src/Process/Control.antt =====
-- Start-up of the process, its counters, and what the control thread does with a page fault.
use reconos_v.Base.{
  ℕ, ◌+◌, ◌-◌, ◌%◌, ◌^◌, ◌<◌, ◌≤◌, ◌≡◌, refl, ◌≢◌, ◌⊎◌, none, some, List, [], ◌∷◌, ◌++◌,
}
use reconos_v.Base.{arith, map, append_assoc}
use reconos_v.Base.Bits.{or_bit}
use reconos_v.Machine.{control, Host, Machine, ok, exited, fault, update, update_self}
use reconos_v.Fsl.{fsl_read, fsl_write, max_fsl_devices}
use reconos_v.Fsl.Link.{IsOpen, fsl-fault, fsl_write-ok}
use reconos_v.Process.{
  control_step, reconos_init, getpgd, reconos_mmu_stats, get_numfsl, reconos_init_autodetect,
}

three_words :
    (tx : ℕ → List ℕ) (b pgd : ℕ)
    → let tx1 = update tx b (tx b ++ (0x04000000 ∷ [])) in
      let tx2 = update tx1 b (tx1 b ++ (0x02000000 ∷ [])) in
      update tx2 b (tx2 b ++ (pgd ∷ [])) b ≡ tx b ++ (0x04000000 ∷ 0x02000000 ∷ pgd ∷ [])
three_words tx b pgd =
    let tx1 = update tx b (tx b ++ (0x04000000 ∷ [])) in
    let tx2 = update tx1 b (tx1 b ++ (0x02000000 ∷ [])) in
    rw (update_self tx2 b (tx2 b ++ (pgd ∷ []))) (
      rw (update_self tx1 b (tx1 b ++ (0x02000000 ∷ [])))
        (rw (update_self tx b (tx b ++ (0x04000000 ∷ []))) (simp append_assoc)))

module _ {K : Type 0} (host : Host K) (m : Machine K) where
  -- Any other command of the control link is read and changes nothing else.
  pub control_other :
      (cmd : ℕ) (rest : List ℕ)
      → let link = m.proc.proc_control_fsl_a in
        IsOpen link m.fsl_fd
        → m.rx link ≡ cmd ∷ rest
        → cmd ≢ 1
        → control_step host m ≡ ok tt (record m { rx = update m.rx link rest })
  unfolding control_step fsl_read
  control_other cmd rest o e ne = ground arith

  -- Start-up with a page directory that can be read: three words go to the second link, a reset, the
  -- command for the page directory and the directory; the control thread is created; the fault
  -- counter is 0 and every slot is marked for reset. The result is 0.
  pub init_lem :
      (a b pgd fd : ℕ)
      → IsOpen b m.fsl_fd
      → host.open_getpgd ≡ some fd
      → host.read_getpgd ≡ some pgd
      → (u : Machine K) × (reconos_init host a b m ≡ ok 0 u)
        × (u.tx b ≡ m.tx b ++ (0x04000000 ∷ 0x02000000 ∷ pgd ∷ []))
        × (u.proc ≡ record {
          page_faults = 0;
          proc_control_fsl_a = a;
          proc_control_fsl_b = b;
          slot_flags = map (or_bit 0) m.proc.slot_flags;
          fd_cache = host.open_cache;
        })
        × (u.os ≡ (host.create_thread control m.os).1)
  unfolding reconos_init getpgd
  init_lem a b pgd fd o e r =
      let tx1 = update m.tx b (m.tx b ++ (0x04000000 ∷ [])) in
      let tx2 = update tx1 b (tx1 b ++ (0x02000000 ∷ [])) in
      let tx3 = update tx2 b (tx2 b ++ (pgd ∷ [])) in
      let m0 = record m {
        proc = record m.proc {
          page_faults = 0;
          proc_control_fsl_a = a;
          proc_control_fsl_b = b;
          slot_flags = map (or_bit 0) m.proc.slot_flags;
        };
      } in
      let m1 = record m0 { tx = tx1 } in
      let m2 = record m0 { tx = tx2 } in
      (
        record m0 {
          proc = record m0.proc { fd_cache = host.open_cache };
          tx = tx3;
          os = (host.create_thread control m.os).1;
        },
        ground (
          arith,
          fsl_write-ok host b m0 0x04000000 o,
          fsl_write-ok host b m1 0x02000000 o,
          fsl_write-ok host b m2 pgd o,
        ),
        three_words m.tx b pgd,
        refl,
        refl,
      )

  -- Without a readable page directory the process leaves with 1 after the reset word, and no thread
  -- is created.
  pub init_exit :
      (a b : ℕ)
      → IsOpen b m.fsl_fd
      → (host.open_getpgd ≡ none) ⊎ (host.read_getpgd ≡ none)
      → (u : Machine K) × (reconos_init host a b m ≡ exited 1 u)
        × (u.tx ≡ update m.tx b (m.tx b ++ (0x04000000 ∷ [])))
        × (u.os ≡ m.os)
  unfolding reconos_init getpgd fsl_write
  init_exit a b o bad = (
    record m {
      proc = record m.proc {
        proc_control_fsl_a = a;
        proc_control_fsl_b = b;
        page_faults = 0;
        slot_flags = map (or_bit 0) m.proc.slot_flags;
      };
      tx = update m.tx b (m.tx b ++ (0x04000000 ∷ []));
    },
    ground arith,
    refl,
    refl,
  )

  -- The request for the counters sends one word, and reads the hits, then the misses; the page
  -- faults are those that the control thread has counted.
  pub mmu_stats_lem :
      (hits misses : ℕ) (rest : List ℕ)
      → let link = m.proc.proc_control_fsl_b in
        IsOpen link m.fsl_fd
        → m.rx link ≡ hits ∷ misses ∷ rest
        → (u : Machine K) × (reconos_mmu_stats host m ≡ ok (hits, misses, m.proc.page_faults) u)
          × (u.tx ≡ update m.tx link (m.tx link ++ (0x05000000 ∷ [])))
          × (u.rx link ≡ rest)
  unfolding reconos_mmu_stats fsl_read fsl_write
  mmu_stats_lem hits misses rest o e =
      let link = m.proc.proc_control_fsl_b in
      (
        record m {
          rx = update (update m.rx link (misses ∷ rest)) link rest;
          tx = update m.tx link (m.tx link ++ (0x05000000 ∷ []));
        },
        ground arith,
        refl,
        ground arith,
      )

  init-fault :
      (a b : ℕ) → max_fsl_devices ≤ b → (u : Machine K) × (reconos_init host a b m ≡ fault u)
  unfolding reconos_init
  init-fault a b h =
      let m0 = record m {
        proc = record m.proc {
          page_faults = 0;
          proc_control_fsl_a = a;
          proc_control_fsl_b = b;
          slot_flags = map (or_bit 0) m.proc.slot_flags;
        };
      } in
      (m0, rw (fsl-fault host b m0 0x04000000 h).0)

  numfsl-lt : get_numfsl host < 32
  unfolding get_numfsl
  numfsl-lt = omega arith

  -- The number of links comes from five bits of a register of the processor. With two links or
  -- more, the last two are taken for the start-up.
  pub autodetect_links :
      1 < get_numfsl host
      → reconos_init_autodetect host m
        ≡ reconos_init host (get_numfsl host - 2) (get_numfsl host - 1) m
  unfolding reconos_init_autodetect
  autodetect_links h =
      let e1 : (get_numfsl host + 2 ^ 32 - 2) % 2 ^ 32 ≡ get_numfsl host - 2 =
        omega (arith, numfsl-lt) in
      let e2 : (get_numfsl host + 2 ^ 32 - 1) % 2 ^ 32 ≡ get_numfsl host - 1 =
        omega (arith, numfsl-lt) in
      rw (e1, e2)

  -- Without a link the two numbers are negative, and start-up fails at its first write.
  pub autodetect_none :
      get_numfsl host ≡ 0 → (u : Machine K) × (reconos_init_autodetect host m ≡ fault u)
  unfolding reconos_init_autodetect
  autodetect_none h =
      rw h (init-fault ((0 + 2 ^ 32 - 2) % 2 ^ 32) ((0 + 2 ^ 32 - 1) % 2 ^ 32) (omega arith))
