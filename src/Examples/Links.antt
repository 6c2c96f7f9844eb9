-- ===== src/Examples/Links.antt =====
-- The links and the process side on the machine of `Fixture`.
use reconos_v.Base.{ℕ, ◌+◌, ◌^◌, ◌<◌, ◌≡◌, refl, true, none, [], ◌∷◌}
use reconos_v.Base.{set, get_or, arith}
use reconos_v.Machine.{Host, Machine, ok}
use reconos_v.Process.{slot_reset, set_reset}
use reconos_v.Process.Reset.{Lines, slot_reset_lem}
use reconos_v.Examples.Fixture.{system, process, machine, control_link}

-- no link has a descriptor yet
abbrev closed : Machine ℕ
closed = record (machine []) { fsl_fd = none ∷ none ∷ [] }

-- a system without the devices of the links and of the page directory, and without a link
abbrev bare : Host ℕ
bare = record system { open_fsl = λ n. none; open_getpgd = none; pvr3 = 0 }

slot_reset_example :
    (u : Machine ℕ) × (mask : ℕ) × (slot_reset system 3 true (machine []) ≡ ok tt u)
    × (u.tx 15 ≡ (0x01000000 + mask) ∷ [])
    × (mask < 2 ^ 16)
    × Lines process.slot_flags 3 true mask
    × (u.proc ≡ record process {
      slot_flags = set process.slot_flags 3 (set_reset true (get_or process.slot_flags 3 0));
    })
    × (u.fsl_fd ≡ (machine []).fsl_fd)
slot_reset_example = slot_reset_lem system (machine []) 3 true (control_link []) refl (omega arith)

abbrev faulting : Machine ℕ
faulting = machine (1 ∷ 40 ∷ [])
