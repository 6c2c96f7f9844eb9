-- ===== src/Examples/Drivers.antt =====
-- Transfers by the kernel driver.
use reconos_v.Base.{ℕ, ◌≡◌, refl, false, none, some, [], ◌∷◌, arith}
use reconos_v.Base.{replicate}
use reconos_v.Driver.{Fifos, Dev, Reader, bytes, returned, sleeping, fsl_read, wake, fsl_interrupt}
use reconos_v.Driver.Blocking.{Asks, sleep_then_read}
use reconos_v.Driver.Devices.{Slot, Kernel}

-- two words from the hardware, and room for three towards it
abbrev fifos : Fifos
fifos = record { slave = λ n. 11 ∷ 22 ∷ []; master = λ n. 7 ∷ []; depth = 4 }

abbrev device : Dev
device = record { fsl_num = 3; irq = some 9; irq_enabled = false; irq_count = 1 }

abbrev reader : Reader
reader = record { dev = device; fifos = fifos; copied = [] }

reader-Asks : Asks reader (11 ∷ 22 ∷ []) 1 3 12
reader-Asks = record {
  link = omega arith;
  there = refl;
  nothing = refl;
  amount = refl;
  fits = omega arith;
}

reader_whole-Asks : Asks reader (11 ∷ 22 ∷ []) 0 3 8
reader_whole-Asks = record {
  link = omega arith;
  there = refl;
  nothing = refl;
  amount = refl;
  fits = omega arith;
}

sleep_then_read_example :
    (u : Reader) × (w : Reader) × (fsl_read 3 12 false reader ≡ (sleeping 1, u))
    × (wake 1 3 12 false
          (record u { fifos = record fifos { slave = λ n. 33 ∷ [] }; dev = fsl_interrupt u.dev })
        ≡ (returned (bytes 12), w))
    × (w.copied ≡ 11 ∷ 22 ∷ 33 ∷ [])
sleep_then_read_example =
    sleep_then_read (33 ∷ []) (record fifos { slave = λ n. 33 ∷ [] }) reader-Asks (omega arith) refl
      refl

-- the interrupt 9 is granted to device 0, whose character device is refused
abbrev kernel : Kernel
kernel = record {
  fsl_interrupts = some 9 ∷ replicate 15 none;
  request_irq = λ irq. 0;
  cdev_add = λ index. 12;
  register_region = some 250;
}

abbrev unloaded : ℕ → Slot
unloaded n = record { dev = device; handler = false; cdev = false }
