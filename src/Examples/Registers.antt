-- ===== src/Examples/Registers.antt =====
-- The version registers, the page directory device and the shutdown on concrete values.
use reconos_v.Base.{◌≡◌, ◌≢◌, refl, sym, some, [], ◌∷◌, arith, false}
use reconos_v.Base.{replicate}
use reconos_v.Pvr.{fields, read_field}
use reconos_v.Pvr.Fields.{named, read_field_lem}
use reconos_v.Getpgd.{Kernel, unregister, IsFresh}
use mathlib.Core.Option.{some-injective}

read_field_example :
    read_field (replicate 16 0x12345678) "DCU" ≡ some (named fields (replicate 16 0x12345678) "DCU")
read_field_example = read_field_lem (replicate 16 0x12345678) "DCU" refl

-- The kernel gives a number, but does not add the device.
abbrev unwilling : Kernel
unwilling = record { alloc_chrdev_region = some 240; cdev_add_ok = false }

unwilling-IsFresh : IsFresh unwilling (1 ∷ 4 ∷ [])
unwilling-IsFresh d e = fresh (some-injective _ _ e)
  where
    fresh : 240 ≡ d → (d ≢ 0) × (unregister (1 ∷ 4 ∷ []) d ≡ 1 ∷ 4 ∷ [])
    fresh h = (λ z. omega arith, rw (sym h) refl)
