-- ===== src/Driver/Devices.antt =====
-- Loading and unloading of the driver: the devices are set up, and taken down again.
use reconos_v.Base.{
  ℕ, zero, suc, ◌+◌, ◌<◌, ◌≡◌, Bool, true, false, Option, none, some, List, arith, ◌∙◌,
}
use reconos_v.Base.{◌==◌, ◌&&◌, not, ltb, if◌then◌else◌, get_or}
use reconos_v.Machine.{update}
use reconos_v.Driver.{Dev, fsl_max}

-- A device with what the kernel holds for it: the interrupt handler and the character device.
pub record Slot : Type 0 where
  pub dev : Dev
  pub handler : Bool
  pub cdev : Bool

-- The module's parameter, with `none` for -1, and the error codes of the kernel's functions, 0 for
-- success: `request_irq` by the interrupt, `cdev_add` by the number of the device.
pub record Kernel : Type 0 where
  pub fsl_interrupts : List (Option ℕ)
  pub request_irq : ℕ → ℕ
  pub cdev_add : ℕ → ℕ
  pub register_region : Option ℕ

module _ (k : Kernel) where
  -- the part of `fsl_setup_dev` behind the first test
  unfoldable pub request : ℕ → ℕ → Slot → Slot
  request index irq s =
      if k.request_irq irq == 0
      then (if k.cdev_add index == 0
          then record s {
            dev = record s.dev { irq = some irq; fsl_num = index; irq_enabled = true };
            handler = true;
            cdev = true;
          }
          else record s { dev = record s.dev { irq = none; fsl_num = index }; handler = true })
      else record s { dev = record s.dev { irq = none } }

  unfoldable pub fsl_setup_dev : ℕ → Slot → Slot
  unfolding request
  fsl_setup_dev index s = elim (get_or k.fsl_interrupts index none) [
    | none ↦ record s { dev = record s.dev { irq = none } }
    | some irq ↦ request index irq s
  ]

  unfoldable pub fsl_remove_dev : Slot → Slot
  fsl_remove_dev s = elim s.dev.irq [
    | none ↦ s
    | some irq ↦ record s { handler = false; cdev = false }
  ]

  -- the loops over `dev_array`, from the first device on
  unfoldable pub setup_from : (n index : ℕ) → (ℕ → Slot) → ℕ → Slot
  setup_from zero index devs = devs
  setup_from (suc n) index devs =
      setup_from n (suc index) (update devs index (fsl_setup_dev index (devs index)))

  unfoldable pub remove_from : (n index : ℕ) → (ℕ → Slot) → ℕ → Slot
  remove_from zero index devs = devs
  remove_from (suc n) index devs =
      remove_from n (suc index) (update devs index (fsl_remove_dev (devs index)))

  -- Without a region for the devices' numbers nothing is set up.
  unfoldable pub fsl_init : (ℕ → Slot) → Option ℕ × (ℕ → Slot)
  fsl_init devs = elim k.register_region [
    | none ↦ (none, devs)
    | some major ↦ (some major, setup_from fsl_max 0 devs)
  ]

  unfoldable pub fsl_cleanup : (ℕ → Slot) → ℕ → Slot
  fsl_cleanup devs = remove_from fsl_max 0 devs

  setup_from-lt :
      (n index : ℕ) (devs : ℕ → Slot) (j : ℕ)
      → setup_from n index devs j
        ≡ (if not (ltb j index) && ltb j (index + n) then fsl_setup_dev j (devs j) else devs j)
  unfolding setup_from
  setup_from-lt zero index devs j = ground arith
  setup_from-lt (suc n) index devs j =
      ground (
        arith,
        setup_from-lt n (suc index) (update devs index (fsl_setup_dev index (devs index))) j,
      )

  remove_from-lt :
      (n index : ℕ) (devs : ℕ → Slot) (j : ℕ)
      → remove_from n index devs j
        ≡ (if not (ltb j index) && ltb j (index + n) then fsl_remove_dev (devs j) else devs j)
  unfolding remove_from
  remove_from-lt zero index devs j = ground arith
  remove_from-lt (suc n) index devs j =
      ground
        (arith, remove_from-lt n (suc index) (update devs index (fsl_remove_dev (devs index))) j)

  -- the interrupt was granted, and then the character device was refused
  abbrev pub is_half : ℕ → Option ℕ → Bool
  is_half index none = false
  is_half index (some irq) = (k.request_irq irq == 0) && not (k.cdev_add index == 0)

  setup_remove :
      (j : ℕ) (s : Slot)
      → s.handler ≡ false
      → s.cdev ≡ false
      → let u = fsl_remove_dev (fsl_setup_dev j s) in
        (u.handler ≡ is_half j (get_or k.fsl_interrupts j none)) × (u.cdev ≡ false)
  unfolding fsl_setup_dev fsl_remove_dev
  setup_remove j s h c = elim (get_or k.fsl_interrupts j none) [
    | none ↦ (ground arith, ground arith)
    | some irq ↦ (ground arith, ground arith)
  ]

  -- From a kernel that holds nothing, loading and then unloading leaves no character device behind,
  -- and leaves an interrupt handler behind for just those devices whose interrupt was granted and
  -- whose character device was then refused.
  pub init_then_cleanup :
      (devs : ℕ → Slot) (major j : ℕ)
      → k.register_region ≡ some major
      → j < fsl_max
      → (devs j).handler ≡ false
      → (devs j).cdev ≡ false
      → let u = fsl_cleanup (fsl_init devs).1 in
        ((u j).handler ≡ is_half j (get_or k.fsl_interrupts j none)) × ((u j).cdev ≡ false)
  unfolding fsl_init fsl_cleanup remove_from fsl_remove_dev setup_from fsl_setup_dev
  init_then_cleanup devs major j e lt h c =
      let up : setup_from fsl_max 0 devs j ≡ fsl_setup_dev j (devs j) =
        setup_from-lt fsl_max 0 devs j ∙ ground arith in
      let down : remove_from fsl_max 0 (setup_from fsl_max 0 devs) j
          ≡ fsl_remove_dev (fsl_setup_dev j (devs j)) =
        remove_from-lt fsl_max 0 (setup_from fsl_max 0 devs) j ∙ ground (arith, up) in
      rw (e, down) (setup_remove j (devs j) h c)
