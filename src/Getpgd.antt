-- ===== src/Getpgd.antt =====
-- linux/getpgd/getpgd.c: the device that tells a process its page directory and flushes the cache.
-- The kernel's calls are arguments.
use reconos_v.Base.{ℕ, zero, suc, ◌+◌, ◌*◌, ◌-◌, ◌/◌, ◌%◌, ◌^◌, ◌<◌, Option, none, some}
use reconos_v.Base.{List, [], ◌∷◌, Bool, true, false, ◌≡◌, ◌≢◌, inl, inr, refl, ◌∙◌, ap, arith}
use reconos_v.Base.{if◌then◌else◌, ◌==◌, length, get_elem?, not, ◌&&◌, Option-cases}

-- What the module has registered with the kernel, and its variables `getpgd_dev` and
-- `getpgd_cdev.owner`.
pub record Module : Type 0 where
  pub regions : List ℕ
  pub cdev_added : Bool
  pub dev : ℕ
  pub owner : Bool

-- The kernel's answers: a device number, or an error, and whether the device can be added.
pub record Kernel : Type 0 where
  pub alloc_chrdev_region : Option ℕ
  pub cdev_add_ok : Bool

abbrev pub unregister : List ℕ → ℕ → List ℕ
unregister [] d = []
unregister (x ∷ xs) d = let rest = unregister xs d in if x == d then rest else x ∷ rest

unfoldable pub getpgd_exit : Module → Module
getpgd_exit m =
    let m1 = if m.owner then record m { cdev_added = false } else m in
    if m1.dev == 0 then m1 else record m1 { regions = unregister m1.regions m1.dev }

-- The result is `true` for 0, and `false` for an error.
unfoldable pub getpgd_init : Kernel → Module → Bool × Module
getpgd_init k m = start k.alloc_chrdev_region
  where
    add : Module → Bool × Module
    add m1 =
        let m2 = record m1 { owner = true } in
        if k.cdev_add_ok
        then (true, record m2 { cdev_added = true })
        else (false, getpgd_exit (record m2 { owner = false }))

    start : Option ℕ → Bool × Module
    start none = (false, getpgd_exit m)
    start (some d) = add (record m { regions = d ∷ m.regions; dev = d })

-- The module before it is loaded
abbrev pub unloaded : List ℕ → Module
unloaded regions = record { regions = regions; cdev_added = false; dev = 0; owner = false }

-- What a read returns.
pub data ReadResult : Type 0 where
  einval efault : ReadResult
  bytes : ℕ → ReadResult

-- `getpgd_read`: its result, and the word that it copied to the user. `copied` is whether
-- `copy_to_user` copies all.
unfoldable pub getpgd_read : (pgd len : ℕ) (copied : Bool) → ReadResult × Option ℕ
getpgd_read pgd len copied =
    let word = (pgd + 2 ^ 32 - 0xC0000000) % 2 ^ 32 in
    if not (len == 4)
    then (einval, none)
    else (if copied then (bytes 4, some word) else (efault, none))

-- `flush_dcache`, `left` iterations from its end: the offsets that it flushes from `i` on.
unfoldable pub flush_loop : (left i : ℕ) → List ℕ
flush_loop zero i = []
flush_loop (suc left) i = i ∷ flush_loop left (i + 16)

unfoldable pub flush_dcache : List ℕ
flush_dcache = flush_loop (64 * 1024 / 16) 0

-- A write flushes the cache and takes all bytes.
unfoldable pub getpgd_write : (len : ℕ) → ℕ × List ℕ
getpgd_write len = (len, flush_dcache)

-- The device number that the kernel gives is not 0 and not in use.
abbrev pub IsFresh : Kernel → List ℕ → Type 0
IsFresh k regions =
    (d : ℕ) → k.alloc_chrdev_region ≡ some d → (d ≢ 0) × (unregister regions d ≡ regions)

unregister-head : (d : ℕ) (xs : List ℕ) → unregister (d ∷ xs) d ≡ unregister xs d
unregister-head d xs = ground arith

abbrev pub is_some : Option ℕ → Bool
is_some none = false
is_some (some d) = true

-- Loading the module succeeds just when both calls of the kernel do. Loading it and unloading it, or
-- loading it when that fails, leaves the kernel's device numbers as they were and no device added.
pub loaded_then_unloaded :
    (k : Kernel) (regions : List ℕ)
    → IsFresh k regions
    → let (ok, m) = getpgd_init k (unloaded regions) in
      let m' = if ok then getpgd_exit m else m in
      (ok ≡ is_some k.alloc_chrdev_region && k.cdev_add_ok)
      × (m'.regions ≡ regions)
      × (m'.cdev_added ≡ false)
unfolding getpgd_init getpgd_exit
loaded_then_unloaded k regions fresh = elim (Option-cases k.alloc_chrdev_region) [
  | inl e ↦ rw e (refl, refl, refl)
  | inr (d, e) ↦
      let (nonzero, unused) = fresh d e in
      let given = unregister-head d regions ∙ unused in
      rw e (ground (arith, given), ground (arith, given), ground (arith, given))
]

length-flush_loop : (left i : ℕ) → length (flush_loop left i) ≡ left
unfolding flush_loop
length-flush_loop zero i = refl
length-flush_loop (suc left) i = ap suc (length-flush_loop left (i + 16))

get_elem?-flush_loop :
    (left i k : ℕ) → k < left → get_elem? (flush_loop left i) k ≡ some (i + k * 16)
unfolding flush_loop
get_elem?-flush_loop zero i k h = absurd (omega arith)
get_elem?-flush_loop (suc left) i zero h = ap some (omega arith)
get_elem?-flush_loop (suc left) i (suc k) h =
    get_elem?-flush_loop left (i + 16) k (omega arith) ∙ ap some (omega arith)

-- A write takes all its bytes and flushes each line of sixteen bytes of the cache of 64 KB once, in
-- order, and no address outside it.
pub getpgd_write_lem :
    (len : ℕ)
    → let (taken, flushed) = getpgd_write len in
      (taken ≡ len)
      × (length flushed ≡ 4096)
      × ((k : ℕ) → k < 4096 → (get_elem? flushed k ≡ some (k * 16)) × (k * 16 < 64 * 1024))
unfolding getpgd_write flush_dcache
getpgd_write_lem len = (
  refl,
  length-flush_loop 4096 0,
  λ k h. (get_elem?-flush_loop 4096 0 k h ∙ ap some (omega arith), omega arith),
)
