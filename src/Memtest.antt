-- ===== src/Memtest.antt =====
-- demos/memtest: `simulate` and the check of linux/memtest.c, and the hardware thread that it is about,
-- edk/pcores/hwt_memaccess_v1_00_a/hdl/vhdl/hwt_memaccess.vhd.
pub mod Cells
pub mod Bursts
pub mod Rounds
pub mod Agrees
pub mod Passes
use reconos_v.Base.{ℕ, zero, suc, ◌+◌, ◌*◌, ◌-◌, ◌/◌, ◌%◌, ◌^◌, Bool, true, false, List, [], ◌∷◌}
use reconos_v.Base.{if◌then◌else◌, ltb, ◌==◌, ◌&&◌, get_or, set}

-- `simulate` up to `ieff`, for a `num_iter` below 2^31 - 1 and a `size` below 2^31: then no `int`
-- overflows, since `ieff` is at most `num_iter`: how often a word is written with a new value.
unfoldable pub effective : (num_iter pos size : ℕ) → ℕ
effective num_iter pos size =
    let cyc = num_iter / size in
    let rem = num_iter % size in
    let icyc = size - pos in
    let irem = if ltb rem pos then 0 else rem - pos in
    let more = if ltb 0 irem then cyc + 1 else cyc in
    let tmp = if more == 0 then 0 else more - 1 in
    let ieff = icyc * cyc + irem in if pos % 2 == 1 then ieff - tmp else ieff

-- The words `*a` and `*b`. A negative `btmp` becomes 0, as a difference of natural numbers does.
unfoldable pub simulate : (num_iter pos size : ℕ) → ℕ × ℕ
simulate num_iter pos size =
    let ieff = effective num_iter pos size in
    let atmp = ieff / 2 * 2 in
    let btmp = (ieff + 1) / 2 * 2 - 1 in if pos % 2 == 0 then (atmp, btmp) else (btmp, atmp)

-- A burst of the hardware thread, `left` words from its end: it reads from `a` on, and writes one more
-- from `b` on. Addresses are the indices of words.
unfoldable pub copy_loop : (left counter a b : ℕ) (mem : List ℕ) → List ℕ
copy_loop zero counter a b mem = mem
copy_loop (suc left) counter a b mem =
    copy_loop left (counter + 1) a b
      (set mem (b + counter) ((get_or mem (a + counter) 0 + 1) % 2 ^ 32))

-- The hardware thread from its first burst to its acknowledgement, with `blen` and `size` in words.
unfoldable pub hwt_memaccess : (repeat blen size a b : ℕ) (mem : List ℕ) → List ℕ
hwt_memaccess zero blen size a b mem = copy_loop blen 0 a b mem
hwt_memaccess (suc repeat) blen size a b mem =
    hwt_memaccess repeat (if ltb blen size then blen + 1 else 1) size b a (copy_loop blen 0 a b mem)

-- The check of one thread's words, `left` of them from its end: whether no error is found.
unfoldable pub check_loop : (left j n size a b : ℕ) (mem : List ℕ) → Bool
check_loop zero j n size a b mem = true
check_loop (suc left) j n size a b mem =
    let (x, y) = simulate (n + 1) j size in
    let rest = check_loop left (j + 1) n size a b mem in
    (get_or mem (a + j) 0 == x) && ((get_or mem (b + j) 0 == y) && rest)

-- The loops over the hardware threads from the `i`th on, by the flags of those that are used: their
-- runs, one after the other, and the checks. Thread `i` has the buffers from `i * 2 * size` on.
unfoldable pub run_hwts : (use_hwt : List Bool) (i n size : ℕ) (mem : List ℕ) → List ℕ
run_hwts [] i n size mem = mem
run_hwts (used ∷ use_hwt) i n size mem =
    let a = i * (2 * size) in
    run_hwts use_hwt (i + 1) n size (if used then hwt_memaccess n 1 size a (a + size) mem else mem)

unfoldable pub check_hwts : (use_hwt : List Bool) (i n size : ℕ) (mem : List ℕ) → Bool
check_hwts [] i n size mem = true
check_hwts (used ∷ use_hwt) i n size mem =
    let a = i * (2 * size) in
    let rest = check_hwts use_hwt (i + 1) n size mem in
    if used then check_loop size 0 n size a (a + size) mem && rest else rest
