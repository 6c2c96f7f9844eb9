-- ===== src/Sort/Demo.antt =====
-- demos/sort_demo/linux/sort_demo.c, data.c and timing.c: the buffers, the sort of a block in
-- the buffer, and the check. The allocator, `qsort` and the clock are arguments.

pub mod Block
pub mod Buffers
pub mod Sorted
use reconos_v.Base.{ℕ, zero, suc, ◌+◌, ◌*◌, ◌-◌, ◌/◌, ◌%◌, ◌^◌, Bool, true, false}
use reconos_v.Base.{Option, none, some, List, [], ◌∷◌, ◌++◌, if◌then◌else◌, ltb, ◌==◌, not}
use reconos_v.Base.{take, drop, length}
use reconos_v.Base.Maybe.{◌>>=◌}
use reconos_v.Sort.Bubble.{bubblesort}
use reconos_v.Sort.Merge.{write_at}

abbrev pub page_size : ℕ
page_size = 4096

-- `BLOCK_SIZE` in bytes, and `N`, the words of a block
abbrev pub block_size : ℕ
block_size = page_size * 2

abbrev pub block_words : ℕ
block_words = block_size / 4

abbrev pub uint_max : ℕ
uint_max = 2 ^ 32 - 1

-- `temp` is what `malloc` returned.
unfoldable pub malloc_page_aligned : (temp : ℕ) → ℕ
malloc_page_aligned temp = (temp / page_size + 1) * page_size % 2 ^ 32

-- The `for` loop, `left` iterations from its end.
unfoldable pub generate_loop : (left i size : ℕ) → List ℕ
generate_loop zero i size = []
generate_loop (suc left) i size = (1000 + (size - i - 1)) ∷ generate_loop left (i + 1) size

unfoldable pub generate_data : (size : ℕ) → List ℕ
generate_data size = generate_loop size 0 size

-- The loop of `check_data` up to its first difference. `none` is -1.
unfoldable pub check_loop : (left i : ℕ) (source copy : List ℕ) → Option ℕ
check_loop zero i source copy = none
check_loop (suc left) i [] copy = none
check_loop (suc left) i (x ∷ source) [] = none
check_loop (suc left) i (x ∷ source) (y ∷ copy) =
    let later = check_loop left (i + 1) source copy in if not (x == y) then some i else later

unfoldable pub check_data : (qsort : List ℕ → List ℕ) (source copy : List ℕ) (size : ℕ) → Option ℕ
check_data qsort source copy size = check_loop ((size + 2 ^ 32 - 1) % 2 ^ 32) 0 source (qsort copy)

-- A time of day, with its microseconds below a million.
pub record Timeval : Type 0 where
  pub tv_sec : ℕ
  pub tv_usec : ℕ

-- The C library's `timersub`, for times that are in order.
abbrev pub timersub : (stop start : Timeval) → Timeval
timersub stop start =
    if ltb stop.tv_usec start.tv_usec
    then record {
      tv_sec = stop.tv_sec - start.tv_sec - 1;
      tv_usec = stop.tv_usec + 1000000 - start.tv_usec;
    }
    else record { tv_sec = stop.tv_sec - start.tv_sec; tv_usec = stop.tv_usec - start.tv_usec }

unfoldable pub calc_timediff_ms : (start stop : Timeval) → ℕ
calc_timediff_ms start stop =
    let diff = timersub stop start in (diff.tv_sec * 1000 + diff.tv_usec / 1000) % 2 ^ 32

-- `bubblesort` on the words of a block in the buffer.
unfoldable pub sort_block : (address ret : ℕ) → List ℕ → Option (List ℕ)
sort_block address ret buffer =
    let word = (ret - address) / 4 in
    do
      sorted ← bubblesort (take block_words (drop word buffer)) block_words
      write_at word sorted buffer
