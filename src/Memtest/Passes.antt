-- ===== src/Memtest/Passes.antt =====
-- The memory test reports no error when the hardware threads and the memory work.
use reconos_v.Base.{ℕ, ◌+◌, ◌*◌, ◌≤◌, ◌<◌, List, ◌≡◌}
use reconos_v.Base.{get_or, Bool, true}
use reconos_v.Memtest.{simulate, run_hwts, check_hwts}

-- The words of a thread are those that `simulate` gives.
Right : (n size a : ℕ) (mem : List ℕ) → Type 0
Right n size a mem =
    (j : ℕ)
    → j < size
    → simulate (n + 1) j size ≡ (get_or mem (a + j) 0, get_or mem (a + size + j) 0)

-- The runs from thread `i` on: the words before its buffers are as they were.
record Ran (use_hwt : List Bool) (i n size : ℕ) (mem : List ℕ) : Type 0 where
  pub before :
      (k : ℕ) → k < i * (2 * size) → get_or (run_hwts use_hwt i n size mem) k 0 ≡ get_or mem k 0
  pub passes : check_hwts use_hwt i n size (run_hwts use_hwt i n size mem) ≡ true

Clear : (i size : ℕ) (mem : List ℕ) → Type 0
Clear i size mem = (k : ℕ) → i * (2 * size) ≤ k → get_or mem k 0 ≡ 0
