-- ===== src/Examples/Memory.antt =====
-- The memory test on two small buffers.
use reconos_v.Base.{ℕ, List, [], ◌∷◌}

-- Room for two threads with buffers of two words
abbrev cleared : List ℕ
cleared = 0 ∷ 0 ∷ 0 ∷ 0 ∷ 0 ∷ 0 ∷ 0 ∷ 0 ∷ []
