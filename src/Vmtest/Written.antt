-- ===== src/Vmtest/Written.antt =====
-- What holds of `hwt_write` and the hardware thread between their steps.
use reconos_v.Base.{ℕ, zero, suc, ◌+◌, ◌*◌, ◌/◌, ◌%◌, ◌^◌, ◌≤◌, List, [], ◌∷◌}
use reconos_v.Base.{◌≡◌, get_or, set}
use reconos_v.Base.Bits.{or_bit}
use reconos_v.Mbox.Holds.{Holds}
use reconos_v.Vmtest.{
  Place, request, address, done, word, State, get_request, get_addr, mbox_get_word, ack, Vm,
}
use reconos_v.Vmtest.Phases.{words}

-- The memory after the first `count` words of `src`
abbrev pub written : (memory : List ℕ) (from : ℕ) (src : List ℕ) (count : ℕ) → List ℕ
written memory from src zero = memory
written memory from src (suc count) =
    set (written memory from src count) (from + count) (get_or src count 0)

abbrev pub write_request : ℕ → ℕ
write_request n = or_bit 31 (n * 4 % 2 ^ 32)

module _ (src : List ℕ) (vaddr n : ℕ) (memory : List ℕ) where
  -- Where the two sides are, what is in the boxes, and what has been written.
  pub data Phase : (made : ℕ) → Place → State → (asked answered now : List ℕ) → Type 0 where
    before : Phase 0 request get_request [] [] memory
    asked : Phase 1 address get_request (write_request n ∷ []) [] memory
    heard : Phase 2 address (get_addr (write_request n)) [] [] memory
    sent :
        (i : ℕ)
        → i ≤ n
        → Phase (2 + i) (word i) get_request (write_request n ∷ vaddr ∷ words src 0 i) [] memory
    told :
        (i : ℕ)
        → i ≤ n
        → Phase (3 + i) (word i) (get_addr (write_request n)) (vaddr ∷ words src 0 i) [] memory
    writes :
        (k count left : ℕ)
        → k + suc left ≡ n
        → k + count ≤ n
        → Phase
            (4 + k + (k + count))
            (word (k + count))
            (mbox_get_word (vaddr / 4) k (suc left))
            (words src k count)
            []
            (written memory (vaddr / 4) src k)
    acks : Phase (4 + n + n) (word n) (ack (vaddr / 4)) [] [] (written memory (vaddr / 4) src n)
    acked :
        Phase
          (5 + n + n)
          (word n)
          get_request
          []
          ((vaddr / 4 * 4) ∷ [])
          (written memory (vaddr / 4) src n)
    over : Phase (6 + n + n) done get_request [] [] (written memory (vaddr / 4) src n)

  pub record Inv (made : ℕ) (s : Vm) : Type 0 where
    pub requests : List ℕ
    pub answers : List ℕ
    pub phase : Phase made s.place s.state requests answers s.memory
    pub to_thread : Holds 3 requests s.sw2hw
    pub to_software : Holds 3 answers s.hw2sw

module _ {src : List ℕ} {vaddr n : ℕ} {memory : List ℕ} where
  pub moved :
      {m m' : ℕ} {p p' : Place} {u u' : State} {q q' r r' now now' : List ℕ}
      → m' ≡ m
      → p' ≡ p
      → u' ≡ u
      → q' ≡ q
      → r' ≡ r
      → now' ≡ now
      → Phase src vaddr n memory m p u q r now
      → Phase src vaddr n memory m' p' u' q' r' now'
  moved em ep eu eq er en ph = rw (em, ep, eu, eq, er, en) ph
