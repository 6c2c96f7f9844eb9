-- ===== src/Vmtest/Phases.antt =====
-- What holds of `hwt_read` and the hardware thread between their steps.
use reconos_v.Base.{ℕ, zero, suc, ◌+◌, ◌*◌, ◌/◌, ◌%◌, ◌^◌, some, List, [], ◌∷◌, ◌++◌}
use reconos_v.Base.{◌≡◌, ◌∙◌, sym, ap, length, arith, Bool, true, false, ◌==◌, get_or, drop}
use reconos_v.Mbox.{Mbox, mbox_get}
use reconos_v.Mbox.Holds.{Holds, get-inv}
use reconos_v.Vmtest.{
  Place, request, address, done, word, State, get_request, get_addr, mbox_put_word, Vm,
}

-- `count` words of the memory from an index on.
abbrev pub words : (memory : List ℕ) (from count : ℕ) → List ℕ
words memory from zero = []
words memory from (suc count) = get_or memory from 0 ∷ words memory (from + 1) count

pub words-snoc :
    (memory : List ℕ) (from count : ℕ)
    → words memory from count ++ (get_or memory (from + count) 0 ∷ [])
      ≡ words memory from (suc count)
words-snoc memory from zero = ap (λ k. get_or memory k 0 ∷ []) (omega arith)
words-snoc memory from (suc count) =
    ap (λ l. get_or memory from 0 ∷ l)
      (ap (λ k. words memory (from + 1) count ++ (get_or memory k 0 ∷ [])) (omega arith)
        ∙ words-snoc memory (from + 1) count)

pub opposite : {b : Bool} → b ≡ false → b ≡ true → ⊥
opposite e e' = cc

pub nonzero : (n : ℕ) → (suc n == 0) ≡ false
nonzero n = ground arith

pub words-inv :
    (memory : List ℕ) (from count x : ℕ) (rest : List ℕ)
    → words memory from count ≡ x ∷ rest
    → (c : ℕ) × (count ≡ c + 1) × (x ≡ get_or memory from 0) × (rest ≡ words memory (from + 1) c)
words-inv memory from zero x rest e = absurd (omega (arith, ap length e))
words-inv memory from (suc c) x rest e =
    (c, omega arith, sym (ap (λ l. get_or l 0 0) e), sym (ap (drop 1) e))

pub first : {a b : ℕ} {xs ys : List ℕ} → Path (List ℕ) (a ∷ xs) (b ∷ ys) → b ≡ a
first e = sym (ap (λ l. get_or l 0 0) e)

pub get_none : {mb mb' : Mbox} (x : ℕ) → Holds 3 [] mb → mbox_get mb ≡ some (x, mb') → ⊥
get_none x h got = let (rest, e, holds) = get-inv x h got in omega (arith, ap length e)

module _ (vaddr n : ℕ) (memory : List ℕ) where
  -- Where the two sides are, what is in the boxes, and what has been read.
  pub data Phase : (made : ℕ) → Place → State → (asked answered got : List ℕ) → Type 0 where
    before : Phase 0 request get_request [] [] []
    asked : Phase 1 address get_request ((n * 4 % 2 ^ 32) ∷ []) [] []
    heard : Phase 2 address (get_addr (n * 4 % 2 ^ 32)) [] [] []
    sent : Phase 2 (word 0) get_request ((n * 4 % 2 ^ 32) ∷ vaddr ∷ []) [] []
    told : Phase 3 (word 0) (get_addr (n * 4 % 2 ^ 32)) (vaddr ∷ []) [] []
    reads :
        (i count left : ℕ)
        → i + count + suc left ≡ n
        → Phase
            (4 + i + (i + count))
            (word i)
            (mbox_put_word (vaddr / 4) (i + count) (suc left))
            []
            (words memory (vaddr / 4 + i) count)
            (words memory (vaddr / 4) i)
    served :
        (i count : ℕ)
        → i + count ≡ n
        → Phase
            (4 + i + (i + count))
            (word i)
            get_request
            []
            (words memory (vaddr / 4 + i) count)
            (words memory (vaddr / 4) i)
    over : Phase (5 + n + n) done get_request [] [] (words memory (vaddr / 4) n)

  pub record Inv (made : ℕ) (s : Vm) : Type 0 where
    pub requests : List ℕ
    pub answers : List ℕ
    pub phase : Phase made s.place s.state requests answers s.dst
    pub to_thread : Holds 3 requests s.sw2hw
    pub to_software : Holds 3 answers s.hw2sw
    pub kept : s.memory ≡ memory

module _ {vaddr n : ℕ} {memory : List ℕ} where
  pub moved :
      {m m' : ℕ} {p p' : Place} {u u' : State} {q q' r r' got got' : List ℕ}
      → m' ≡ m
      → p' ≡ p
      → u' ≡ u
      → q' ≡ q
      → r' ≡ r
      → got' ≡ got
      → Phase vaddr n memory m p u q r got
      → Phase vaddr n memory m' p' u' q' r' got'
  moved em ep eu eq er eg ph = rw (em, ep, eu, eq, er, eg) ph
