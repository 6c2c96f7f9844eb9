-- ===== src/Vmtest/Ends.antt =====
-- What `hwt_read` ends with, and that it does end: no order of steps blocks both sides.
use reconos_v.Base.{
  ℕ, zero, suc, ◌+◌, ◌*◌, ◌/◌, ◌%◌, ◌^◌, ◌≤◌, ◌<◌, ◌⊎◌, Option, some, List, [], ◌∷◌, ◌++◌,
}
use reconos_v.Base.{
  ◌≡◌, refl, ◌∙◌, ap, length, arith, inl, inr, true, false, if◌then◌else◌, ◌==◌, get_or,
}
use reconos_v.Mbox.Holds.{Holds, put-Holds, get-Holds}
use reconos_v.Vmtest.{
  Place, request, address, done, word, State, get_request, get_addr, mbox_put_word, mbox_get_word,
  Vm, read_step, thread_step, Side, software, hardware, step, run,
}
use reconos_v.Vmtest.Phases.{
  words, Phase, before, asked, heard, sent, told, reads, served, over, Inv,
}
use reconos_v.Vmtest.Reads.{run-Inv}
use mathlib.Core.Path.{subst}

-- Before the request: the boxes are empty and the thread waits.
pub record Ready (s : Vm) : Type 0 where
  pub first : s.place ≡ request
  pub waits : s.state ≡ get_request
  pub nothing : s.dst ≡ []
  pub to_thread : Holds 3 [] s.sw2hw
  pub to_software : Holds 3 [] s.hw2sw

Ready-Inv : (vaddr n : ℕ) {s : Vm} → Ready s → Inv vaddr n s.memory 0 s
Ready-Inv vaddr n i = record {
  requests = [];
  answers = [];
  phase = rw (i.first, i.waits, i.nothing) before;
  to_thread = i.to_thread;
  to_software = i.to_software;
  kept = refl;
}

-- The software is behind its last word: what that says of the rest
Ended :
    (vaddr n made : ℕ) (memory : List ℕ) → Place → State → (requests answers got : List ℕ) → Type 0
Ended vaddr n made memory p u q r got =
    (made ≡ 5 + n + n)
    × (u ≡ get_request)
    × (q ≡ [])
    × (r ≡ [])
    × (got ≡ words memory (vaddr / 4) n)

Phase-done :
    {vaddr n made : ℕ} {memory : List ℕ} {p : Place} {u : State} {q r got : List ℕ}
    → Phase vaddr n memory made p u q r got
    → p ≡ done
    → Ended vaddr n made memory p u q r got
unfolding Ended
Phase-done before e = cc
Phase-done asked e = cc
Phase-done heard e = cc
Phase-done sent e = cc
Phase-done told e = cc
Phase-done (reads i count left h) e = cc
Phase-done (served i count h) e = cc
Phase-done over e = (refl, refl, refl, refl, refl)

Phase-le :
    {vaddr n made : ℕ} {memory : List ℕ} {p : Place} {u : State} {q r got : List ℕ}
    → Phase vaddr n memory made p u q r got
    → made ≤ 2 * n + 5
Phase-le before = omega arith
Phase-le asked = omega arith
Phase-le heard = omega arith
Phase-le sent = omega arith
Phase-le told = omega arith
Phase-le (reads i count left h) = omega arith
Phase-le (served i count h) = omega arith
Phase-le over = omega arith

-- One of the two sides can make a step.
abbrev pub Moves : (call : Place → Vm → Option Vm) → Vm → Type 0
Moves call s = (side : Side) × (next : Vm) × (step call side s ≡ some next)

pub differs : (i k : ℕ) → i < k → (i == k) ≡ false
differs i k h = ground arith

module _ (call : Place → Vm → Option Vm) (s : Vm) where
  pub request-read :
      {x : ℕ} {q : List ℕ} → s.state ≡ get_request → Holds 3 (x ∷ q) s.sw2hw → Moves call s
  unfolding step thread_step
  request-read {x} e h =
      let (mb, got, holds) = get-Holds h in
      (hardware, record s { sw2hw = mb; state = get_addr x }, rw (e, got) refl)

  pub addr-read :
      (req : ℕ) {x : ℕ} {q : List ℕ}
      → s.state ≡ get_addr req
      → Holds 3 (x ∷ q) s.sw2hw
      → Moves call s
  unfolding step thread_step
  addr-read req {x} e h =
      let (mb, got, holds) = get-Holds h in
      let reads_next = record s {
        sw2hw = mb;
        state = mbox_put_word (x / 4) 0 (req / 4 % 2 ^ 22);
      } in
      let writes_next = record s {
        sw2hw = mb;
        state = mbox_get_word (x / 4) 0 (req / 4 % 2 ^ 22);
      } in
      (hardware, if req / 2 ^ 24 == 0 then reads_next else writes_next, rw (e, got) refl)

module _ (vaddr n : ℕ) (s : Vm) where
  -- The software can put while there is room for two messages, and take a word that is there.
  request-Moves : s.place ≡ request → Holds 3 [] s.sw2hw → Moves (read_step vaddr n) s
  unfolding step read_step
  request-Moves e h =
      let (mb, put, holds) = put-Holds (n * 4 % 2 ^ 32) h (omega arith) in
      (software, record s { sw2hw = mb; place = address }, rw (e, put) refl)

  address-Moves :
      {q : List ℕ}
      → s.place ≡ address
      → Holds 3 q s.sw2hw
      → length q < 3
      → Moves (read_step vaddr n) s
  unfolding step read_step
  address-Moves e h room =
      let (mb, put, holds) = put-Holds vaddr h room in
      (software, record s { sw2hw = mb; place = word 0 }, rw (e, put) refl)

  word-Moves :
      (i x : ℕ) {r : List ℕ}
      → s.place ≡ word i
      → (i == n) ≡ false
      → Holds 3 (x ∷ r) s.hw2sw
      → Moves (read_step vaddr n) s
  unfolding step read_step
  word-Moves i x e more h =
      let (mb, got, holds) = get-Holds h in
      (
        software,
        record s { hw2sw = mb; dst = s.dst ++ (x ∷ []); place = word (i + 1) },
        rw (e, more, got) refl,
      )

  last-Moves : s.place ≡ word n → Moves (read_step vaddr n) s
  unfolding step read_step
  last-Moves e = (software, record s { place = done }, rw (e, same n) refl)
    where
      same : (k : ℕ) → (k == k) ≡ true
      same k = ground arith

  put-Moves :
      (addr k left : ℕ)
      → s.state ≡ mbox_put_word addr k (suc left)
      → Holds 3 [] s.hw2sw
      → Moves (read_step vaddr n) s
  unfolding step thread_step
  put-Moves addr k left e h =
      let x = get_or s.memory (addr + k) 0 in
      let (mb, put, holds) = put-Holds x h (omega arith) in
      (
        hardware,
        record s {
          hw2sw = mb;
          state = if left == 0 then get_request else mbox_put_word addr (k + 1) left;
        },
        rw (e, put) refl,
      )

  Phase-Moves :
      {made : ℕ} {memory : List ℕ} {p : Place} {u : State} {q r got : List ℕ}
      → Phase vaddr n memory made p u q r got
      → 0 < n
      → Holds 3 q s.sw2hw
      → Holds 3 r s.hw2sw
      → s.place ≡ p
      → s.state ≡ u
      → (s.place ≡ done) ⊎ Moves (read_step vaddr n) s
  Phase-Moves before pos hs hr ep eu = inr (request-Moves ep hs)
  Phase-Moves asked pos hs hr ep eu = inr (address-Moves ep hs (omega arith))
  Phase-Moves heard pos hs hr ep eu = inr (address-Moves ep hs (omega arith))
  Phase-Moves sent pos hs hr ep eu = inr (request-read (read_step vaddr n) s eu hs)
  Phase-Moves told pos hs hr ep eu = inr (addr-read (read_step vaddr n) s (n * 4 % 2 ^ 32) eu hs)
  Phase-Moves (reads i zero left e) pos hs hr ep eu = inr (put-Moves (vaddr / 4) (i + 0) left eu hr)
  Phase-Moves {memory = memory} (reads i (suc count) left e) pos hs hr ep eu =
      inr (word-Moves i (get_or memory (vaddr / 4 + i) 0) ep (differs i n (omega arith)) hr)
  Phase-Moves (served i zero e) pos hs hr ep eu = inr (last-Moves (ep ∙ ap word (omega arith)))
  Phase-Moves {memory = memory} (served i (suc count) e) pos hs hr ep eu =
      inr (word-Moves i (get_or memory (vaddr / 4 + i) 0) ep (differs i n (omega arith)) hr)
  Phase-Moves over pos hs hr ep eu = inl ep

  Inv-Moves :
      {made : ℕ} {memory : List ℕ}
      → Inv vaddr n memory made s
      → 0 < n
      → (s.place ≡ done) ⊎ Moves (read_step vaddr n) s
  Inv-Moves v pos = Phase-Moves v.phase pos v.to_thread v.to_software refl refl

module _ (vaddr : ℕ) {n : ℕ} (some_word : 0 < n) (fits : n < 2 ^ 22) {s s' : Vm} (i : Ready s) where
  -- For at least one word and fewer than 2^22, from empty boxes for three messages and a thread that
  -- waits for a request: in whatever order the software and the thread make their steps, when `hwt_read`
  -- is through, `dst` has the `n` words of the memory from the address on, the memory is as it was, and
  -- the two sides are ready for the next call.
  pub hwt_read_lem :
      (sides : List Side)
      → run (read_step vaddr n) sides s ≡ some s'
      → s'.place ≡ done
      → (s'.dst ≡ words s.memory (vaddr / 4) n)
        × (s'.memory ≡ s.memory)
        × (s'.state ≡ get_request)
        × Holds 3 [] s'.sw2hw
        × Holds 3 [] s'.hw2sw
  unfolding Ended
  hwt_read_lem sides ran e =
      let v = run-Inv vaddr n s.memory some_word fits sides 0 (Ready-Inv vaddr n i) ran in
      let (made, waits, q, r, words_read) = Phase-done v.phase e in
      (
        words_read,
        v.kept,
        waits,
        subst (λ l. Holds 3 l s'.sw2hw) q v.to_thread,
        subst (λ l. Holds 3 l s'.hw2sw) r v.to_software,
      )

  -- From such a start every run of `hwt_read` has at most 2 * n + 5 steps, and where the software is not
  -- through, one of the two sides can make a step, though a box has room for three messages only.
  pub hwt_read-ends :
      (sides : List Side)
      → run (read_step vaddr n) sides s ≡ some s'
      → (length sides ≤ 2 * n + 5) × ((s'.place ≡ done) ⊎ Moves (read_step vaddr n) s')
  hwt_read-ends sides ran =
      let v = run-Inv vaddr n s.memory some_word fits sides 0 (Ready-Inv vaddr n i) ran in
      (omega (arith, Phase-le v.phase), Inv-Moves vaddr n s' v some_word)
