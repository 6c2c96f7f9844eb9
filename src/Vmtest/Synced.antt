-- ===== src/Vmtest/Synced.antt =====
-- What `hwt_write` ends with, and that it does end: no order of steps blocks both sides.
use reconos_v.Base.{ℕ, zero, suc, ◌+◌, ◌*◌, ◌/◌, ◌^◌, ◌≤◌, ◌<◌, ◌⊎◌, some, List, [], ◌∷◌}
use reconos_v.Base.{
  ◌≡◌, refl, ◌∙◌, sym, ap, length, arith, inl, inr, true, false, if◌then◌else◌, ◌==◌, get_or, set,
}
use reconos_v.Base.{get_or-set_self, get_or-set_ne, length-set}
use reconos_v.Mbox.Holds.{Holds, put-Holds, get-Holds}
use reconos_v.Vmtest.{
  Place, request, address, done, word, State, get_request, mbox_get_word, ack, Vm, write_step,
  thread_step, Side, software, hardware, step, run,
}
use reconos_v.Vmtest.Ends.{Ready, Moves, addr-read, request-read, differs}
use reconos_v.Vmtest.Written.{
  written, write_request, Phase, before, asked, heard, sent, told, writes, acks, acked, over, Inv,
}
use reconos_v.Vmtest.Stores.{run-Inv}
use mathlib.Core.Path.{subst}

Ready-Inv : (src : List ℕ) (vaddr n : ℕ) {s : Vm} → Ready s → Inv src vaddr n s.memory 0 s
Ready-Inv src vaddr n i = record {
  requests = [];
  answers = [];
  phase = rw (i.first, i.waits) before;
  to_thread = i.to_thread;
  to_software = i.to_software;
}

-- The software is behind the answer: what that says of the rest
Ended :
    (src : List ℕ) (vaddr n : ℕ) (memory : List ℕ)
    → State
    → (requests answers now : List ℕ) → Type 0
Ended src vaddr n memory u q r now =
    (u ≡ get_request) × (q ≡ []) × (r ≡ []) × (now ≡ written memory (vaddr / 4) src n)

Phase-done :
    {src : List ℕ} {vaddr n made : ℕ} {memory : List ℕ} {p : Place} {u : State} {q r now : List ℕ}
    → Phase src vaddr n memory made p u q r now
    → p ≡ done
    → Ended src vaddr n memory u q r now
unfolding Ended
Phase-done before e = cc
Phase-done asked e = cc
Phase-done heard e = cc
Phase-done (sent i le) e = cc
Phase-done (told i le) e = cc
Phase-done (writes k count left h le) e = cc
Phase-done acks e = cc
Phase-done acked e = cc
Phase-done over e = (refl, refl, refl, refl)

Phase-le :
    {src : List ℕ} {vaddr n made : ℕ} {memory : List ℕ} {p : Place} {u : State} {q r now : List ℕ}
    → Phase src vaddr n memory made p u q r now
    → made ≤ 2 * n + 6
Phase-le before = omega arith
Phase-le asked = omega arith
Phase-le heard = omega arith
Phase-le (sent i le) = omega arith
Phase-le (told i le) = omega arith
Phase-le (writes k count left h le) = omega arith
Phase-le acks = omega arith
Phase-le acked = omega arith
Phase-le over = omega arith

module _ (src : List ℕ) (vaddr n : ℕ) (s : Vm) where
  request-Moves : s.place ≡ request → Holds 3 [] s.sw2hw → Moves (write_step src vaddr n) s
  unfolding step write_step
  request-Moves e h =
      let (mb, put, holds) = put-Holds (write_request n) h (omega arith) in
      (software, record s { sw2hw = mb; place = address }, rw (e, put) refl)

  address-Moves :
      {q : List ℕ}
      → s.place ≡ address
      → Holds 3 q s.sw2hw
      → length q < 3
      → Moves (write_step src vaddr n) s
  unfolding step write_step
  address-Moves e h room =
      let (mb, put, holds) = put-Holds vaddr h room in
      (software, record s { sw2hw = mb; place = word 0 }, rw (e, put) refl)

  word-Moves :
      (i : ℕ)
      → s.place ≡ word i
      → (i == n) ≡ false
      → Holds 3 [] s.sw2hw
      → Moves (write_step src vaddr n) s
  unfolding step write_step
  word-Moves i e more h =
      let (mb, put, holds) = put-Holds (get_or src i 0) h (omega arith) in
      (software, record s { sw2hw = mb; place = word (i + 1) }, rw (e, more, put) refl)

  sync-Moves :
      {x : ℕ} → s.place ≡ word n → Holds 3 (x ∷ []) s.hw2sw → Moves (write_step src vaddr n) s
  unfolding step write_step
  sync-Moves e h =
      let (mb, got, holds) = get-Holds h in
      (software, record s { hw2sw = mb; place = done }, rw (e, same n, got) refl)
    where
      same : (k : ℕ) → (k == k) ≡ true
      same k = ground arith

  store-Moves :
      (addr k left x : ℕ) {q : List ℕ}
      → s.state ≡ mbox_get_word addr k (suc left)
      → Holds 3 (x ∷ q) s.sw2hw
      → Moves (write_step src vaddr n) s
  unfolding step thread_step
  store-Moves addr k left x e h =
      let (mb, got, holds) = get-Holds h in
      (
        hardware,
        record s {
          sw2hw = mb;
          memory = set s.memory (addr + k) x;
          state = if left == 0 then ack addr else mbox_get_word addr (k + 1) left;
        },
        rw (e, got) refl,
      )

  ack-Moves :
      (addr : ℕ) → s.state ≡ ack addr → Holds 3 [] s.hw2sw → Moves (write_step src vaddr n) s
  unfolding step thread_step
  ack-Moves addr e h =
      let (mb, put, holds) = put-Holds (addr * 4) h (omega arith) in
      (hardware, record s { hw2sw = mb; state = get_request }, rw (e, put) refl)

  Phase-Moves :
      {made : ℕ} {memory : List ℕ} {p : Place} {u : State} {q r now : List ℕ}
      → Phase src vaddr n memory made p u q r now
      → Holds 3 q s.sw2hw
      → Holds 3 r s.hw2sw
      → s.place ≡ p
      → s.state ≡ u
      → (s.place ≡ done) ⊎ Moves (write_step src vaddr n) s
  Phase-Moves before hs hr ep eu = inr (request-Moves ep hs)
  Phase-Moves asked hs hr ep eu = inr (address-Moves ep hs (omega arith))
  Phase-Moves heard hs hr ep eu = inr (address-Moves ep hs (omega arith))
  Phase-Moves (sent i le) hs hr ep eu = inr (request-read (write_step src vaddr n) s eu hs)
  Phase-Moves (told i le) hs hr ep eu =
      inr (addr-read (write_step src vaddr n) s (write_request n) eu hs)
  Phase-Moves (writes k zero left h le) hs hr ep eu =
      inr (word-Moves (k + 0) ep (differs (k + 0) n (omega arith)) hs)
  Phase-Moves (writes k (suc count) left h le) hs hr ep eu =
      inr (store-Moves (vaddr / 4) k left (get_or src k 0) eu hs)
  Phase-Moves acks hs hr ep eu = inr (ack-Moves (vaddr / 4) eu hr)
  Phase-Moves acked hs hr ep eu = inr (sync-Moves ep hr)
  Phase-Moves over hs hr ep eu = inl ep

length-written :
    (memory : List ℕ) (from : ℕ) (src : List ℕ) (count : ℕ)
    → length (written memory from src count) ≡ length memory
length-written memory from src zero = refl
length-written memory from src (suc count) =
    length-set (written memory from src count) (from + count) (get_or src count 0)
    ∙ length-written memory from src count

get_or-written :
    (memory : List ℕ) (from : ℕ) (src : List ℕ) (count k : ℕ)
    → k < count
    → from + count ≤ length memory
    → get_or (written memory from src count) (from + k) 0 ≡ get_or src k 0
get_or-written memory from src zero k h fits = absurd (omega arith)
get_or-written memory from src (suc count) k h fits = elim (cases k count h) [
  | inl e ↦
      ap (λ j. get_or (written memory from src (suc count)) (from + j) 0) e
      ∙ get_or-set_self (written memory from src count) (from + count) (get_or src count 0) 0
          (omega (arith, length-written memory from src count))
      ∙ ap (λ j. get_or src j 0) (sym e)
  | inr lt ↦
      get_or-set_ne (written memory from src count) {i = from + count} {j = from + k}
        (get_or src count 0) 0 (λ e. omega (arith, e, lt))
      ∙ get_or-written memory from src count k lt (omega arith)
]
  where
    cases : (k count : ℕ) → k < suc count → (k ≡ count) ⊎ (k < count)
    cases k count h = ground arith

get_or-unwritten :
    (memory : List ℕ) (from : ℕ) (src : List ℕ) (count i : ℕ)
    → (i < from) ⊎ (from + count ≤ i)
    → get_or (written memory from src count) i 0 ≡ get_or memory i 0
get_or-unwritten memory from src zero i h = refl
get_or-unwritten memory from src (suc count) i h =
    get_or-set_ne (written memory from src count) {i = from + count} {j = i} (get_or src count 0) 0
      (apart h)
    ∙ get_or-unwritten memory from src count i (smaller h)
  where
    apart : (i < from) ⊎ (from + suc count ≤ i) → from + count ≡ i → ⊥
    apart (inl lt) e = omega arith
    apart (inr le) e = omega arith

    smaller : (i < from) ⊎ (from + suc count ≤ i) → (i < from) ⊎ (from + count ≤ i)
    smaller (inl lt) = inl lt
    smaller (inr le) = inr (omega arith)

module _ (vaddr : ℕ) {n : ℕ} (src : List ℕ) (some_word : 0 < n) (fits : n < 2 ^ 22) {s s' : Vm}
    (i : Ready s) where
  -- For at least one word and fewer than 2^22, in a memory with room for them, from empty boxes for three
  -- messages and a thread that waits for a request: in whatever order the software and the thread make
  -- their steps, when `hwt_write` is through, the memory has the first `n` words of `src` from the
  -- address on and is as it was outside, and the two sides are ready for the next call.
  pub hwt_write_lem :
      (sides : List Side) (k outer : ℕ)
      → run (write_step src vaddr n) sides s ≡ some s'
      → s'.place ≡ done
      → vaddr / 4 + n ≤ length s.memory
      → k < n
      → (outer < vaddr / 4) ⊎ (vaddr / 4 + n ≤ outer)
      → (get_or s'.memory (vaddr / 4 + k) 0 ≡ get_or src k 0)
        × (get_or s'.memory outer 0 ≡ get_or s.memory outer 0)
        × (length s'.memory ≡ length s.memory)
        × (s'.state ≡ get_request)
        × Holds 3 [] s'.sw2hw
        × Holds 3 [] s'.hw2sw
  unfolding Ended
  hwt_write_lem sides k outer ran e room lt out =
      let v = run-Inv src vaddr n s.memory some_word fits sides 0 (Ready-Inv src vaddr n i) ran in
      let (waits, q, r, now) = Phase-done v.phase e in
      (
        ap (λ m. get_or m (vaddr / 4 + k) 0) now
            ∙ get_or-written s.memory (vaddr / 4) src n k lt room,
        ap (λ m. get_or m outer 0) now ∙ get_or-unwritten s.memory (vaddr / 4) src n outer out,
        ap length now ∙ length-written s.memory (vaddr / 4) src n,
        waits,
        subst (λ l. Holds 3 l s'.sw2hw) q v.to_thread,
        subst (λ l. Holds 3 l s'.hw2sw) r v.to_software,
      )

  -- From such a start every run of `hwt_write` has at most 2 * n + 6 steps, and where the software is not
  -- through, one of the two sides can make a step.
  pub hwt_write-ends :
      (sides : List Side)
      → run (write_step src vaddr n) sides s ≡ some s'
      → (length sides ≤ 2 * n + 6) × ((s'.place ≡ done) ⊎ Moves (write_step src vaddr n) s')
  hwt_write-ends sides ran =
      let v = run-Inv src vaddr n s.memory some_word fits sides 0 (Ready-Inv src vaddr n i) ran in
      (
        omega (arith, Phase-le v.phase),
        Phase-Moves src vaddr n s' v.phase v.to_thread v.to_software refl refl,
      )
