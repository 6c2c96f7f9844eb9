-- ===== src/Sort/Threads/Moves.antt =====
-- While `main` and the threads have not ended, one of them can make a step.
use reconos_v.Base.{ℕ, zero, suc, ◌+◌, ◌≤◌, ◌<◌, ◌⊎◌, some, List, [], ◌∷◌, ◌++◌}
use reconos_v.Base.{
  ◌≡◌, refl, ap, length, arith, inl, inr, replicate, length-replicate, length-append, get_elem?,
  take, drop,
}
use reconos_v.Base.{false, Bool-cases, ◌==◌, ==_iff, if◌then◌else◌}
use reconos_v.Mbox.Holds.{Holds, put-Holds, get-Holds}
use reconos_v.Sort.Demo.{uint_max}
use reconos_v.Sort.Merge.Blocks.{join}
use reconos_v.Sort.Threads.{
  Main, putting, awaiting, ending, System, take_job, sort_job, answer_job, main_step, put_job,
  await_answer, put_exit, Actor, main, takes, replies, sorts, step,
}
use reconos_v.Sort.Threads.Tracks.{Tracks-le, Tracks-count}
use reconos_v.Sort.Threads.Invariant.{addresses, answers, address_of, addresses_of, Placed, Inv}
use reconos_v.Sort.Threads.Steps.{work, put-le}
use mathlib.Core.Path.{subst}

abbrev pub CanStep : (blocks threads : ℕ) → System → Type 0
CanStep blocks threads s = (a : Actor) × (next : System) × (step blocks threads a s ≡ some next)

-- `main` has sent its last exit command, and every thread has followed one.
abbrev pub IsDone : (threads : ℕ) → System → Type 0
IsDone threads s = (s.place ≡ ending threads) × (s.ended ≡ threads)

nonempty : (l : List ℕ) → 0 < length l → (x : ℕ) × (rest : List ℕ) × (l ≡ x ∷ rest)
nonempty [] h = absurd (omega (arith, h))
nonempty (x ∷ rest) h = (x, rest, refl)

length-addresses : (address left i : ℕ) → length (addresses address left i) ≡ left
length-addresses address zero i = refl
length-addresses address (suc left) i = ap suc (length-addresses address left (i + 1))

length-addresses_of :
    (address : ℕ) (held : List ℕ) → length (addresses_of address held) ≡ length held
length-addresses_of address [] = refl
length-addresses_of address (i ∷ held) = ap suc (length-addresses_of address held)

zero_or : (n : ℕ) → (n ≡ 0) ⊎ (0 < n)
zero_or zero = inl refl
zero_or (suc n) = inr (omega arith)

under : (a b : ℕ) → a ≤ b → (a == b) ≡ false → a < b
under a b le h = ground arith

pub reached-le :
    (threads blocks : ℕ) (p : Main) (put got sent turns : ℕ)
    → Placed blocks threads p put got sent turns
    → (put ≤ blocks) × (sent ≤ threads) × (turns ≤ 2)
reached-le threads blocks (putting i) put got sent turns at =
    (omega (arith, at.0, at.1), omega (arith, at.3), omega (arith, at.4))
reached-le threads blocks (awaiting k) put got sent turns at =
    (omega (arith, at.0), omega (arith, at.3), omega (arith, at.4))
reached-le threads blocks (ending e) put got sent turns at =
    (omega (arith, at.0), omega (arith, at.2, at.3), omega (arith, at.4))

-- `main` sends exit commands when it has had all its answers.
sent-late :
    (threads blocks : ℕ) (p : Main) (put got sent turns : ℕ)
    → Placed blocks threads p put got sent turns
    → 0 < sent
    → (put ≡ blocks) × (got ≡ blocks)
sent-late threads blocks (putting i) put got sent turns at h = absurd (omega (arith, at.3))
sent-late threads blocks (awaiting k) put got sent turns at h = absurd (omega (arith, at.3))
sent-late threads blocks (ending e) put got sent turns at h = (at.0, at.1)

pred_of : (n : ℕ) → 0 < n → (m : ℕ) × (n ≡ suc m)
pred_of zero h = absurd (omega (arith, h))
pred_of (suc n) h = (n, refl)

module _ {threads : ℕ} {old : List (List ℕ)} {made : ℕ} {s : System}
    (v : Inv threads old made s) where
  abbrev queue : List ℕ
  queue = addresses s.address v.queued v.taken ++ replicate v.exits uint_max

  length-queue : length queue ≡ v.queued + v.exits
  length-queue = omega (
    arith,
    length-append (addresses s.address v.queued v.taken) (replicate v.exits uint_max),
    length-addresses s.address v.queued v.taken,
    length-replicate v.exits uint_max,
  )

  sorts-moves : 0 < length v.held → CanStep (length old) threads s
  unfolding step sort_job
  sorts-moves h =
      let (ret, rest, e) =
        nonempty s.sorting
          (omega (arith, ap length v.sorting, length-addresses_of s.address v.held)) in
      let found : get_elem? s.sorting 0 ≡ some ret = ap (λ l. get_elem? l 0) e in
      let (p, r, y, result, long, ascending, same) = work v 0 ret found in
      let next = record s {
        buffer = join (r.left ++ (y ∷ r.right));
        sorting = take 0 s.sorting ++ drop 1 s.sorting;
        answering = s.answering + 1;
      } in
      (sorts 0, next, rw (found, result) refl)

  replies-moves : 0 < s.answering → CanStep (length old) threads s
  unfolding step answer_job
  replies-moves h =
      let (n, e) = pred_of s.answering h in
      let room : length (answers v.unread) < length old =
        omega (arith, length-replicate {A = ℕ} v.unread 23, v.answered, Tracks-le v.tracks) in
      let (stop, put, holds) = put-Holds 23 v.stops room in
      (
        replies,
        record s { mb_stop = stop; waiting = s.waiting + 1; answering = n },
        rw (e, put) refl,
      )

  takes-moves : 0 < s.waiting → 0 < v.queued + v.exits → CanStep (length old) threads s
  unfolding step take_job
  takes-moves h some_job =
      let (n, e) = pred_of s.waiting h in
      let (ret, rest, q) = nonempty queue (omega (arith, length-queue)) in
      let (start, got, holds) =
        get-Holds (subst (λ l. Holds (length old) l s.mb_start) q v.starts) in
      let ends = record s { mb_start = start; waiting = n; ended = s.ended + 1 } in
      let goes_on = record s { mb_start = start; waiting = n; sorting = s.sorting ++ (ret ∷ []) } in
      (takes, if ret == uint_max then ends else goes_on, rw (e, got) refl)

  -- `main` can step when all the threads wait for it.
  main-moves :
      (p : Main)
      → Placed (length old) threads p v.put v.got v.sent v.turns
      → 0 < length old
      → v.queued + v.exits < length old
      → ((k : ℕ) → p ≡ awaiting k → k < length old → 0 < v.unread)
      → (p ≡ ending threads) ⊎ ((next : System) × (main_step (length old) threads p s ≡ some next))
  unfolding main_step put_job await_answer put_exit
  main-moves (putting i) at some_block room waits = elim (Bool-cases (i == length old)) [
    | inl e ↦ inr (record s { place = awaiting 0 }, rw e refl)
    | inr e ↦
        let (start, put, holds) =
          put-Holds (address_of s.address i) v.starts (omega (arith, room, length-queue)) in
        inr (record s { mb_start = start; place = putting (i + 1) }, rw (e, put) refl)
  ]
  main-moves (awaiting k) at some_block room waits = elim (Bool-cases (k == length old)) [
    | inl e ↦ inr (record s { place = ending 0 }, rw e refl)
    | inr e ↦
        let (ret, rest, q) = nonempty (answers v.unread) (
          omega (
            arith,
            waits k refl (under k (length old) at.2 e),
            length-replicate {A = ℕ} v.unread 23,
          )) in
        let (stop, got, holds) =
          get-Holds (subst (λ l. Holds (length old) l s.mb_stop) q v.stops) in
        inr (record s { mb_stop = stop; place = awaiting (k + 1) }, rw (e, got) refl)
  ]
  main-moves (ending n) at some_block room waits = elim (Bool-cases (n == threads)) [
    | inl e ↦ inl (ap ending ((==_iff n threads).0 e))
    | inr e ↦
        let (start, put, holds) = put-Holds uint_max v.starts (omega (arith, room, length-queue)) in
        inr (record s { mb_start = start; place = ending (n + 1) }, rw (e, put) refl)
  ]

  -- No thread waits, or there is nothing for it in the box.
  abbrev Idle : Type 0
  Idle = (s.waiting ≡ 0) ⊎ (v.queued + v.exits ≡ 0)

  counted : v.sorted + length v.held ≡ v.taken
  counted = omega (
    arith,
    v.jobs,
    put-le v s.place v.placed,
    Tracks-count v.tracks (omega arith) (omega (arith, v.jobs, put-le v s.place v.placed)),
  )

  module _ (some_thread : 0 < threads) (some_block : 0 < length old) (none_held : length v.held ≡ 0)
      (none_answers : s.answering ≡ 0) where
    room : Idle → v.queued + v.exits < length old
    room (inl e) =
        let (puts, sends, turned) =
          reached-le threads (length old) s.place v.put v.got v.sent v.turns v.placed in
        let (all_put, all_got) =
          sent-late threads (length old) s.place v.put v.got v.sent v.turns v.placed
            (omega (arith, v.crew, v.commands)) in
        omega (arith, v.crew, v.commands, v.jobs, v.answered, counted)
    room (inr e) = omega (arith, e)

    waits : Idle → (k : ℕ) → s.place ≡ awaiting k → k < length old → 0 < v.unread
    waits idle k at lt =
        let here =
          subst (λ p. Placed (length old) threads p v.put v.got v.sent v.turns) at v.placed in
        left idle here
      where
        left :
            Idle
            → Placed (length old) threads (awaiting k) v.put v.got v.sent v.turns
            → 0 < v.unread
        left (inl e) here = absurd (omega (arith, here.3, v.crew, v.commands))
        left (inr e) here = omega (arith, here.0, here.1, v.jobs, v.answered, counted)

    all_ended : s.place ≡ ending threads → Idle → s.ended ≡ threads
    all_ended at (inl e) = omega (arith, v.crew)
    all_ended at (inr e) =
        let here =
          subst (λ p. Placed (length old) threads p v.put v.got v.sent v.turns) at v.placed in
        omega (arith, here.2, v.commands)

    -- `main` is done or can step when all the threads wait for it.
    quiet : Idle → IsDone threads s ⊎ CanStep (length old) threads s
    unfolding step
    quiet idle = elim (main-moves s.place v.placed some_block (room idle) (waits idle)) [
      | inl e ↦ inl (e, all_ended e idle)
      | inr (next, moves) ↦ inr (main, next, moves)
    ]

  pub Inv-goes_on : 0 < threads → 0 < length old → IsDone threads s ⊎ CanStep (length old) threads s
  Inv-goes_on some_thread some_block = elim (zero_or (length v.held)) [
    | inr h ↦ inr (sorts-moves h)
    | inl none_held ↦ elim (zero_or s.answering) [
      | inr h ↦ inr (replies-moves h)
      | inl none_answers ↦ elim (zero_or s.waiting) [
        | inl e ↦ quiet some_thread some_block none_held none_answers (inl e)
        | inr h ↦ elim (zero_or (v.queued + v.exits)) [
          | inl e ↦ quiet some_thread some_block none_held none_answers (inr e)
          | inr some_job ↦ inr (takes-moves h some_job)
        ]
      ]
    ]
  ]
