-- ===== src/Sort/Threads/Mains.antt =====
-- The steps of `main`: a put of a block, a wait, an exit command, and the turns to the next loop.
use reconos_v.Base.{ℕ, zero, suc, ◌+◌, ◌≤◌, some, List, [], ◌∷◌, ◌++◌}
use reconos_v.Base.{◌≡◌, refl, ◌∙◌, sym, ap, length, arith, replicate, append_assoc, append-nil}
use reconos_v.Base.{false, ◌==◌, ==_iff, if-cases, drop, inl, inr}
use reconos_v.Base.Maybe.{>>=-eq-some}
use reconos_v.Mbox.{Mbox, mbox_put, mbox_get}
use reconos_v.Mbox.Holds.{Holds, put-inv, get-inv}
use reconos_v.Sort.Demo.{uint_max}
use reconos_v.Sort.Threads.{
  Main, putting, awaiting, ending, System, main_step, put_job, await_answer, put_exit,
}
use reconos_v.Sort.Threads.Invariant.{
  addresses, answers, address_of, Placed, Inv, addresses-snoc, replicate-snoc,
}
use mathlib.Core.Path.{subst}
use mathlib.Core.Option.{some-injective}

below : (a b : ℕ) → a ≤ b → (a == b) ≡ false → a + 1 ≤ b
below a b le h = ground arith

one_less :
    (n x : ℕ) (rest : List ℕ) → answers n ≡ x ∷ rest → (m : ℕ) × (n ≡ m + 1) × (rest ≡ answers m)
one_less zero x rest e = absurd (omega (arith, ap length e))
one_less (suc n) x rest e = (n, omega arith, sym (ap (drop 1) e))

-- The next block joins the queue.
next_block :
    (address queued taken exits i : ℕ)
    → exits ≡ 0
    → taken + queued ≡ i
    → (addresses address queued taken ++ replicate exits uint_max) ++ (address_of address i ∷ [])
      ≡ addresses address (suc queued) taken ++ replicate exits uint_max
next_block address queued taken (suc exits) i e j = absurd (omega arith)
next_block address queued taken zero i e j =
    ap (λ l. l ++ (address_of address i ∷ [])) (append-nil (addresses address queued taken))
    ∙ ap (λ n. addresses address queued taken ++ (address_of address n ∷ [])) (sym j)
    ∙ addresses-snoc address queued taken
    ∙ sym (append-nil (addresses address (suc queued) taken))

module _ {threads : ℕ} {old : List (List ℕ)} {made : ℕ} {s : System}
    (v : Inv threads old made s) where
  abbrev At : Main → Type 0
  At p = Placed (length old) threads p v.put v.got v.sent v.turns

  put-Inv :
      (i : ℕ) (start : Mbox)
      → At (putting i)
      → (i == length old) ≡ false
      → mbox_put s.mb_start (address_of s.address i) ≡ some start
      → Inv threads old (made + 1) (record s { mb_start = start; place = putting (i + 1) })
  put-Inv i start (pi, le, g0, s0, t0) more put =
      let lt : i + 1 ≤ length old = below i (length old) le more in
      let none_sent : v.exits ≡ 0 = omega (arith, v.commands) in
      let (room, holds) = put-inv (address_of s.address i) v.starts put in
      let after = next_block s.address v.queued v.taken v.exits i none_sent (v.jobs ∙ pi) in
      record {
        put = i + 1;
        got = v.got;
        sent = v.sent;
        turns = v.turns;
        placed = (refl, omega arith, g0, s0, t0);
        taken = v.taken;
        queued = suc v.queued;
        exits = v.exits;
        jobs = omega (arith, v.jobs);
        commands = v.commands;
        starts = subst (λ q. Holds (length old) q start) after holds;
        held = v.held;
        new = v.new;
        sorted = v.sorted;
        tracks = v.tracks;
        buffer = v.buffer;
        sorting = v.sorting;
        unread = v.unread;
        stops = v.stops;
        answered = v.answered;
        crew = v.crew;
        mapped = v.mapped;
        progress = omega (arith, v.progress);
      }

  wait-Inv :
      (k ret : ℕ) (stop : Mbox)
      → At (awaiting k)
      → (k == length old) ≡ false
      → mbox_get s.mb_stop ≡ some (ret, stop)
      → Inv threads old (made + 1) (record s { mb_stop = stop; place = awaiting (k + 1) })
  wait-Inv k ret stop (pb, gk, le, s0, t1) more got =
      let (rest, waits, holds) = get-inv ret v.stops got in
      let (u, one, same) = one_less v.unread ret rest waits in
      record {
        put = v.put;
        got = k + 1;
        sent = v.sent;
        turns = v.turns;
        placed = (pb, refl, below k (length old) le more, s0, t1);
        taken = v.taken;
        queued = v.queued;
        exits = v.exits;
        jobs = v.jobs;
        commands = v.commands;
        starts = v.starts;
        held = v.held;
        new = v.new;
        sorted = v.sorted;
        tracks = v.tracks;
        buffer = v.buffer;
        sorting = v.sorting;
        unread = u;
        stops = subst (λ q. Holds (length old) q stop) same holds;
        answered = omega (arith, v.answered);
        crew = v.crew;
        mapped = v.mapped;
        progress = omega (arith, v.progress);
      }

  exit-Inv :
      (e : ℕ) (start : Mbox)
      → At (ending e)
      → (e == threads) ≡ false
      → mbox_put s.mb_start uint_max ≡ some start
      → Inv threads old (made + 1) (record s { mb_start = start; place = ending (e + 1) })
  exit-Inv e start (pb, gb, se, le, t2) more put =
      let (room, holds) = put-inv uint_max v.starts put in
      record {
        put = v.put;
        got = v.got;
        sent = e + 1;
        turns = v.turns;
        placed = (pb, gb, refl, below e threads le more, t2);
        taken = v.taken;
        queued = v.queued;
        exits = suc v.exits;
        jobs = v.jobs;
        commands = omega (arith, v.commands);
        starts =
            subst (λ q. Holds (length old) q start)
              (append_assoc (addresses s.address v.queued v.taken) (replicate v.exits uint_max)
                  (uint_max ∷ [])
                ∙ ap (λ l. addresses s.address v.queued v.taken ++ l)
                    (replicate-snoc v.exits uint_max))
              holds;
        held = v.held;
        new = v.new;
        sorted = v.sorted;
        tracks = v.tracks;
        buffer = v.buffer;
        sorting = v.sorting;
        unread = v.unread;
        stops = v.stops;
        answered = v.answered;
        crew = v.crew;
        mapped = v.mapped;
        progress = omega (arith, v.progress);
      }

  -- From one loop to the next.
  turned-Inv :
      (p : Main) (turns : ℕ)
      → v.turns + 1 ≡ turns
      → Placed (length old) threads p v.put v.got v.sent turns
      → Inv threads old (made + 1) (record s { place = p })
  turned-Inv p turns e at = record {
    put = v.put;
    got = v.got;
    sent = v.sent;
    turns = turns;
    placed = at;
    taken = v.taken;
    queued = v.queued;
    exits = v.exits;
    jobs = v.jobs;
    commands = v.commands;
    starts = v.starts;
    held = v.held;
    new = v.new;
    sorted = v.sorted;
    tracks = v.tracks;
    buffer = v.buffer;
    sorting = v.sorting;
    unread = v.unread;
    stops = v.stops;
    answered = v.answered;
    crew = v.crew;
    mapped = v.mapped;
    progress = omega (arith, v.progress);
  }

  moved-Inv :
      (p : Main) {s' : System}
      → At p
      → main_step (length old) threads p s ≡ some s'
      → Inv threads old (made + 1) s'
  unfolding main_step put_job await_answer put_exit
  moved-Inv (putting i) (pi, le, g0, s0, t0) h = elim (if-cases (i == length old) h) [
    | inl (e, last) ↦ subst (Inv threads old (made + 1)) (some-injective _ _ last) (
        turned-Inv (awaiting 0) 1 (omega arith)
          (pi ∙ (==_iff i (length old)).0 e, g0, omega arith, s0, refl))
    | inr (e, next) ↦
        let (start, put, h2) = >>=-eq-some (mbox_put s.mb_start (address_of s.address i)) _ next in
        subst (Inv threads old (made + 1)) (some-injective _ _ h2)
          (put-Inv i start (pi, le, g0, s0, t0) e put)
  ]
  moved-Inv (awaiting k) (pb, gk, le, s0, t1) h = elim (if-cases (k == length old) h) [
    | inl (e, last) ↦ subst (Inv threads old (made + 1)) (some-injective _ _ last) (
        turned-Inv (ending 0) 2 (omega arith)
          (pb, gk ∙ (==_iff k (length old)).0 e, s0, omega arith, refl))
    | inr (e, next) ↦
        let ((ret, stop), got, h2) = >>=-eq-some (mbox_get s.mb_stop) _ next in
        subst (Inv threads old (made + 1)) (some-injective _ _ h2)
          (wait-Inv k ret stop (pb, gk, le, s0, t1) e got)
  ]
  moved-Inv (ending e) at h = elim (if-cases (e == threads) h) [
    | inl (q, last) ↦ cc
    | inr (q, next) ↦
        let (start, put, h2) = >>=-eq-some (mbox_put s.mb_start uint_max) _ next in
        subst (Inv threads old (made + 1)) (some-injective _ _ h2) (exit-Inv e start at q put)
  ]

  pub main_step-Inv :
      {s' : System}
      → main_step (length old) threads s.place s ≡ some s'
      → Inv threads old (made + 1) s'
  main_step-Inv h = moved-Inv s.place v.placed h
