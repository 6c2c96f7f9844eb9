-- ===== src/Sort/Threads/Takes.antt =====
-- A sort thread that gets a job, or the exit command.
use reconos_v.Base.{ℕ, zero, suc, ◌+◌, ◌≤◌, some, List, [], ◌∷◌, ◌++◌}
use reconos_v.Base.{◌≡◌, refl, ◌∙◌, sym, ap, length, arith, replicate}
use reconos_v.Base.{if◌then◌else◌, length-append, ◌==◌, get_or, drop}
use reconos_v.Base.Maybe.{>>=-eq-some}
use reconos_v.Mbox.{Mbox, mbox_get}
use reconos_v.Mbox.Holds.{Holds, get-inv}
use reconos_v.Sort.Demo.{uint_max}
use reconos_v.Sort.Threads.{System, one_of, take_job}
use reconos_v.Sort.Threads.Tracks.{Tracks-take}
use reconos_v.Sort.Threads.Invariant.{
  addresses, address_of, addresses_of, Inv, addresses_of-snoc, if_true, if_false, one_of-some,
  ==-same, ==-below,
}
use mathlib.Core.Path.{subst}

-- What a thread gets: a block's address while there is one, the exit command after the last.
data Job (address queued taken exits ret : ℕ) (rest : List ℕ) : Type 0 where
  block :
      (q : ℕ)
      → queued ≡ suc q
      → ret ≡ address_of address taken
      → addresses address q (taken + 1) ++ replicate exits uint_max ≡ rest
      → Job address queued taken exits ret rest
  exit :
      (e : ℕ)
      → queued ≡ 0
      → exits ≡ suc e
      → ret ≡ uint_max
      → replicate e uint_max ≡ rest
      → Job address queued taken exits ret rest

first_of : {a b : ℕ} {xs ys : List ℕ} → Path (List ℕ) (a ∷ xs) (b ∷ ys) → b ≡ a
first_of e = sym (ap (λ l. get_or l 0 0) e)

Job-of :
    (address queued taken exits ret : ℕ) (rest : List ℕ)
    → addresses address queued taken ++ replicate exits uint_max ≡ ret ∷ rest
    → Job address queued taken exits ret rest
Job-of address zero taken zero ret rest e = absurd (omega (arith, ap length e))
Job-of address zero taken (suc exits) ret rest e = exit exits refl refl (first_of e) (ap (drop 1) e)
Job-of address (suc queued) taken exits ret rest e = block queued refl (first_of e) (ap (drop 1) e)

module _ {threads : ℕ} {old : List (List ℕ)} {made : ℕ} {s : System}
    (v : Inv threads old made s) where
  -- The thread has the block that is next.
  sorting-Inv :
      (waiting ret q : ℕ) (start : Mbox)
      → s.waiting ≡ suc waiting
      → v.queued ≡ suc q
      → ret ≡ address_of s.address v.taken
      → Holds (length old) (addresses s.address q (v.taken + 1) ++ replicate v.exits uint_max) start
      → v.put ≤ length old
      → Inv threads old
          (made + 1)
          (record s { mb_start = start; waiting = waiting; sorting = s.sorting ++ (ret ∷ []) })
  sorting-Inv waiting ret q start one more e holds fits = record {
    put = v.put;
    got = v.got;
    sent = v.sent;
    turns = v.turns;
    placed = v.placed;
    taken = v.taken + 1;
    queued = q;
    exits = v.exits;
    jobs = omega (arith, v.jobs);
    commands = v.commands;
    starts = holds;
    held = v.held ++ (v.taken ∷ []);
    new = v.new;
    sorted = v.sorted;
    tracks = Tracks-take v.tracks (omega arith) (omega (arith, v.jobs));
    buffer = v.buffer;
    sorting =
        ap (λ l. l ++ (ret ∷ [])) v.sorting
        ∙ ap (λ r. addresses_of s.address v.held ++ (r ∷ [])) e
        ∙ addresses_of-snoc s.address v.held v.taken;
    unread = v.unread;
    stops = v.stops;
    answered = v.answered;
    crew = omega (arith, v.crew, length-append v.held (v.taken ∷ []));
    mapped = v.mapped;
    progress = omega (arith, v.progress);
  }

  -- The thread ends.
  ended-Inv :
      (waiting e : ℕ) (start : Mbox)
      → s.waiting ≡ suc waiting
      → v.queued ≡ 0
      → v.exits ≡ suc e
      → Holds (length old) (replicate e uint_max) start
      → Inv threads old
          (made + 1)
          (record s { mb_start = start; waiting = waiting; ended = s.ended + 1 })
  ended-Inv waiting e start one none_left some_left holds = record {
    put = v.put;
    got = v.got;
    sent = v.sent;
    turns = v.turns;
    placed = v.placed;
    taken = v.taken;
    queued = 0;
    exits = e;
    jobs = omega (arith, v.jobs);
    commands = omega (arith, v.commands);
    starts = holds;
    held = v.held;
    new = v.new;
    sorted = v.sorted;
    tracks = v.tracks;
    buffer = v.buffer;
    sorting = v.sorting;
    unread = v.unread;
    stops = v.stops;
    answered = v.answered;
    crew = omega (arith, v.crew);
    mapped = v.mapped;
    progress = omega (arith, v.progress);
  }

  took-Inv :
      {s' : System} (waiting ret : ℕ) (start : Mbox) (rest : List ℕ)
      → s.waiting ≡ suc waiting
      → Job s.address v.queued v.taken v.exits ret rest
      → Holds (length old) rest start
      → v.put ≤ length old
      → some (
          if ret == uint_max
          then record s { mb_start = start; waiting = waiting; ended = s.ended + 1 }
          else record s { mb_start = start; waiting = waiting; sorting = s.sorting ++ (ret ∷ []) })
        ≡ some s'
      → Inv threads old (made + 1) s'
  took-Inv waiting ret start rest one (block q more e r) holds fits h =
      subst (Inv threads old (made + 1))
        (if_false _ _ _ (==-below ret uint_max (omega (arith, e, v.jobs, v.mapped))) h)
        (sorting-Inv waiting ret q start one more e
          (subst (λ l. Holds (length old) l start) (sym r) holds) fits)
  took-Inv waiting ret start rest one (exit k none_left some_left e r) holds fits h =
      subst (Inv threads old (made + 1)) (if_true _ _ _ (==-same ret uint_max e) h) (
        ended-Inv waiting k start one none_left some_left
          (subst (λ l. Holds (length old) l start) (sym r) holds))

  pub take_job-Inv :
      {s' : System} → take_job s ≡ some s' → v.put ≤ length old → Inv threads old (made + 1) s'
  unfolding take_job
  take_job-Inv h fits =
      let (waiting, one, h1) = >>=-eq-some (one_of s.waiting) _ h in
      let ((ret, start), got, h2) = >>=-eq-some (mbox_get s.mb_start) _ h1 in
      let (rest, queue, holds) = get-inv ret v.starts got in
      took-Inv waiting ret start rest (one_of-some s.waiting one)
        (Job-of s.address v.queued v.taken v.exits ret rest queue) holds fits h2
