-- ===== src/Sort/Threads/Steps.antt =====
-- The sort of a block and the put of an answer; every step keeps the invariant.
use reconos_v.Base.{ℕ, suc, ◌+◌, ◌*◌, ◌≤◌, some, List, [], ◌∷◌, ◌++◌}
use reconos_v.Base.{◌≡◌, ◌∙◌, sym, ap, length, arith, take, drop, get_elem?}
use reconos_v.Base.{length-append}
use reconos_v.Base.Maybe.{>>=-eq-some}
use reconos_v.Mbox.{Mbox, mbox_put}
use reconos_v.Mbox.Holds.{Holds, put-inv}
use reconos_v.Sort.Demo.{block_words, sort_block}
use reconos_v.Sort.Demo.Block.{sort_block_lem}
use reconos_v.Sort.Merge.Blocks.{join}
use reconos_v.Sort.Threads.{
  Main, putting, awaiting, ending, System, one_of, sort_job, answer_job, Actor, main, takes,
  replies, sorts, step, run,
}
use reconos_v.Sort.Threads.Tracks.{Held, Tracks-Held, Tracks-length}
use reconos_v.Sort.Threads.Invariant.{
  answers-snoc, address_of, Placed, Inv, Picked, get_elem?-Picked, join-append, one_of-some,
}
use reconos_v.Sort.Threads.Takes.{take_job-Inv}
use reconos_v.Sort.Threads.Mains.{main_step-Inv}
use reconos_v.Sort.Sorted.{IsSorted}
use mathlib.Core.List.{Perm}
use mathlib.Core.Path.{subst}
use mathlib.Core.Option.{some-injective}

module _ {threads : ℕ} {old : List (List ℕ)} {made : ℕ} {s : System}
    (v : Inv threads old made s) where
  -- An answer that is put can be awaited.
  answered-Inv :
      (answering : ℕ) (stop : Mbox)
      → s.answering ≡ suc answering
      → mbox_put s.mb_stop 23 ≡ some stop
      → Inv threads old
          (made + 1)
          (record s { mb_stop = stop; waiting = s.waiting + 1; answering = answering })
  answered-Inv answering stop e put =
      let (room, holds) = put-inv 23 v.stops put in
      record {
        put = v.put;
        got = v.got;
        sent = v.sent;
        turns = v.turns;
        placed = v.placed;
        taken = v.taken;
        queued = v.queued;
        exits = v.exits;
        jobs = v.jobs;
        commands = v.commands;
        starts = v.starts;
        held = v.held;
        new = v.new;
        sorted = v.sorted;
        tracks = v.tracks;
        buffer = v.buffer;
        sorting = v.sorting;
        unread = suc v.unread;
        stops = subst (λ q. Holds (length old) q stop) (answers-snoc v.unread) holds;
        answered = omega (arith, v.answered, e);
        crew = omega (arith, v.crew, e);
        mapped = v.mapped;
        progress = omega (arith, v.progress);
      }

  answer_job-Inv : {s' : System} → answer_job s ≡ some s' → Inv threads old (made + 1) s'
  unfolding answer_job
  answer_job-Inv h =
      let (answering, one, h1) = >>=-eq-some (one_of s.answering) _ h in
      let (stop, put, h2) = >>=-eq-some (mbox_put s.mb_stop 23) _ h1 in
      subst (Inv threads old (made + 1)) (some-injective _ _ h2)
        (answered-Inv answering stop (one_of-some s.answering one) put)

  -- What a sorting thread finds behind its address, and what it makes of it.
  pub work :
      (j ret : ℕ)
      → get_elem? s.sorting j ≡ some ret
      → (p : Picked s.address v.held j ret) × (r : Held v.taken 0 v.sorted p.block p.before p.after
          old v.new)
        × (y : List ℕ) × (sort_block s.address ret s.buffer ≡ some (join (r.left ++ (y ∷ r.right))))
        × (length y ≡ block_words)
        × IsSorted y
        × Perm r.block y
  work j ret found =
      let p =
        get_elem?-Picked s.address v.held j (ap (λ l. get_elem? l j) (sym v.sorting) ∙ found) in
      let r = Tracks-Held p.block p.before p.after v.tracks p.parts in
      let inside : length r.left + suc (length r.right) ≡ length old =
        sym (length-append r.left (r.block ∷ r.right))
        ∙ ap length (sym r.parts)
        ∙ Tracks-length v.tracks in
      let (y, result, long, ascending, same) =
        sort_block_lem s.address p.block (join r.left) r.block (join r.right)
          (r.lefts ∙ ap (λ k. k * block_words) (omega (arith, r.index))) r.cut
          (omega (arith, v.mapped, r.index, inside)) in
      (
        p,
        r,
        y,
        ap (λ a. sort_block s.address a s.buffer) p.found
            ∙ ap (sort_block s.address (address_of s.address p.block))
                (v.buffer ∙ ap join r.parts ∙ join-append r.left (r.block ∷ r.right))
            ∙ result
            ∙ ap some (sym (join-append r.left (y ∷ r.right))),
        long,
        ascending,
        same,
      )

  -- A block that is sorted is ready.
  sorted-Inv :
      (j ret : ℕ) (out : List ℕ)
      → get_elem? s.sorting j ≡ some ret
      → sort_block s.address ret s.buffer ≡ some out
      → Inv threads old (made + 1) (record s {
        buffer = out;
        sorting = take j s.sorting ++ drop (suc j) s.sorting;
        answering = s.answering + 1;
      })
  sorted-Inv j ret out found worked =
      let (p, r, y, result, long, ascending, same) = work j ret found in
      record {
        put = v.put;
        got = v.got;
        sent = v.sent;
        turns = v.turns;
        placed = v.placed;
        taken = v.taken;
        queued = v.queued;
        exits = v.exits;
        jobs = v.jobs;
        commands = v.commands;
        starts = v.starts;
        held = p.before ++ p.after;
        new = r.left ++ (y ∷ r.right);
        sorted = suc v.sorted;
        tracks = r.sorts y long ascending same;
        buffer = some-injective _ _ (sym worked ∙ result);
        sorting = ap (λ l. take j l ++ drop (suc j) l) v.sorting ∙ p.others;
        unread = v.unread;
        stops = v.stops;
        answered = omega (arith, v.answered);
        crew = omega (
          arith,
          v.crew,
          ap length p.parts,
          length-append p.before (p.block ∷ p.after),
          length-append p.before p.after,
        );
        mapped = v.mapped;
        progress = omega (arith, v.progress);
      }

  sort_job-Inv : (j : ℕ) {s' : System} → sort_job j s ≡ some s' → Inv threads old (made + 1) s'
  unfolding sort_job
  sort_job-Inv j h =
      let (ret, found, h1) = >>=-eq-some (get_elem? s.sorting j) _ h in
      let (out, worked, h2) = >>=-eq-some (sort_block s.address ret s.buffer) _ h1 in
      subst (Inv threads old (made + 1)) (some-injective _ _ h2) (sorted-Inv j ret out found worked)

  -- `main` has put no more blocks than there are.
  pub put-le :
      (p : Main) → Placed (length old) threads p v.put v.got v.sent v.turns → v.put ≤ length old
  put-le (putting i) at = omega (arith, at.0, at.1)
  put-le (awaiting k) at = omega (arith, at.0)
  put-le (ending e) at = omega (arith, at.0)

  pub step-Inv :
      (a : Actor) {s' : System}
      → step (length old) threads a s ≡ some s'
      → Inv threads old (made + 1) s'
  unfolding step
  step-Inv main h = main_step-Inv v h
  step-Inv takes h = take_job-Inv v h (put-le s.place v.placed)
  step-Inv replies h = answer_job-Inv h
  step-Inv (sorts j) h = sort_job-Inv j h

pub run-Inv :
    {threads : ℕ} {old : List (List ℕ)} (actors : List Actor) {made : ℕ} {s s' : System}
    → Inv threads old made s
    → run (length old) threads actors s ≡ some s'
    → Inv threads old (made + length actors) s'
unfolding run
run-Inv {threads} {old} [] {made} {s} v h =
    subst (Inv threads old (made + 0)) (some-injective _ _ h)
      (subst (λ n. Inv threads old n s) (omega arith) v)
run-Inv {threads} {old} (a ∷ actors) {made} {s' = s'} v h =
    let (next, first, h1) = >>=-eq-some (step (length old) threads a _) _ h in
    subst (λ n. Inv threads old n s') (omega arith) (run-Inv actors (step-Inv v a first) h1)
