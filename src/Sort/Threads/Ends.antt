-- ===== src/Sort/Threads/Ends.antt =====
-- What a run of the demo's threads ends with, and that it does not stop before.
use reconos_v.Base.{ℕ, zero, suc, ◌+◌, ◌*◌, ◌^◌, ◌≤◌, ◌<◌, ◌⊎◌, some, List, [], ◌∷◌}
use reconos_v.Base.{◌≡◌, refl, ◌∙◌, ap, length, arith, inl, inr}
use reconos_v.Mbox.Holds.{Holds}
use reconos_v.Sort.Sorted.{Sorts, Sorts-perm, length-perm}
use reconos_v.Sort.Merge.{recursive_merge, simple_merge}
use reconos_v.Sort.Merge.Blocks.{join}
use reconos_v.Sort.Demo.{block_words, block_size}
use reconos_v.Sort.Demo.Sorted.{IsCut, merge_outs}
use reconos_v.Sort.Threads.{putting, ending, System, Actor, run}
use reconos_v.Sort.Threads.Tracks.{Tracks-start, Tracks-all, Tracks-le}
use reconos_v.Sort.Threads.Invariant.{Placed, Inv}
use reconos_v.Sort.Threads.Steps.{run-Inv, step-Inv}
use reconos_v.Sort.Threads.Moves.{CanStep, IsDone, reached-le, Inv-goes_on}
use mathlib.Core.Path.{subst}

-- Before the first step: the threads wait, the boxes are empty, the buffer is cut into blocks.
pub record Starts (threads : ℕ) (blocks : List (List ℕ)) (s : System) : Type 0 where
  pub cut : IsCut blocks
  pub buffer : s.buffer ≡ join blocks
  pub mapped : s.address + length blocks * block_size < 2 ^ 32
  pub first : s.place ≡ putting 0
  pub pool : s.waiting ≡ threads
  pub no_job : s.sorting ≡ []
  pub no_answer : s.answering ≡ 0
  pub none_ended : s.ended ≡ 0
  pub starts : Holds (length blocks) [] s.mb_start
  pub stops : Holds (length blocks) [] s.mb_stop

Starts-Inv :
    {threads : ℕ} {blocks : List (List ℕ)} {s : System}
    → Starts threads blocks s
    → Inv threads blocks 0 s
Starts-Inv {blocks = blocks} i = record {
  put = 0;
  got = 0;
  sent = 0;
  turns = 0;
  placed = rw i.first (refl, omega arith, refl, refl, refl);
  taken = 0;
  queued = 0;
  exits = 0;
  jobs = omega arith;
  commands = omega (arith, i.none_ended);
  starts = i.starts;
  held = [];
  new = blocks;
  sorted = 0;
  tracks = Tracks-start 0 blocks i.cut;
  buffer = i.buffer;
  sorting = i.no_job;
  unread = 0;
  stops = i.stops;
  answered = omega (arith, i.no_answer);
  crew = omega (arith, i.pool, i.no_answer, i.none_ended);
  mapped = i.mapped;
  progress = omega (arith, i.none_ended);
}

Inv-le :
    {threads made : ℕ} {blocks : List (List ℕ)} {s : System}
    → Inv threads blocks made s
    → made ≤ 5 * length blocks + 2 * threads + 2
Inv-le {threads} {blocks = blocks} {s} v =
    let (puts, sends, turned) =
      reached-le threads (length blocks) s.place v.put v.got v.sent v.turns v.placed in
    omega (arith, v.progress, v.jobs, v.commands, v.answered, Tracks-le v.tracks)

module _ {threads : ℕ} {blocks : List (List ℕ)} {s s' : System} (i : Starts threads blocks s) where
  -- From a start with 2^j blocks in a buffer that ends below the last word of the address space, with
  -- empty boxes for as many messages as there are blocks, and with a second buffer as long: in whatever
  -- order `main` and the sort threads make their steps, once `main` is past its waits, the buffer that
  -- the merge then returns is an ascending permutation of what the buffer held at the start.
  pub run-Sorts :
      (j e : ℕ) (temp : List ℕ) (actors : List Actor)
      → length blocks ≡ 2 ^ j
      → length temp ≡ length s.buffer
      → run (length blocks) threads actors s ≡ some s'
      → s'.place ≡ ending e
      → Sorts s.buffer (
          recursive_merge
            (suc j)
            s'.buffer
            temp
            (length blocks * block_words)
            block_words
            simple_merge)
  run-Sorts j e temp actors n et ran at =
      let v = run-Inv actors (Starts-Inv i) ran in
      let placed =
        subst (λ p. Placed (length blocks) threads p v.put v.got v.sent v.turns) at v.placed in
      let (runs, same, counted) =
        Tracks-all v.tracks (omega (arith, placed.1, v.answered, Tracks-le v.tracks)) in
      rw (i.buffer, v.buffer)
        (Sorts-perm same (
          merge_outs j (length blocks) v.new temp runs counted n
            (et ∙ ap length i.buffer ∙ length-perm same) (omega (arith, i.mapped))))

  -- No run from such a start is longer than five steps for each block, two for each thread and two more.
  pub run-le :
      (actors : List Actor)
      → run (length blocks) threads actors s ≡ some s'
      → length actors ≤ 5 * length blocks + 2 * threads + 2
  run-le actors ran = omega (arith, Inv-le (run-Inv actors (Starts-Inv i) ran))

  -- With at least one thread and one block, in every state that a run from such a start reaches, either
  -- `main` has sent all its exit commands and all threads have ended, or one of them can make a step.
  pub run-goes_on :
      (actors : List Actor)
      → 0 < threads
      → 0 < length blocks
      → run (length blocks) threads actors s ≡ some s'
      → IsDone threads s' ⊎ CanStep (length blocks) threads s'
  run-goes_on actors some_thread some_block ran =
      Inv-goes_on (run-Inv actors (Starts-Inv i) ran) some_thread some_block

-- From a reached state, `fuel` further steps can end the run.
finishes :
    {threads : ℕ} {blocks : List (List ℕ)} (fuel : ℕ) {made : ℕ} {s : System}
    → Inv threads blocks made s
    → 0 < threads
    → 0 < length blocks
    → 5 * length blocks + 2 * threads + 2 < made + fuel
    → (more : List Actor) × (last : System) × (run (length blocks) threads more s ≡ some last)
      × IsDone threads last
unfolding run
finishes zero v some_thread some_block enough = absurd (omega (arith, Inv-le v))
finishes (suc fuel) {s = s} v some_thread some_block enough =
    elim (Inv-goes_on v some_thread some_block) [
      | inl done ↦ ([], s, refl, done)
      | inr (a, next, moves) ↦
          let (more, last, ran, done) =
            finishes fuel (step-Inv v a moves) some_thread some_block (omega (arith, enough)) in
          (a ∷ more, last, rw (moves, ran) refl, done)
    ]

pub run-finishes :
    {threads : ℕ} {blocks : List (List ℕ)} {s s' : System} (actors : List Actor)
    → Starts threads blocks s
    → 0 < threads
    → 0 < length blocks
    → run (length blocks) threads actors s ≡ some s'
    → (more : List Actor) × (last : System) × (run (length blocks) threads more s' ≡ some last)
      × IsDone threads last
run-finishes {threads} {blocks} actors i some_thread some_block ran =
    finishes (5 * length blocks + 2 * threads + 3) (run-Inv actors (Starts-Inv i) ran) some_thread
      some_block (omega arith)
