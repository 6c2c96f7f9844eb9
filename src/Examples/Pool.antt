-- ===== src/Examples/Pool.antt =====
-- `main` and two sort threads with one block.
use reconos_v.Examples.Single.{single, single-Holds}
use reconos_v.Base.{
  ℕ, ◌+◌, ◌*◌, ◌≤◌, ◌⊎◌, ◌≡◌, refl, some, List, [], ◌∷◌, ◌++◌, length, replicate, arith,
}
use reconos_v.Base.{length-replicate, length-append}
use reconos_v.Mbox.{mbox_put, mbox_get}
use reconos_v.Sort.Sorted.{Sorts}
use reconos_v.Sort.Merge.{recursive_merge, simple_merge}
use reconos_v.Sort.Demo.{block_words}
use reconos_v.Sort.Threads.{
  putting, System, Actor, main, takes, main_step, put_job, take_job, step, run,
}
use reconos_v.Sort.Threads.Moves.{CanStep, IsDone}
use reconos_v.Sort.Threads.Ends.{Starts, run-Sorts, run-le, run-goes_on, run-finishes}

abbrev job : List ℕ
job = replicate block_words 5

job-length : length job ≡ block_words
job-length = length-replicate {A = ℕ} block_words 5

abbrev pool : System
pool = record {
  mb_start = single;
  mb_stop = single;
  address = 4096;
  buffer = job ++ [];
  place = putting 0;
  waiting = 2;
  sorting = [];
  answering = 0;
  ended = 0;
}

-- One thread has the block.
abbrev busy : System
busy = record pool {
  place = putting 1;
  waiting = 1;
  sorting = 4096 ∷ [];
  mb_start = record single { messages = 4096 ∷ [] };
}

pool-Starts : Starts 2 (job ∷ []) pool
pool-Starts = record {
  cut = (job-length, tt);
  buffer = refl;
  mapped = omega arith;
  first = refl;
  pool = refl;
  no_job = refl;
  no_answer = refl;
  none_ended = refl;
  starts = single-Holds;
  stops = single-Holds;
}

pool-busy : run 1 2 (main ∷ takes ∷ []) pool ≡ some busy
unfolding run step main_step put_job mbox_put take_job mbox_get
pool-busy = refl

run-goes_on_example : IsDone 2 busy ⊎ CanStep 1 2 busy
run-goes_on_example =
    run-goes_on pool-Starts (main ∷ takes ∷ []) (omega arith) (omega arith) pool-busy

run-le_example : length {A = Actor} (main ∷ takes ∷ []) ≤ 5 * 1 + 2 * 2 + 2
run-le_example = run-le pool-Starts (main ∷ takes ∷ []) pool-busy

abbrev spare : List ℕ
spare = replicate block_words 0

spare-length : length spare ≡ length (job ++ [])
spare-length =
    omega (arith, length-replicate {A = ℕ} block_words 0, job-length, length-append job [])

started : run 1 2 [] pool ≡ some pool
unfolding run
started = refl

-- A run to the end
run-Sorts_example :
    (last : System) × Sorts
      (job ++ [])
      (recursive_merge 1 last.buffer spare (1 * block_words) block_words simple_merge)
run-Sorts_example =
    let (more, last, ran, done) = run-finishes [] pool-Starts (omega arith) (omega arith) started in
    (last, run-Sorts pool-Starts 0 2 spare more refl spare-length ran done.0)
