-- ===== src/Sort/Threads.antt =====
-- demos/sort_demo/linux/sort_demo.c with its threads side by side: `main` and a pool of sort threads,
-- one call of a message box or one sort of a block in a step. The threads run the same code, so the
-- state says how many are where.
pub mod Tracks
pub mod Invariant
pub mod Takes
pub mod Mains
pub mod Steps
pub mod Moves
pub mod Ends
use reconos_v.Base.{ℕ, zero, suc, ◌+◌, ◌*◌, ◌%◌, ◌^◌, Option, none, some, List, [], ◌∷◌, ◌++◌}
use reconos_v.Base.{if◌then◌else◌, ◌==◌, get_elem?, take, drop}
use reconos_v.Base.Maybe.{◌>>=◌}
use reconos_v.Mbox.{Mbox, mbox_put, mbox_get}
use reconos_v.Sort.Demo.{block_size, uint_max, sort_block}

-- Where `main` is: in front of its `i`th put of a block, its `k`th wait, or its `e`th exit command.
pub data Main : Type 0 where
  putting awaiting ending : ℕ → Main

-- The boxes and the buffer; the threads that are in front of `mbox_get`, those that sort with the
-- address that each has got, those in front of `mbox_put`, and those that have ended.
pub record System : Type 0 where
  pub mb_start : Mbox
  pub mb_stop : Mbox
  pub address : ℕ
  pub buffer : List ℕ
  pub place : Main
  pub waiting : ℕ
  pub sorting : List ℕ
  pub answering : ℕ
  pub ended : ℕ

-- One thread of a number of threads, and how many are left.
abbrev pub one_of : ℕ → Option ℕ
one_of zero = none
one_of (suc n) = some n

-- `sort_thread`: the get of a job. `none` is a wait.
unfoldable pub take_job : System → Option System
take_job s = do
  waiting ← one_of s.waiting
  (ret, start) ← mbox_get s.mb_start
  let ends = record s { mb_start = start; waiting = waiting; ended = s.ended + 1 }
  let sorts = record s { mb_start = start; waiting = waiting; sorting = s.sorting ++ (ret ∷ []) }
  some (if ret == uint_max then ends else sorts)

-- The sort of the block that the `j`th of the sorting threads has.
unfoldable pub sort_job : (j : ℕ) → System → Option System
sort_job j s = do
  ret ← get_elem? s.sorting j
  sorted ← sort_block s.address ret s.buffer
  some (record s {
    buffer = sorted;
    sorting = take j s.sorting ++ drop (suc j) s.sorting;
    answering = s.answering + 1;
  })

-- The put of an answer.
unfoldable pub answer_job : System → Option System
answer_job s = do
  answering ← one_of s.answering
  stop ← mbox_put s.mb_stop 23
  some (record s { mb_stop = stop; waiting = s.waiting + 1; answering = answering })

-- A turn of the loops of `main`: of the puts of `blocks` blocks, of the waits, and of the exit commands
-- for `threads` threads. `none` is a wait, or the end.
unfoldable pub put_job : (blocks i : ℕ) → System → Option System
put_job blocks i s =
    let next = mbox_put s.mb_start ((s.address + i * block_size) % 2 ^ 32) >>= λ start.
    some (record s { mb_start = start; place = putting (i + 1) }) in
    if i == blocks then some (record s { place = awaiting 0 }) else next

unfoldable pub await_answer : (blocks k : ℕ) → System → Option System
await_answer blocks k s =
    let next =
      mbox_get s.mb_stop >>= λ got. some (record s { mb_stop = got.1; place = awaiting (k + 1) }) in
    if k == blocks then some (record s { place = ending 0 }) else next

unfoldable pub put_exit : (threads e : ℕ) → System → Option System
put_exit threads e s =
    let next = mbox_put s.mb_start uint_max >>= λ start.
    some (record s { mb_start = start; place = ending (e + 1) }) in
    if e == threads then none else next

unfoldable pub main_step : (blocks threads : ℕ) → Main → System → Option System
main_step blocks threads (putting i) s = put_job blocks i s
main_step blocks threads (awaiting k) s = await_answer blocks k s
main_step blocks threads (ending e) s = put_exit threads e s

-- Who makes a step, and the runs of a list of them.
pub data Actor : Type 0 where
  main takes replies : Actor
  sorts : ℕ → Actor

unfoldable pub step : (blocks threads : ℕ) → Actor → System → Option System
step blocks threads main s = main_step blocks threads s.place s
step blocks threads takes s = take_job s
step blocks threads replies s = answer_job s
step blocks threads (sorts j) s = sort_job j s

unfoldable pub run : (blocks threads : ℕ) → List Actor → System → Option System
run blocks threads [] s = some s
run blocks threads (a ∷ actors) s = do
  next ← step blocks threads a s
  run blocks threads actors next
