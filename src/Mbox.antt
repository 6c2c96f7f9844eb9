-- ===== src/Mbox.antt =====
-- Message boxes, linux/libreconos/mbox.c: `mbox_init`, `mbox_put` and `mbox_get` as one caller
-- runs them to the end. `none` is a call that blocks. The interleavings of many callers are in
-- `Mbox.Threads`.
pub mod Holds
pub mod Refine
pub mod Threads
use reconos_v.Base.{
  ℕ, zero, suc, ◌+◌, ◌*◌, ◌%◌, ◌^◌, Bool, true, false, Option, none, some, List, set,
}
use reconos_v.Base.{get_elem?, if◌then◌else◌, ◌==◌}
use reconos_v.Base.Maybe.{◌>>=◌}

-- A semaphore is its count. A post cannot overflow: the counts of a box never exceed its size.
abbrev pub sem_wait : ℕ → Option ℕ
sem_wait zero = none
sem_wait (suc n) = some n

abbrev pub sem_post : ℕ → ℕ
sem_post n = suc n

-- A mutex is `true` while it is held.
abbrev pub mutex_lock : Bool → Option Bool
mutex_lock true = none
mutex_lock false = some true

abbrev pub mutex_unlock : Bool → Bool
mutex_unlock m = false

-- `struct mbox`
pub record Mbox : Type 0 where
  pub sem_read : ℕ
  pub sem_write : ℕ
  pub mutex_read : Bool
  pub mutex_write : Bool
  pub messages : List ℕ
  pub read_idx : ℕ
  pub write_idx : ℕ
  pub size : ℕ

unfoldable pub mbox_put : Mbox → ℕ → Option Mbox
mbox_put mb msg = do
  held ← mutex_lock mb.mutex_write
  free ← sem_wait mb.sem_write
  let stored = set mb.messages mb.write_idx msg
  let next = (mb.write_idx + 1) % mb.size
  let posted = sem_post mb.sem_read
  some (record mb {
    sem_write = free;
    messages = stored;
    write_idx = next;
    sem_read = posted;
    mutex_write = mutex_unlock held;
  })

-- A read out of range would be undefined; it blocks here, and `Refine` shows that it cannot occur.
unfoldable pub mbox_get : Mbox → Option (ℕ × Mbox)
mbox_get mb = do
  held ← mutex_lock mb.mutex_read
  ready ← sem_wait mb.sem_read
  msg ← get_elem? mb.messages mb.read_idx
  let next = (mb.read_idx + 1) % mb.size
  let posted = sem_post mb.sem_write
  some (
    msg,
    record mb {
      sem_read = ready;
      read_idx = next;
      sem_write = posted;
      mutex_read = mutex_unlock held;
    },
  )

-- What the library calls of `mbox_init` return: error codes (0 is success) and the block that
-- `malloc` gives for a number of bytes.
pub record Library : Type 0 where
  pub sem_init_read : ℕ
  pub sem_init_write : ℕ
  pub mutex_init_read : ℕ
  pub mutex_init_write : ℕ
  pub malloc : ℕ → Option (List ℕ)

-- `mbox_init` returns 0 or -1, or its assertion fails.
pub data Status : Type 0 where
  done failed aborted : Status

-- The stages of `mbox_init` after the indices are reset; each failed call stops it there.
pub allocate : Library → ℕ → Mbox → Status × Mbox
allocate lib size mb =
    let sized = record mb { size = size } in
    elim (lib.malloc (size * 4 % 2 ^ 32)) [
      | none ↦ (aborted, sized)
      | some block ↦ (done, record sized { messages = block })
    ]

pub mbox_init : Library → Mbox → ℕ → Status × Mbox
unfolding allocate
mbox_init lib mb size =
    let reset = record mb { read_idx = 0; write_idx = 0 } in
    let read = record reset { sem_read = 0 } in
    let write = record read { sem_write = size } in
    let unread = record write { mutex_read = false } in
    let unlocked = record unread { mutex_write = false } in
    if lib.sem_init_read == 0
    then (if lib.sem_init_write == 0
        then (if lib.mutex_init_read == 0
            then (if lib.mutex_init_write == 0
                then allocate lib size unlocked
                else (failed, unread))
            else (failed, write))
        else (failed, read))
    else (failed, reset)
