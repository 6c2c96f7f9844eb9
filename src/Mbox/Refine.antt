-- ===== src/Mbox/Refine.antt =====
-- A valid message box behaves as the bounded queue of the messages that it holds.
use mathlib.Core.Option.{some-injective}
use reconos_v.Base.{refl, ◌∙◌, ap, lt→ltb}
use reconos_v.Base.{ℕ, ◌+◌, ◌*◌, ◌-◌, ◌%◌, ◌^◌, ◌≤◌, ◌<◌, ◌≡◌, ◌≢◌, ◌⊎◌, false}
use reconos_v.Base.{Option, none, some, List, [], ◌∷◌, ◌++◌, length, arith, ltb}
use reconos_v.Base.{length-set, get_elem?-eq-get_or, if◌then◌else◌}
use native.Mathlib.Nat.{mod-add-mod}
use reconos_v.Base.Cyclic.{window, length-window, window_of_pos, window-set, step-mod}
use reconos_v.Mbox.{Mbox, mbox_put, mbox_get, mbox_init, Library, done, failed}

-- Between calls no mutex is held, and the counts say how much is stored and free.
pub record IsValid (mb : Mbox) : Type 0 where
  pub unread : mb.mutex_read ≡ false
  pub unlocked : mb.mutex_write ≡ false
  pub block : mb.size ≤ length mb.messages
  pub counted : mb.sem_read + mb.sem_write ≡ mb.size
  pub read_in : mb.read_idx < mb.size
  pub write_in : mb.write_idx ≡ (mb.read_idx + mb.sem_read) % mb.size

-- the stored messages, oldest first
abbrev pub contents : Mbox → List ℕ
contents mb = window mb.messages mb.size mb.read_idx mb.sem_read

-- The promise: a queue of at most `size` messages whose operations block.
unfoldable pub enqueue : ℕ → List ℕ → ℕ → Option (List ℕ)
enqueue size q x = if ltb (length q) size then some (q ++ (x ∷ [])) else none

unfoldable pub dequeue : List ℕ → Option (ℕ × List ℕ)
dequeue [] = none
dequeue (x ∷ q) = some (x, q)

-- how the outcome of a call is seen
abbrev pub seen_put : Option Mbox → Option (List ℕ)
seen_put none = none
seen_put (some mb) = some (contents mb)

abbrev pub seen_get : Option (ℕ × Mbox) → Option (ℕ × List ℕ)
seen_get none = none
seen_get (some (x, mb)) = some (x, contents mb)

module _ {mb : Mbox} (v : IsValid mb) where
  -- On a valid box, `mbox_put` appends its message to what the box holds, and blocks just when the
  -- box holds as many messages as its size.
  pub mbox_put_refines : (x : ℕ) → seen_put (mbox_put mb x) ≡ enqueue mb.size (contents mb) x
  unfolding mbox_put enqueue
  mbox_put_refines x = ground (
    arith,
    length-window mb.messages mb.size mb.read_idx mb.sem_read,
    window-set mb.messages mb.size x mb.sem_read mb.read_idx mb.write_idx,
  )

  -- A put keeps a box valid.
  pub mbox_put-IsValid : {mb' : Mbox} (x : ℕ) → mbox_put mb x ≡ some mb' → IsValid mb'
  unfolding mbox_put
  mbox_put-IsValid x h = ground (
    arith,
    length-set mb.messages mb.write_idx x,
    step-mod mb.size mb.read_idx mb.sem_read,
    mod-add-mod (mb.read_idx + mb.sem_read) mb.size 1,
  )

  -- On a valid box, `mbox_get` takes the oldest message that the box holds, and blocks just when it
  -- holds none.
  pub mbox_get_refines : seen_get (mbox_get mb) ≡ dequeue (contents mb)
  unfolding mbox_get dequeue
  mbox_get_refines = ground (
    arith,
    window_of_pos mb.messages mb.size mb.read_idx mb.sem_read,
    get_elem?-eq-get_or mb.messages mb.read_idx 0,
  )

  -- A get keeps a box valid.
  pub mbox_get-IsValid : {mb' : Mbox} {x : ℕ} → mbox_get mb ≡ some (x, mb') → IsValid mb'
  unfolding mbox_get
  mbox_get-IsValid h = ground (
    arith,
    step-mod mb.size mb.read_idx (mb.sem_read - 1),
    get_elem?-eq-get_or mb.messages mb.read_idx 0,
  )

-- no call of the library fails
pub record Succeeds (lib : Library) : Type 0 where
  pub read_ok : lib.sem_init_read ≡ 0
  pub write_ok : lib.sem_init_write ≡ 0
  pub unread_ok : lib.mutex_init_read ≡ 0
  pub unlocked_ok : lib.mutex_init_write ≡ 0

-- If no call fails and the allocated block has the size that was asked for, initialisation with a
-- positive size returns 0, and the box is valid, empty and of that size.
pub mbox_init-IsValid :
    (lib : Library) (mb : Mbox) (size : ℕ) (block : List ℕ)
    → 0 < size
    → size < 2 ^ 30
    → Succeeds lib
    → lib.malloc (size * 4) ≡ some block
    → size * 4 ≤ 4 * length block
    → let (s, mb') = mbox_init lib mb size in
      (s ≡ done) × IsValid mb' × (contents mb' ≡ []) × (mb'.size ≡ size)
unfolding mbox_init
mbox_init-IsValid lib mb size block pos small ok got room =
    let e : size * 4 % 2 ^ 32 ≡ size * 4 = omega arith in ground (arith, e)

-- a call of the library fails
abbrev pub Fails : Library → Type 0
Fails lib =
    (lib.sem_init_read ≢ 0)
    ⊎ (lib.sem_init_write ≢ 0)
    ⊎ (lib.mutex_init_read ≢ 0)
    ⊎ (lib.mutex_init_write ≢ 0)

-- A call of the library that fails stops initialisation with -1, before any block is allocated.
pub mbox_init-failed :
    (lib : Library) (mb : Mbox) (size : ℕ)
    → Fails lib
    → let (s, mb') = mbox_init lib mb size in (s ≡ failed) × (mb'.messages ≡ mb.messages)
unfolding mbox_init
mbox_init-failed lib mb size bad = ground arith

pub put_seen :
    (o : Option Mbox) {q : List ℕ}
    → seen_put o ≡ some q
    → (mb : Mbox) × (o ≡ some mb) × (contents mb ≡ q)
put_seen none h = cc
put_seen (some mb) h = (mb, refl, some-injective _ _ h)

pub get_seen :
    (o : Option (ℕ × Mbox)) {x : ℕ} {q : List ℕ}
    → seen_get o ≡ some (x, q)
    → (mb : Mbox) × (o ≡ some (x, mb)) × (contents mb ≡ q)
get_seen none h = cc
get_seen (some (y, mb)) h = (mb, ground arith, ground arith)

-- With room, a put returns; then the gets return what the box held, and the new message after it.
pub put_then_get :
    (mb : Mbox) (x : ℕ)
    → IsValid mb
    → mb.sem_read ≡ 0
    → 0 < mb.size
    → (mb' : Mbox) × (mb'' : Mbox) × (mbox_put mb x ≡ some mb') × (mbox_get mb' ≡ some (x, mb''))
unfolding enqueue dequeue
put_then_get mb x v e pos =
    let room : enqueue mb.size (contents mb) x ≡ some (x ∷ []) = rw e (rw (lt→ltb 0 mb.size pos)) in
    let (mb', put, holds) = put_seen (mbox_put mb x) (mbox_put_refines v x ∙ room) in
    let v' = mbox_put-IsValid v x put in
    let (mb'', got, rest) = get_seen (mbox_get mb') (mbox_get_refines v' ∙ ap dequeue holds) in
    (mb', mb'', put, got)
