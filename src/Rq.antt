-- ===== src/Rq.antt =====
-- Message queues, linux/libreconos/rq.c, on the message boxes of the machine. A message is stored
-- as a block on the heap, its size in bytes before its words, and the box carries the address. Of
-- a size that is no multiple of four the last bytes are left out.
use reconos_v.Base.{ℕ, ◌+◌, ◌-◌, ◌/◌, ◌%◌, ◌^◌, Option, none, some, List, [], ◌∷◌, ◌||◌}
use reconos_v.Base.{ltb, leb, ◌==◌, if◌then◌else◌, take}
use reconos_v.Mbox.{mbox_put, mbox_get}
use reconos_v.Machine.{Host, Cmd, ok, blocked, fault, pure}
use reconos_v.Machine.{◌>>=◌, ◌>>◌, update}

abbrev pub head_word : List ℕ → ℕ
head_word [] = 0
head_word (w ∷ ws) = w

abbrev pub body : List ℕ → List ℕ
body [] = []
body (w ∷ ws) = ws

-- -1, as the caller's `uint32` reads it
abbrev pub minus_one : ℕ
minus_one = 2 ^ 32 - 1

module _ {K : Type 0} where
  -- `mbox_put(ptr, msg)` and `mbox_get(ptr)` on the box at an address
  unfoldable pub box_put : ℕ → ℕ → Cmd K (Unit {0})
  box_put ptr msg m = elim (mbox_put (m.boxes ptr) msg) [
    | none ↦ blocked m
    | some mb ↦ ok tt (record m { boxes = update m.boxes ptr mb })
  ]

  unfoldable pub box_get : ℕ → Cmd K ℕ
  box_get ptr m = elim (mbox_get (m.boxes ptr)) [
    | none ↦ blocked m
    | some (msg, mb) ↦ ok msg (record m { boxes = update m.boxes ptr mb })
  ]

  unfoldable pub load : ℕ → Cmd K (List ℕ)
  load p m = elim (m.blocks p) [ none ↦ fault m | some block ↦ ok block m ]

  abbrev pub store : ℕ → Option (List ℕ) → Cmd K (Unit {0})
  store p block m = ok tt (record m { blocks = update m.blocks p block })

  -- The result, and the words that were copied to `msg`, if any were. `msg` is the address of the
  -- caller's buffer, 0 for a null pointer.
  unfoldable pub rq_receive : ℕ → (msg msg_size : ℕ) → Cmd K (ℕ × Option (List ℕ))
  unfolding box_get load
  rq_receive rq msg msg_size = do
    copy ← box_get rq
    block ← load copy
    let size = head_word block
    if size == 0 || ltb msg_size size
        then pure (minus_one, none)
        else if msg == 0
        then fault
        else store copy none >> pure (size, some (body block))

module _ {K : Type 0} (host : Host K) where
  abbrev pub malloc : ℕ → Cmd K ℕ
  malloc n m = let (p, os) = host.malloc n m.os in ok p (record m { os = os })

  -- The result of `malloc` is not tested: a null pointer faults, and so does a size at which the
  -- addition wraps, since the copy then leaves the block.
  unfoldable pub rq_send : ℕ → List ℕ → ℕ → Cmd K (Unit {0})
  unfolding box_put
  rq_send rq msg msg_size = do
    copy ← malloc ((msg_size + 4) % 2 ^ 32)
    if copy == 0 || leb (2 ^ 32) (msg_size + 4)
        then fault
        else store copy (some (msg_size ∷ take (msg_size / 4) msg)) >> box_put rq copy
