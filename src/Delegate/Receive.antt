-- ===== src/Delegate/Receive.antt =====
-- `RQ_RECEIVE`: a hardware thread receives a message from a queue.
use reconos_v.Base.{
  ℕ, ◌/◌, ◌^◌, ◌<◌, ◌≤◌, ◌≡◌, refl, ◌≢◌, ◌⊎◌, ◌-◌, true, Option, none, some, List, [], ◌∷◌, ◌++◌,
}
use reconos_v.Base.{arith, length, take, append_assoc, ◌∙◌}
use reconos_v.Kind
use reconos_v.Machine.{Host, Machine, Hwt, Resource, ok, fault, update, update_self}
use reconos_v.Mbox.{Mbox, mbox_get}
use reconos_v.Fsl.{fsl_read}
use reconos_v.Fsl.Link.{IsOpen, fsl_read-ok, fsl_write-ok}
use reconos_v.Rq.{box_get, rq_receive, load}
use reconos_v.Delegate.{cmd_rq_receive, receive_message, answer, dispatch, delegate_step}
use reconos_v.Delegate.Sync.{Names}
use reconos_v.Fsl.{fsl_read}
use reconos_v.Delegate.Words.{reply_words-ok, reply_words-none}

-- what a round of receiving leaves, by the words that it answers and the heap
pub record Received {K : Type 0} (m : Machine K) (slot ptr : ℕ) (out rest : List ℕ)
    (blocks : ℕ → Option (List ℕ)) (mb : Mbox) (u : Machine K) : Type 0 where
  pub told : u.tx slot ≡ m.tx slot ++ out
  pub left : u.rx slot ≡ rest
  pub heap : u.blocks ≡ blocks
  pub taken : u.boxes ≡ update m.boxes ptr mb

module _ {K : Type 0} (host : Host K) (hwt : Hwt) (m : Machine K) (o : IsOpen hwt.slot m.fsl_fd)
    (ptr msg_size size copy msg : ℕ) (ws : List ℕ) (mb : Mbox) (os : K)
    (a : host.malloc msg_size m.os ≡ (msg, os)) (g : mbox_get (m.boxes ptr) ≡ some (copy, mb))
    (b : m.blocks copy ≡ some (size ∷ ws)) where
  -- A message that fits is answered by its size and its words, and its block is freed.
  receive-fits :
      msg ≢ 0
      → 0 < size
      → size ≤ msg_size
      → size / 4 ≤ length ws
      → (u : Machine K) × (receive_message host hwt ptr msg_size m ≡ ok tt u)
        × Received m hwt.slot ptr
            (size ∷ take (size / 4) ws)
            (m.rx hwt.slot)
            (update m.blocks copy none)
            mb
            u
  unfolding receive_message rq_receive box_get load
  receive-fits nm pos le q =
      let tx1 = update m.tx hwt.slot (m.tx hwt.slot ++ (size ∷ [])) in
      let m1 = record m {
        os = os;
        blocks = update m.blocks copy none;
        boxes = update m.boxes ptr mb;
      } in
      let m2 = record m1 { tx = tx1 } in
      let (tx, run, out) = reply_words-ok host hwt (size / 4) ws m2 o q in
      (
        record m2 { tx = tx },
        ground (arith, run, fsl_write-ok host hwt.slot m1 size o),
        record {
          told =
              out
              ∙ rw (update_self m.tx hwt.slot (m.tx hwt.slot ++ (size ∷ [])))
                  (append_assoc (m.tx hwt.slot) (size ∷ []) (take (size / 4) ws));
          left = refl;
          heap = refl;
          taken = refl;
        },
      )

  -- A message that is empty or too long is answered by 0: it has left the queue, and its block
  -- stays on the heap.
  receive-drops :
      (size ≡ 0) ⊎ (msg_size < size)
      → msg_size < 2 ^ 32 - 1
      → (u : Machine K) × (receive_message host hwt ptr msg_size m ≡ ok tt u)
        × Received m hwt.slot ptr (0 ∷ []) (m.rx hwt.slot) m.blocks mb u
  unfolding receive_message rq_receive box_get load answer
  receive-drops no_fit small =
      let m1 = record m { os = os; boxes = update m.boxes ptr mb } in
      (
        record m1 { tx = update m.tx hwt.slot (m.tx hwt.slot ++ (0 ∷ [])) },
        ground (arith, fsl_write-ok host hwt.slot m1 0 o),
        record {
          told = update_self m.tx hwt.slot (m.tx hwt.slot ++ (0 ∷ []));
          left = refl;
          heap = refl;
          taken = refl;
        },
      )

  -- With the largest buffer size the error code -1 passes for a size: the hardware thread is told
  -- that 2^32 - 1 bytes follow, and the words then read were never written.
  receive-overrun :
      size ≡ 0
      → msg_size ≡ 2 ^ 32 - 1
      → (u : Machine K) × (receive_message host hwt ptr msg_size m ≡ fault u)
        × (u.tx hwt.slot ≡ m.tx hwt.slot ++ ((2 ^ 32 - 1) ∷ []))
  unfolding receive_message rq_receive box_get load answer
  receive-overrun empty huge =
      let m1 = record m { os = os; boxes = update m.boxes ptr mb } in
      (
        record m1 { tx = update m.tx hwt.slot (m.tx hwt.slot ++ ((2 ^ 32 - 1) ∷ [])) },
        ground (
          arith,
          fsl_write-ok host hwt.slot m1 (2 ^ 32 - 1) o,
          reply_words-none host hwt ((2 ^ 32 - 1) / 4)
              (record m1 { tx = update m.tx hwt.slot (m.tx hwt.slot ++ ((2 ^ 32 - 1) ∷ [])) })
              (omega arith),
        ),
        update_self m.tx hwt.slot (m.tx hwt.slot ++ ((2 ^ 32 - 1) ∷ [])),
      )

module _ {K : Type 0} (host : Host K) (hwt : Hwt) (m : Machine K) (o : IsOpen hwt.slot m.fsl_fd)
    (h msg_size size copy msg : ℕ) (ws rest : List ℕ) (r : Resource) (mb : Mbox) (os : K)
    (n : Names hwt h r Kind.rq) (e : m.rx hwt.slot ≡ 0xE0 ∷ h ∷ msg_size ∷ rest)
    (a : host.malloc msg_size m.os ≡ (msg, os)) (g : mbox_get (m.boxes r.ptr) ≡ some (copy, mb))
    (b : m.blocks copy ≡ some (size ∷ ws)) where
  -- `RQ_RECEIVE` of a message that fits the buffer: the answer is its size and its words, the oldest
  -- entry leaves the queue and the block is freed.
  pub rq_receive_command :
      msg ≢ 0
      → 0 < size
      → size ≤ msg_size
      → size / 4 ≤ length ws
      → (u : Machine K) × (delegate_step host hwt m ≡ ok true u)
        × Received m hwt.slot r.ptr
            (size ∷ take (size / 4) ws)
            rest
            (update m.blocks copy none)
            mb
            u
  unfolding delegate_step dispatch cmd_rq_receive fsl_read
  rq_receive_command nm pos le q =
      let rx1 = update m.rx hwt.slot (h ∷ msg_size ∷ rest) in
      let rx2 = update rx1 hwt.slot (msg_size ∷ rest) in
      let m' = record m { rx = update rx2 hwt.slot rest } in
      let (u, run, s) =
        receive-fits host hwt m' o r.ptr msg_size size copy msg ws mb os a g b nm pos le q in
      (
        u,
        rw (fsl_read-ok host hwt.slot m 0xE0 (h ∷ msg_size ∷ rest) o e) (ground (arith, run)),
        record {
          told = s.told;
          left = s.left ∙ update_self rx2 hwt.slot rest;
          heap = s.heap;
          taken = s.taken;
        },
      )

  -- `RQ_RECEIVE` of a message that is empty or longer than the buffer, with a buffer of fewer than
  -- 2^32 - 1 bytes: the answer is 0, the message has left the queue all the same, and its block is not
  -- freed.
  pub rq_receive_drops :
      (size ≡ 0) ⊎ (msg_size < size)
      → msg_size < 2 ^ 32 - 1
      → (u : Machine K) × (delegate_step host hwt m ≡ ok true u)
        × Received m hwt.slot r.ptr (0 ∷ []) rest m.blocks mb u
  unfolding delegate_step dispatch cmd_rq_receive fsl_read
  rq_receive_drops no_fit small =
      let rx1 = update m.rx hwt.slot (h ∷ msg_size ∷ rest) in
      let rx2 = update rx1 hwt.slot (msg_size ∷ rest) in
      let m' = record m { rx = update rx2 hwt.slot rest } in
      let (u, run, s) =
        receive-drops host hwt m' o r.ptr msg_size size copy msg ws mb os a g b no_fit small in
      (
        u,
        rw (fsl_read-ok host hwt.slot m 0xE0 (h ∷ msg_size ∷ rest) o e) (ground (arith, run)),
        record {
          told = s.told;
          left = s.left ∙ update_self rx2 hwt.slot rest;
          heap = s.heap;
          taken = s.taken;
        },
      )

  -- `RQ_RECEIVE` with a buffer of 2^32 - 1 bytes and an empty message: the error code passes for a
  -- size, is sent to the hardware, and the words read next are undefined.
  pub rq_receive_overrun :
      size ≡ 0
      → msg_size ≡ 2 ^ 32 - 1
      → (u : Machine K) × (delegate_step host hwt m ≡ fault u)
        × (u.tx hwt.slot ≡ m.tx hwt.slot ++ ((2 ^ 32 - 1) ∷ []))
  unfolding delegate_step dispatch cmd_rq_receive fsl_read
  rq_receive_overrun empty huge =
      let rx1 = update m.rx hwt.slot (h ∷ msg_size ∷ rest) in
      let rx2 = update rx1 hwt.slot (msg_size ∷ rest) in
      let m' = record m { rx = update rx2 hwt.slot rest } in
      let (u, run, told) =
        receive-overrun host hwt m' o r.ptr msg_size size copy msg ws mb os a g b empty huge in
      (
        u,
        rw (fsl_read-ok host hwt.slot m 0xE0 (h ∷ msg_size ∷ rest) o e) (ground (arith, run)),
        told,
      )
