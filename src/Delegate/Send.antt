-- ===== src/Delegate/Send.antt =====
-- `RQ_SEND`: a hardware thread sends a message to a queue.
use reconos_v.Base.{ℕ, ◌+◌, ◌/◌, ◌%◌, ◌^◌, ◌<◌, ◌≡◌, refl, ◌≢◌, true, some, List, [], ◌∷◌, ◌++◌}
use reconos_v.Base.{arith, length}
use reconos_v.Base.{take-all}
use reconos_v.Kind
use reconos_v.Machine.{Host, Machine, Hwt, Resource, ok, update, update_self}
use reconos_v.Mbox.{Mbox, mbox_put}
use reconos_v.Fsl.{fsl_read}
use reconos_v.Fsl.Link.{IsOpen, fsl_read-ok, fsl_write-ok}
use reconos_v.Rq.{rq_send}
use reconos_v.Delegate.{cmd_rq_send, send_message, dispatch, delegate_step}
use reconos_v.Delegate.Sync.{Names}
use reconos_v.Delegate.Words.{read_words-ok}

-- what a round of sending leaves: a copy at `copy`, its address in the box `mb`
pub record Sent {K : Type 0} (m : Machine K) (slot ptr copy size : ℕ) (ws rest : List ℕ) (mb : Mbox)
    (u : Machine K) : Type 0 where
  pub told : u.tx slot ≡ m.tx slot ++ (0 ∷ [])
  pub left : u.rx slot ≡ rest
  pub stored : u.blocks ≡ update m.blocks copy (some (size ∷ ws))
  pub posted : u.boxes ≡ update m.boxes ptr mb
  pub links : u.fsl_fd ≡ m.fsl_fd

module _ {K : Type 0} (host : Host K) (hwt : Hwt) where
  rq_send-ok :
      (ptr size copy : ℕ) (ws : List ℕ) (mb : Mbox) (m : Machine K) (os : K)
      → size / 4 ≡ length ws
      → size + 4 < 2 ^ 32
      → host.malloc (size + 4) m.os ≡ (copy, os)
      → copy ≢ 0
      → mbox_put (m.boxes ptr) copy ≡ some mb
      → rq_send host ptr ws size m
        ≡ ok tt (record m {
          os = os;
          blocks = update m.blocks copy (some (size ∷ ws));
          boxes = update m.boxes ptr mb;
        })
  unfolding rq_send
  rq_send-ok ptr size copy ws mb m os q small e ne p =
      let e' : (size + 4) % 2 ^ 32 ≡ size + 4 = omega arith in
      rw (e', q, take-all (length ws) ws (omega arith)) (ground arith)

  send_message-ok :
      (ptr size msg copy : ℕ) (ws rest : List ℕ) (mb : Mbox) (m : Machine K) (os : K)
      → IsOpen hwt.slot m.fsl_fd
      → m.rx hwt.slot ≡ ws ++ rest
      → msg ≢ 0
      → size / 4 ≡ length ws
      → size + 4 < 2 ^ 32
      → host.malloc (size + 4) m.os ≡ (copy, os)
      → copy ≢ 0
      → mbox_put (m.boxes ptr) copy ≡ some mb
      → (u : Machine K) × (send_message host hwt ptr size msg m ≡ ok tt u)
        × Sent m hwt.slot ptr copy size ws rest mb u
  unfolding send_message
  send_message-ok ptr size msg copy ws rest mb m os o e ne q small c nc p =
      let (rx, run, left) = read_words-ok host hwt ws rest m o e in
      let u = record m {
        rx = rx;
        os = os;
        blocks = update m.blocks copy (some (size ∷ ws));
        boxes = update m.boxes ptr mb;
      } in
      (
        record u { tx = update m.tx hwt.slot (m.tx hwt.slot ++ (0 ∷ [])) },
        ground (
          arith,
          run,
          rq_send-ok ptr size copy ws mb (record m { rx = rx }) os,
          fsl_write-ok host hwt.slot u 0 o,
        ),
        record {
          told = update_self m.tx hwt.slot (m.tx hwt.slot ++ (0 ∷ []));
          left = left;
          stored = refl;
          posted = refl;
          links = refl;
        },
      )

  -- `RQ_SEND`: the words of the message are read from the link and stored in a fresh block behind
  -- their size, the block's address goes into the queue's box, and the answer is 0. It is assumed
  -- that memory is there and that the box has room.
  pub rq_send_command :
      (m : Machine K) (h size msg copy : ℕ) (ws rest : List ℕ) (r : Resource) (mb : Mbox)
      (os os' : K)
      → IsOpen hwt.slot m.fsl_fd
      → Names hwt h r Kind.rq
      → m.rx hwt.slot ≡ 0xE1 ∷ h ∷ size ∷ (ws ++ rest)
      → size / 4 ≡ length ws
      → size + 4 < 2 ^ 32
      → host.malloc size m.os ≡ (msg, os)
      → msg ≢ 0
      → host.malloc (size + 4) os ≡ (copy, os')
      → copy ≢ 0
      → mbox_put (m.boxes r.ptr) copy ≡ some mb
      → (u : Machine K) × (delegate_step host hwt m ≡ ok true u)
        × Sent m hwt.slot r.ptr copy size ws rest mb u
  unfolding delegate_step dispatch cmd_rq_send fsl_read
  rq_send_command m h size msg copy ws rest r mb os os' o n e q small a nm c nc p =
      let rx1 = update m.rx hwt.slot (h ∷ size ∷ (ws ++ rest)) in
      let rx2 = update rx1 hwt.slot (size ∷ (ws ++ rest)) in
      let m' = record m { rx = update rx2 hwt.slot (ws ++ rest); os = os } in
      let (u, run, s) =
        send_message-ok r.ptr size msg copy ws rest mb m' os' o
          (update_self rx2 hwt.slot (ws ++ rest)) nm q small c nc p in
      (
        u,
        rw (fsl_read-ok host hwt.slot m 0xE1 (h ∷ size ∷ (ws ++ rest)) o e) (ground (arith, run)),
        record {
          told = s.told;
          left = s.left;
          stored = s.stored;
          posted = s.posted;
          links = s.links;
        },
      )
