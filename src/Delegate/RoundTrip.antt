-- ===== src/Delegate/RoundTrip.antt =====
-- A message that one round of a delegate thread sends is the one that the next round receives.
use reconos_v.Base.{
  ℕ, ◌+◌, ◌/◌, ◌^◌, ◌<◌, ◌≤◌, ◌≡◌, refl, ◌≢◌, true, none, some, List, [], ◌∷◌, ◌++◌,
}
use reconos_v.Base.{arith, length, ap}
use reconos_v.Base.{take-all}
use reconos_v.Kind
use reconos_v.Machine.{Host, Machine, Hwt, Resource, ok, update, update_self}
use reconos_v.Mbox.Refine.{IsValid, put_then_get}
use reconos_v.Fsl.Link.{IsOpen}
use reconos_v.Delegate.{delegate_loop}
use reconos_v.Delegate.Sync.{Names}
use reconos_v.Delegate.Send.{rq_send_command}
use reconos_v.Delegate.Receive.{rq_receive_command}

-- what holds after both rounds
pub record Passed {K : Type 0} (m : Machine K) (slot copy size : ℕ) (ws rest : List ℕ)
    (u : Machine K) : Type 0 where
  pub told : u.tx slot ≡ (m.tx slot ++ (0 ∷ [])) ++ (size ∷ ws)
  pub left : u.rx slot ≡ rest
  pub freed : u.blocks ≡ update (update m.blocks copy (some (size ∷ ws))) copy none

module _ {K : Type 0} (host : Host K) (hwt : Hwt) (m : Machine K) (o : IsOpen hwt.slot m.fsl_fd)
    (h size msg copy buffer msg_size : ℕ) (ws rest : List ℕ) (r : Resource) (os : K) where
  -- Two rounds, `RQ_SEND` of a message and `RQ_RECEIVE` with a buffer that it fits, on a valid
  -- empty queue and with memory: both go through, and the answers are 0, then the size and exactly
  -- the words of the message; the block on the heap is gone.
  pub send_then_receive :
      Names hwt h r Kind.rq
      → m.rx hwt.slot ≡ 0xE1 ∷ h ∷ size ∷ (ws ++ 0xE0 ∷ h ∷ msg_size ∷ rest)
      → size / 4 ≡ length ws
      → size + 4 < 2 ^ 32
      → 0 < size
      → size ≤ msg_size
      → IsValid (m.boxes r.ptr)
      → (m.boxes r.ptr).sem_read ≡ 0
      → 0 < (m.boxes r.ptr).size
      → host.malloc size m.os ≡ (msg, os)
      → msg ≢ 0
      → (host.malloc (size + 4) os).0 ≡ copy
      → copy ≢ 0
      → ((n : ℕ) (k : K) → (host.malloc n k).0 ≢ 0)
      → (u : Machine K) × (delegate_loop host hwt 2 m ≡ ok true u)
        × Passed m hwt.slot copy size ws rest u
  unfolding delegate_loop
  send_then_receive n e q small pos fit v empty room a nm c nc memory =
      let (mb, mb2, put, got) = put_then_get (m.boxes r.ptr) copy v empty room in
      let os2 = (host.malloc (size + 4) os).1 in
      let (u, run, s) =
        rq_send_command host hwt m h size msg copy ws (0xE0 ∷ h ∷ msg_size ∷ rest) r mb os os2 o n e
          q small a nm (ap (λ p. (p, os2)) c) nc put in
      let (w, run2, s2) =
        rq_receive_command host hwt u (rw s.links o) h msg_size size copy
          (host.malloc msg_size u.os).0 ws rest r mb2 (host.malloc msg_size u.os).1 n s.left refl
          (rw (s.posted, update_self m.boxes r.ptr mb) got)
          (rw s.stored (update_self m.blocks copy (some (size ∷ ws)))) (memory msg_size u.os) pos
          fit (omega arith) in
      (
        w,
        ground (arith, run, run2),
        record {
          told = rw (s2.told, s.told, q, take-all (length ws) ws (omega arith));
          left = s2.left;
          freed = rw (s2.heap, s.stored);
        },
      )
