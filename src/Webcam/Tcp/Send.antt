-- ===== src/Webcam/Tcp/Send.antt =====
-- `tcp_send` puts its buffer on the wire, however much each write takes; what is sent is received.
use Prim.Native.Nat.{min}
use reconos_v.Base.{ℕ, zero, suc, ◌+◌, ◌-◌, ◌≤◌, ◌<◌, Option, some, List, [], ◌∷◌, ◌++◌}
use reconos_v.Base.{◌≡◌, ◌∙◌, sym, ap, length, take, drop, replicate, arith, false}
use reconos_v.Base.{append_assoc, append-nil, ltb, lt→ltb}
use reconos_v.Base.{length-drop, take-append-drop, take-all}
use reconos_v.Webcam.Socket.{Event, IsClean, stream}
use reconos_v.Webcam.Tcp.{Received, Takes, tcp_receive, send_loop, tcp_send}
use mathlib.Core.Path.{ap₂}
use mathlib.Core.Option.{some-injective}
use reconos_v.Webcam.Tcp.Receive.{tcp_receive-Delivered}

-- Every call of `write` takes at least a byte.
abbrev pub Progresses : Takes → Type 0
Progresses takes = (call : ℕ) → (k : ℕ) × (takes call ≡ some (suc k))

module _ (b : ℕ) (pos : 0 < b) {takes : Takes} (progresses : Progresses takes) where
  send_loop-all :
      (fuel call len : ℕ) (rest : List ℕ) (sent : ℕ) (wire : List ℕ)
      → length rest < fuel
      → sent + length rest ≡ len
      → send_loop fuel b takes call len rest sent wire ≡ some (some len, wire ++ rest)
  unfolding send_loop
  send_loop-all zero call len rest sent wire enough e = absurd (omega arith)
  send_loop-all (suc fuel) call len [] sent wire enough e =
      rw (full (omega arith), append-nil wire) (ap (λ n. some (some n, wire)) (omega arith))
    where
      full : len ≤ sent → ltb sent len ≡ false
      full h = ground arith
  send_loop-all (suc fuel) call len (x ∷ rest) sent wire enough e =
      let (k, takes_k) = progresses call in
      let n = min (suc k) (min (len - sent) b) in
      rw (lt→ltb sent len (omega arith), takes_k)
        (send_loop-all fuel (call + 1) len (drop n (x ∷ rest)) (sent + n)
            (wire ++ take n (x ∷ rest)) (omega (arith, length-drop n (x ∷ rest)))
            (omega (arith, length-drop n (x ∷ rest)))
          ∙ ap (λ l. some (some len, l))
              (append_assoc wire (take n (x ∷ rest)) (drop n (x ∷ rest))
                ∙ ap (λ l. wire ++ l) (take-append-drop n (x ∷ rest))))

  -- If every write takes at least a byte, `tcp_send` ends within `len + 1` turns, returns the length
  -- of its buffer, and has put the buffer on the wire.
  pub tcp_send-all :
      (buf : List ℕ)
      → tcp_send (length buf + 1) b takes buf (length buf) ≡ some (some (length buf), buf)
  unfolding tcp_send
  tcp_send-all buf =
      send_loop-all (length buf + 1) 0 (length buf) buf 0 [] (omega arith) (omega arith)

  -- If every write takes at least a byte, and the block sizes of both sides are not 0: when `tcp_send` of a buffer has ended, and its wire is the
  -- stream that arrives at a connection whose reads do not fail, `tcp_receive` of as many bytes returns their number with the same buffer.
  pub sent_is_received :
      (c : ℕ) (buf : List ℕ) (events : List Event) {ret : Option ℕ} {wire : List ℕ}
      → 0 < c
      → tcp_send (length buf + 1) b takes buf (length buf) ≡ some (ret, wire)
      → stream events ≡ wire
      → IsClean events
      → (out : Received) × (tcp_receive (length buf + 1) c events (length buf) ≡ some out)
        × (out.ret ≡ some (length buf))
        × (out.buf ≡ buf)
  sent_is_received c buf events posc sends arrives clean =
      let d = tcp_receive-Delivered c posc events (length buf) clean in
      let arrived : stream events ≡ buf =
        arrives ∙ ap (λ p. p.1) (some-injective _ _ (sym sends ∙ tcp_send-all buf)) in
      (
        d.out,
        d.result,
        d.counted ∙ ap some (whole (ap length arrived)),
        d.filled
            ∙ ap (λ l. take (length buf) l ++ replicate (length buf - length l) 0) arrived
            ∙ ap₂ (λ l n. l ++ replicate n 0) (take-all (length buf) buf (omega arith))
                (none_left (length buf))
            ∙ append-nil buf,
      )
    where
      whole : {n : ℕ} → n ≡ length buf → 0 + min (length buf) n ≡ length buf
      whole e = omega arith

      none_left : (n : ℕ) → n - n ≡ 0
      none_left n = omega arith
