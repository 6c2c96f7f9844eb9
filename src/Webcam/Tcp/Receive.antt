-- ===== src/Webcam/Tcp/Receive.antt =====
-- `tcp_receive` fills its buffer from the stream, in whatever pieces the bytes arrive.
use Prim.Native.Nat.{min}
use reconos_v.Base.{ℕ, zero, suc, ◌+◌, ◌-◌, ◌≤◌, ◌<◌, Option, some, List, [], ◌∷◌, ◌++◌}
use reconos_v.Base.{◌≡◌, refl, ◌∙◌, sym, ap, length, take, drop, replicate, arith, true, false}
use reconos_v.Base.{length-append, append_assoc, ltb, lt→ltb}
use reconos_v.Base.{take-append, drop-append_le, take-append_le, drop-replicate}
use reconos_v.Webcam.Socket.{Event, IsClean, stream, store, sock_read, sock_read-Got}
use reconos_v.Webcam.Tcp.{Received, receive_loop, tcp_receive}
use mathlib.Core.Path.{ap₂, subst}

-- The outcome of a reception that has `got` already and `left` bytes to go, from a stream.
pub record Delivered (got : List ℕ) (left : ℕ) (bytes : List ℕ) (r : Option Received) : Type 0 where
  pub out : Received
  pub result : r ≡ some out
  pub counted : out.ret ≡ some (length got + min left (length bytes))
  pub filled : out.buf ≡ got ++ (take left bytes ++ replicate (left - length bytes) 0)
  pub coming : stream out.events ≡ drop left bytes

-- One more piece in front of the rest of the stream.
Delivered-cons :
    {got : List ℕ} (piece : List ℕ) {left : ℕ} (bytes : List ℕ) {r : Option Received}
    → length piece ≤ left
    → Delivered (got ++ piece) (left - length piece) bytes r
    → Delivered got left (piece ++ bytes) r
Delivered-cons {got} piece {left} bytes le d = record {
  out = d.out;
  result = d.result;
  counted = d.counted ∙ ap some (count (length-append got piece) (length-append piece bytes));
  filled =
      d.filled
      ∙ append_assoc got piece
          (take (left - length piece) bytes ++ replicate (left - length piece - length bytes) 0)
      ∙ ap (λ l. got ++ l)
          (sym (
            append_assoc piece (take (left - length piece) bytes)
              (replicate (left - length piece - length bytes) 0)))
      ∙ ap₂ (λ l n. got ++ (l ++ replicate n 0)) (sym (take-append_le piece bytes le))
          (omega (arith, length-append piece bytes));
  coming = d.coming ∙ sym (drop-append_le piece bytes le);
}
  where
    count :
        {n m : ℕ}
        → n ≡ length got + length piece
        → m ≡ length piece + length bytes
        → n + min (left - length piece) (length bytes) ≡ length got + min left m
    count e e' = omega arith

store-zeros :
    (got piece : List ℕ) (left : ℕ)
    → length piece ≤ left
    → store (length got) piece (got ++ replicate left 0)
      ≡ (got ++ piece) ++ replicate (left - length piece) 0
store-zeros got piece left le =
    ap₂ (λ l m. l ++ (piece ++ m)) (take-append got (replicate left 0) refl) zeros
    ∙ sym (append_assoc got piece (replicate (left - length piece) 0))
  where
    zeros :
        drop (length got + length piece) (got ++ replicate left 0)
        ≡ replicate (left - length piece) 0
    zeros =
        drop-append_le got (replicate left 0) (omega arith)
        ∙ ap (λ n. drop n (replicate left 0)) (omega arith)
        ∙ drop-replicate (length piece) left 0

module _ (fuel b len : ℕ) (events : List Event) {rest : List Event} (buf : List ℕ) (recvd : ℕ) where
  read_closed :
      ltb recvd len ≡ true
      → sock_read (min (len - recvd) b) events ≡ (some [], rest)
      → receive_loop (suc fuel) b len events buf recvd
        ≡ some record { ret = some recvd; buf = buf; events = rest }
  unfolding receive_loop
  read_closed lt r = rw (lt, r) refl

  read_piece :
      {x : ℕ} {xs : List ℕ}
      → ltb recvd len ≡ true
      → sock_read (min (len - recvd) b) events ≡ (some (x ∷ xs), rest)
      → receive_loop (suc fuel) b len events buf recvd
        ≡ receive_loop fuel b len rest (store recvd (x ∷ xs) buf) (recvd + length (x ∷ xs))
  unfolding receive_loop
  read_piece lt r = rw (lt, r) refl

-- The read of a piece, and the reception of the rest.
module _ (fuel b left : ℕ) (events : List Event) (got : List ℕ) (len : ℕ)
    (e : len ≡ length got + suc left) where
  more : ltb (length got) len ≡ true
  more = lt→ltb (length got) len (omega arith)

  read-Delivered :
      (bytes : List ℕ) (rest : List Event)
      → sock_read (min (len - length got) b) events ≡ (some bytes, rest)
      → stream events ≡ bytes ++ stream rest
      → length bytes ≤ suc left
      → (bytes ≡ [] → stream events ≡ [])
      → ((got' : List ℕ) (left' : ℕ)
          → left' < suc left
          → len ≡ length got' + left'
          → Delivered got' left'
              (stream rest)
              (receive_loop fuel b len rest (got' ++ replicate left' 0) (length got')))
      → Delivered got
          (suc left)
          (stream events)
          (receive_loop (suc fuel) b len events (got ++ replicate (suc left) 0) (length got))
  read-Delivered [] rest r split bound closed onwards =
      subst
        (λ s.
          Delivered got (suc left) s
            (receive_loop (suc fuel) b len events (got ++ replicate (suc left) 0) (length got)))
        (sym (closed refl))
        record {
          out = record {
            ret = some (length got);
            buf = got ++ replicate (suc left) 0;
            events = rest;
          };
          result =
              read_closed fuel b len events (got ++ replicate (suc left) 0) (length got) more r;
          counted = ap some (omega arith);
          filled = ap (λ n. got ++ replicate n 0) zero_sub;
          coming = sym split ∙ closed refl;
        }
    where
      zero_sub : suc left ≡ suc left - 0
      zero_sub = omega arith
  read-Delivered (x ∷ xs) rest r split bound closed onwards =
      subst
        (λ s.
          Delivered got (suc left) s
            (receive_loop (suc fuel) b len events (got ++ replicate (suc left) 0) (length got)))
        (sym split)
        (Delivered-cons (x ∷ xs) (stream rest) bound (
          subst (Delivered (got ++ (x ∷ xs)) (suc left - length (x ∷ xs)) (stream rest)) (sym step)
            (onwards (got ++ (x ∷ xs)) (suc left - length (x ∷ xs)) (omega arith)
              (omega (arith, length-append got (x ∷ xs))))))
    where
      step :
          receive_loop (suc fuel) b len events (got ++ replicate (suc left) 0) (length got)
          ≡ receive_loop fuel b len rest
              ((got ++ (x ∷ xs)) ++ replicate (suc left - length (x ∷ xs)) 0)
              (length (got ++ (x ∷ xs)))
      step =
          read_piece fuel b len events (got ++ replicate (suc left) 0) (length got) more r
          ∙ ap₂ (receive_loop fuel b len rest) (store-zeros got (x ∷ xs) (suc left) bound)
              (sym (length-append got (x ∷ xs)))

module _ (b : ℕ) (pos : 0 < b) where
  receive_loop-Delivered :
      (fuel left : ℕ) (events : List Event) (got : List ℕ) (len : ℕ)
      → left < fuel
      → IsClean events
      → len ≡ length got + left
      → Delivered got left
          (stream events)
          (receive_loop fuel b len events (got ++ replicate left 0) (length got))
  unfolding receive_loop
  receive_loop-Delivered zero left events got len enough clean e = absurd (omega arith)
  receive_loop-Delivered (suc fuel) zero events got len enough clean e = record {
    out = record { ret = some (length got); buf = got ++ []; events = events };
    result = rw (full (omega arith)) refl;
    counted = ap some (omega arith);
    filled = ap (λ n. got ++ replicate n 0) zero_sub;
    coming = refl;
  }
    where
      full : len ≤ length got → ltb (length got) len ≡ false
      full h = ground arith

      zero_sub : 0 ≡ 0 - length (stream events)
      zero_sub = omega arith
  receive_loop-Delivered (suc fuel) (suc left) events got len enough clean e =
      let g = sock_read-Got (min (len - length got) b) events (omega arith) clean in
      read-Delivered fuel b left events got len e g.bytes g.rest g.result g.split
        (omega (arith, g.bound)) g.closed
        λ got' left' lt e'.
          receive_loop-Delivered fuel left' g.rest got' len (omega arith) g.clean e'

  pub tcp_receive-Delivered :
      (events : List Event) (len : ℕ)
      → IsClean events
      → Delivered [] len (stream events) (tcp_receive (len + 1) b events len)
  unfolding tcp_receive
  tcp_receive-Delivered events len clean =
      receive_loop-Delivered (len + 1) len events [] len (omega arith) clean (omega arith)
