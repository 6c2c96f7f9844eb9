-- ===== src/Webcam/Tcp.antt =====
-- demos/webcam/gui/src/tcp_connection.c: a connection sends and receives in blocks of `blocksize`
-- bytes. Lengths are below 2^31, so that the `int` counters do not overflow.
pub mod Receive
pub mod Send
use Prim.Native.Nat.{min}
use reconos_v.Base.{ℕ, zero, suc, ◌+◌, ◌-◌, Option, none, some, List, [], ◌∷◌, ◌++◌, length, take}
use reconos_v.Base.{drop, replicate, if◌then◌else◌, ltb, Bool, true, false}
use reconos_v.Webcam.Socket.{Event, sock_read, store}

-- What `tcp_receive` returns, `none` for -1, with the buffer and what is still to come.
pub record Received : Type 0 where
  pub ret : Option ℕ
  pub buf : List ℕ
  pub events : List Event

-- The bytes of a read, the test for more, and what the loop returns without more.
abbrev pub bytes_read : Option (List ℕ) → List ℕ
bytes_read none = []
bytes_read (some bytes) = bytes

abbrev pub goes_on : Option (List ℕ) → Bool
goes_on none = false
goes_on (some []) = false
goes_on (some (b ∷ bs)) = true

abbrev pub stopped : Option (List ℕ) → ℕ → Option ℕ
stopped none recvd = none
stopped (some bytes) recvd = some recvd

-- The loop of `tcp_receive`; the first argument bounds the number of reads.
unfoldable pub receive_loop :
    (fuel blocksize len : ℕ) (events : List Event) (buf : List ℕ) (recvd : ℕ) → Option Received
receive_loop zero blocksize len events buf recvd = none
receive_loop (suc fuel) blocksize len events buf recvd =
    let (n, rest) = sock_read (min (len - recvd) blocksize) events in
    let bytes = bytes_read n in
    let again =
      receive_loop fuel blocksize len rest (store recvd bytes buf) (recvd + length bytes) in
    let stop = some record { ret = stopped n recvd; buf = buf; events = rest } in
    if ltb recvd len
    then (if goes_on n then again else stop)
    else some record { ret = some recvd; buf = buf; events = events }

unfoldable pub tcp_receive : (fuel blocksize : ℕ) (events : List Event) (len : ℕ) → Option Received
tcp_receive fuel blocksize events len = receive_loop fuel blocksize len events (replicate len 0) 0

-- How much a call of `write` takes of what it is given: `none` is -1.
abbrev pub Takes : Type 0
Takes = (call : ℕ) → Option ℕ

abbrev pub taken : Option ℕ → ℕ → ℕ
taken none asked = 0
taken (some k) asked = min k asked

abbrev pub is_error : Option ℕ → Bool
is_error none = true
is_error (some k) = false

-- The loop of `tcp_send`: its result and what it put on the wire. `rest` is the buffer from `sent` on.
unfoldable pub send_loop :
    (fuel blocksize : ℕ)
    → Takes
    → (call len : ℕ) (rest : List ℕ) (sent : ℕ) (wire : List ℕ) → Option (Option ℕ × List ℕ)
send_loop zero blocksize takes call len rest sent wire = none
send_loop (suc fuel) blocksize takes call len rest sent wire =
    let n = taken (takes call) (min (len - sent) blocksize) in
    let again =
      send_loop fuel blocksize takes (call + 1) len (drop n rest) (sent + n)
        (wire ++ take n rest) in
    if ltb sent len
    then (if is_error (takes call) then some (none, wire) else again)
    else some (some sent, wire)

unfoldable pub tcp_send :
    (fuel blocksize : ℕ) → Takes → (buf : List ℕ) (len : ℕ) → Option (Option ℕ × List ℕ)
tcp_send fuel blocksize takes buf len = send_loop fuel blocksize takes 0 len buf 0 []
