-- ===== src/Webcam/Ethernet.antt =====
-- demos/webcam/linux/ethernet.c: reading and writing whole frames, and the frame buffer.
use reconos_v.Base.{ℕ, zero, suc, ◌+◌, ◌*◌, ◌-◌, ◌/◌, ◌%◌, ◌≤◌, ◌<◌, Option, none, some, Bool, true}
use reconos_v.Base.{List, [], ◌∷◌, ◌++◌, ◌≡◌, refl, ◌∙◌, sym, ap, length, take, drop, arith, false}
use reconos_v.Base.{if◌then◌else◌, ◌==◌, append_assoc, append-nil, length-append, length-drop}
use reconos_v.Base.{take-append_le, drop-append_le, take-append-drop}
use reconos_v.Webcam.Socket.{Event, IsClean, stream, sock_read, Got, sock_read-Got}
use reconos_v.Webcam.Tcp.{bytes_read, is_error, taken, Takes}
use reconos_v.Webcam.Tcp.Send.{Progresses}
use mathlib.Core.Path.{subst}
use Prim.Native.Nat.{min}

abbrev pub failed_read : Option (List ℕ) → Bool
failed_read none = true
failed_read (some bytes) = false

-- `true` is 1. The bytes are those stored from `buf` on.
pub record Read : Type 0 where
  pub ok : Bool
  pub bytes : List ℕ
  pub events : List Event

-- The loop of `tcp_read_2`; the first argument bounds the number of reads.
unfoldable pub read_loop : (fuel len : ℕ) → List Event → (bytes : List ℕ) → Option Read
read_loop zero len events bytes = none
read_loop (suc fuel) len events bytes =
    let (result, rest) = sock_read len events in
    let piece = bytes_read result in
    let again = read_loop fuel (len - length piece) rest (bytes ++ piece) in
    let error = some record { ok = false; bytes = bytes; events = rest } in
    if len == 0
    then some record { ok = true; bytes = bytes; events = events }
    else (if failed_read result then error else again)

unfoldable pub tcp_read_2 : (fuel : ℕ) → List Event → (len : ℕ) → Option Read
tcp_read_2 fuel events len = read_loop fuel len events []

-- The loop of `tcp_write_2`: its result and what it put on the wire.
unfoldable pub write_loop :
    (fuel : ℕ) → Takes → (call : ℕ) (rest wire : List ℕ) (len : ℕ) → Option (Bool × List ℕ)
write_loop zero takes call rest wire len = none
write_loop (suc fuel) takes call rest wire len =
    let n = taken (takes call) len in
    let again = write_loop fuel takes (call + 1) (drop n rest) (wire ++ take n rest) (len - n) in
    if len == 0
    then some (true, wire)
    else (if is_error (takes call) then some (false, wire) else again)

unfoldable pub tcp_write_2 : (fuel : ℕ) → Takes → (buf : List ℕ) (len : ℕ) → Option (Bool × List ℕ)
tcp_write_2 fuel takes buf len = write_loop fuel takes 0 buf [] len

-- Bytes of a frame, in `read_frame` and `write_frame`
abbrev pub frame_size : (width height depth channels : ℕ) → ℕ
frame_size width height depth channels = width * height * (depth / 8) * (channels + 1)

-- Where `establish_connection` lets the frame buffer start in the block that `malloc` returned.
unfoldable pub framebuffer_start : (block : ℕ) → ℕ
framebuffer_start block = block / 4096 * 4096

read_loop-step :
    (fuel len : ℕ) (events : List Event) (bytes : List ℕ) {piece : List ℕ} {rest : List Event}
    → 0 < len
    → sock_read len events ≡ (some piece, rest)
    → read_loop (suc fuel) len events bytes
      ≡ read_loop fuel (len - length piece) rest (bytes ++ piece)
unfolding read_loop
read_loop-step fuel len events bytes pos r = rw (nonzero, r) refl
  where
    nonzero : (len == 0) ≡ false
    nonzero = ground arith

nonempty : (l : List ℕ) → (l ≡ [] → ⊥) → 0 < length l
nonempty [] h = absurd (h refl)
nonempty (x ∷ l) h = omega arith

-- While the peer has something to send, a read gets some of it.
Got-nonempty :
    {n : ℕ} {events : List Event} (g : Got n events)
    → 0 < length (stream events)
    → 0 < length g.bytes
Got-nonempty g has = nonempty g.bytes λ e. empty (ap length (g.closed e)) has
  where
    empty : {n : ℕ} → n ≡ 0 → 0 < n → ⊥
    empty e h = omega arith

-- A reception of `len` more bytes behind `bytes`, from a stream that has them.
record Complete (bytes s : List ℕ) (len : ℕ) (r : Option Read) : Type 0 where
  pub rest : List Event
  pub result : r ≡ some record { ok = true; bytes = bytes ++ take len s; events = rest }
  pub coming : stream rest ≡ drop len s
  pub clean : IsClean rest

Complete-cons :
    {bytes : List ℕ} (piece : List ℕ) {s : List ℕ} {len : ℕ} {r : Option Read}
    → length piece ≤ len
    → Complete (bytes ++ piece) s (len - length piece) r
    → Complete bytes (piece ++ s) len r
Complete-cons {bytes} piece {s} {len} le c = record {
  rest = c.rest;
  result =
      c.result
      ∙ ap (λ l. some record { ok = true; bytes = l; events = c.rest })
          (append_assoc bytes piece (take (len - length piece) s)
            ∙ ap (λ l. bytes ++ l) (sym (take-append_le piece s le)));
  coming = c.coming ∙ sym (drop-append_le piece s le);
  clean = c.clean;
}

read_loop-Complete :
    (fuel len : ℕ) (events : List Event) (bytes : List ℕ)
    → len < fuel
    → IsClean events
    → len ≤ length (stream events)
    → Complete bytes (stream events) len (read_loop fuel len events bytes)
unfolding read_loop
read_loop-Complete zero len events bytes enough clean has = absurd (omega arith)
read_loop-Complete (suc fuel) zero events bytes enough clean has = record {
  rest = events;
  result = ap (λ l. some record { ok = true; bytes = l; events = events }) (sym (append-nil bytes));
  coming = refl;
  clean = clean;
}
read_loop-Complete (suc fuel) (suc len) events bytes enough clean has =
    let g = sock_read-Got (suc len) events (omega arith) clean in
    let got = Got-nonempty g (omega arith) in
    subst (λ s. Complete bytes s (suc len) (read_loop (suc fuel) (suc len) events bytes))
      (sym g.split)
      (Complete-cons g.bytes g.bound (
        subst (Complete (bytes ++ g.bytes) (stream g.rest) (suc len - length g.bytes))
          (sym (read_loop-step fuel (suc len) events bytes (omega arith) g.result))
          (read_loop-Complete fuel (suc len - length g.bytes) g.rest (bytes ++ g.bytes)
            (omega (arith, got)) g.clean
            (omega (arith, ap length g.split, length-append g.bytes (stream g.rest), g.bound)))))

-- If no read fails and the peer sends at least `len` bytes, `tcp_read_2` returns 1 within `len + 1`
-- reads with the first `len` bytes, and the rest of the stream is still to come.
pub tcp_read_2-Complete :
    (events : List Event) (len : ℕ)
    → IsClean events
    → len ≤ length (stream events)
    → (rest : List Event) × (tcp_read_2 (len + 1) events len
        ≡ some record { ok = true; bytes = take len (stream events); events = rest })
      × (stream rest ≡ drop len (stream events))
      × IsClean rest
unfolding tcp_read_2
tcp_read_2-Complete events len clean has =
    let c = read_loop-Complete (len + 1) len events [] (omega arith) clean has in
    (c.rest, c.result, c.coming, c.clean)

read_loop-starves :
    (fuel len : ℕ) (events : List Event) (bytes : List ℕ)
    → IsClean events
    → length (stream events) < len
    → read_loop fuel len events bytes ≡ none
unfolding read_loop
read_loop-starves zero len events bytes clean few = refl
read_loop-starves (suc fuel) len events bytes clean few =
    let g = sock_read-Got len events (omega arith) clean in
    read_loop-step fuel len events bytes (omega arith) g.result
    ∙ read_loop-starves fuel (len - length g.bytes) g.rest (bytes ++ g.bytes) g.clean
        (omega (arith, ap length g.split, length-append g.bytes (stream g.rest)))

-- If the peer closes the connection before it has sent `len` bytes, `tcp_read_2` returns after no
-- number of reads: it goes on reading at the end of the stream.
pub tcp_read_2-starves :
    (fuel len : ℕ) (events : List Event)
    → IsClean events
    → length (stream events) < len
    → tcp_read_2 fuel events len ≡ none
unfolding tcp_read_2
tcp_read_2-starves fuel len events clean few = read_loop-starves fuel len events [] clean few

write_loop-step :
    (takes : Takes) (fuel call : ℕ) (rest wire : List ℕ) (len : ℕ) {k : ℕ}
    → 0 < len
    → takes call ≡ some k
    → write_loop (suc fuel) takes call rest wire len
      ≡ write_loop fuel takes
          (call + 1)
          (drop (min k len) rest)
          (wire ++ take (min k len) rest)
          (len - min k len)
unfolding write_loop
write_loop-step takes fuel call rest wire len pos t = rw (nonzero, t) refl
  where
    nonzero : (len == 0) ≡ false
    nonzero = ground arith

write_loop-all :
    (takes : Takes)
    → Progresses takes
    → (fuel call : ℕ) (rest wire : List ℕ) → length rest < fuel
    → write_loop fuel takes call rest wire (length rest) ≡ some (true, wire ++ rest)
unfolding write_loop
write_loop-all takes progresses zero call rest wire enough = absurd (omega arith)
write_loop-all takes progresses (suc fuel) call [] wire enough =
    ap (λ l. some (true, l)) (sym (append-nil wire))
write_loop-all takes progresses (suc fuel) call (x ∷ rest) wire enough =
    let (k, takes_k) = progresses call in
    let all = x ∷ rest in
    let n = min (suc k) (length all) in
    write_loop-step takes fuel call all wire (length all) (omega arith) takes_k
    ∙ ap (write_loop fuel takes (call + 1) (drop n all) (wire ++ take n all))
        (sym (length-drop n all))
    ∙ write_loop-all takes progresses fuel (call + 1) (drop n all) (wire ++ take n all)
        (omega (arith, length-drop n all))
    ∙ ap (λ l. some (true, l))
        (append_assoc wire (take n all) (drop n all) ∙ ap (λ l. wire ++ l) (take-append-drop n all))

-- If every write takes at least a byte, `tcp_write_2` returns 1 within `len + 1` turns and has put the
-- whole buffer on the wire.
pub tcp_write_2-all :
    (takes : Takes) (buf : List ℕ)
    → Progresses takes
    → tcp_write_2 (length buf + 1) takes buf (length buf) ≡ some (true, buf)
unfolding tcp_write_2
tcp_write_2-all takes buf progresses =
    write_loop-all takes progresses (length buf + 1) 0 buf [] (omega arith)

-- The frame buffer starts at the page that the allocated block begins in: at or before the block, and
-- in it only when the allocator returned the address of a page.
pub framebuffer_start_lem :
    (block : ℕ)
    → (framebuffer_start block % 4096 ≡ 0)
      × (framebuffer_start block ≤ block)
      × (block < framebuffer_start block + 4096)
      × (block ≤ framebuffer_start block → block % 4096 ≡ 0)
unfolding framebuffer_start
framebuffer_start_lem block = (omega arith, omega arith, omega arith, λ h. omega arith)
