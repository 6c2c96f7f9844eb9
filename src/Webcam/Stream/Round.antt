-- ===== src/Webcam/Stream/Round.antt =====
-- A frame's way from the viewer through the board's filters and back.
use reconos_v.Base.{ℕ, zero, suc, ◌+◌, ◌*◌, ◌-◌, ◌<◌, some, List, [], ◌∷◌, ◌≡◌, refl, ◌∙◌}
use reconos_v.Base.{ap, length, arith, append-nil, take-all}
use reconos_v.Base.Maybe.{◌>>=◌}
use reconos_v.Webcam.Socket.{Event, IsClean, stream}
use reconos_v.Webcam.Tcp.{Takes}
use reconos_v.Webcam.Tcp.Receive.{tcp_receive-Delivered}
use reconos_v.Webcam.Tcp.Send.{Progresses, tcp_send-all}
use reconos_v.Webcam.Header.{Order}
use reconos_v.Webcam.Filter.{apply_mirror_filter, apply_sobel_filter}
use reconos_v.Webcam.Pipeline.{Demo, IsIdle}
use reconos_v.Webcam.Channels.{
  convert_to_4_channels, convert_to_3_channels, converted_back, to_3_loop,
}
use reconos_v.Webcam.Board.{store_words, load_words, Turn, ethernet_function}
use reconos_v.Webcam.Stream.{send_frame, receive_frame}
use native.Mathlib.Nat.{mul_comm}
use reconos_v.Webcam.Board.Filtered.{bytes_of, rgb, ethernet_function-Filtered, length-store_words}

to_3_loop-whole :
    (count : ℕ) (buf : List ℕ)
    → length buf ≡ count * 4
    → (out : List ℕ) × (to_3_loop count buf ≡ some out)
unfolding to_3_loop
to_3_loop-whole zero buf e = ([], refl)
to_3_loop-whole (suc count) [] e = absurd (omega arith)
to_3_loop-whole (suc count) (a ∷ []) e = absurd (omega arith)
to_3_loop-whole (suc count) (a ∷ b ∷ []) e = absurd (omega arith)
to_3_loop-whole (suc count) (a ∷ b ∷ c ∷ []) e = absurd (omega arith)
to_3_loop-whole (suc count) (a ∷ b ∷ c ∷ d ∷ buf) e =
    let (out, r) = to_3_loop-whole count buf (omega arith) in (c ∷ b ∷ a ∷ out, rw r refl)

pub send_frame-whole :
    (b : ℕ) (takes : Takes) (frame3 : List ℕ) (width height : ℕ)
    → 0 < b
    → Progresses takes
    → length frame3 ≡ height * width * 3
    → (bytes : List ℕ) × (convert_to_4_channels frame3 width height ≡ some bytes)
      × (length bytes ≡ height * width * 4)
      × (send_frame (bytes_of width height + 1) b takes frame3 width height ≡ some bytes)
unfolding send_frame
send_frame-whole b takes frame3 width height pos progresses e =
    let (bytes, four, three, long) = converted_back frame3 width height e in
    let size : width * height * 4 ≡ length bytes = omega (arith, mul_comm width height) in
    (bytes, four, long, rw (four, size, tcp_send-all b pos {takes = takes} progresses bytes) refl)

receive_frame-whole :
    (b : ℕ) (events : List Event) (width height : ℕ) (bytes : List ℕ)
    → 0 < b
    → stream events ≡ bytes
    → IsClean events
    → length bytes ≡ height * width * 4
    → receive_frame (bytes_of width height + 1) b events width height
      ≡ convert_to_3_channels bytes width height
unfolding receive_frame
receive_frame-whole b events width height bytes pos arrives clean e =
    let d = tcp_receive-Delivered b pos events (length bytes) clean in
    let size : width * height * 4 ≡ length bytes = omega (arith, mul_comm width height) in
    rw
      (
        size,
        d.result,
        d.filled,
        arrives,
        take-all (length bytes) bytes (omega arith),
        none_left (length bytes),
      )
      (ap (λ l. convert_to_3_channels l width height) (append-nil bytes))
  where
    none_left : (n : ℕ) → n - n ≡ 0
    none_left n = omega arith

-- The round of a frame of three bytes a pixel from the viewer's `main`, of the size that the board
-- knows. The network delivers what is put on a wire, in order and in any pieces, and no read fails; every
-- write takes at least a byte; no block size is 0; the boxes of the board are empty, and its two buffers
-- have the size of a frame. Then the viewer's send, the board's turn
-- and the viewer's receive all end, each loop within the bytes of a frame and one turns, and the viewer
-- gets back the frame that the board's mirror and sobel filters make of it, converted to four bytes a
-- pixel, to words and back.
pub frame_round :
    (o : Order) (b b' size : ℕ) (takes takes' : Takes) (frame3 buf2 : List ℕ)
    (to_board to_viewer : List ℕ → List Event) (s : Demo)
    → 0 < b
    → 0 < b'
    → 0 < size
    → Progresses takes
    → Progresses takes'
    → IsIdle size s
    → length frame3 ≡ s.size_y * s.size_x * 3
    → length buf2 ≡ s.size_y * s.size_x
    → ((wire : List ℕ) → stream (to_board wire) ≡ wire)
    → ((wire : List ℕ) → IsClean (to_board wire))
    → ((wire : List ℕ) → stream (to_viewer wire) ≡ wire)
    → ((wire : List ℕ) → IsClean (to_viewer wire))
    → (sent : List ℕ) × (turn : Turn) × (frame4 : List ℕ) × (words : List ℕ) × (mirrored : List ℕ)
      × (edges : List ℕ) × (send_frame
            (s.size_x * s.size_y * 4 + 1)
            b
            takes
            frame3
            s.size_x
            s.size_y
          ≡ some sent)
      × (ethernet_function o
            (s.size_x * s.size_y * 4 + 1)
            takes'
            (rgb s.size_x s.size_y)
            buf2
            (to_board sent)
            s
          ≡ some turn)
      × (receive_frame (s.size_x * s.size_y * 4 + 1) b' (to_viewer turn.wire) s.size_x s.size_y
          ≡ some frame4)
      × ((convert_to_4_channels frame3 s.size_x s.size_y >>= load_words o) ≡ some words)
      × (apply_mirror_filter words buf2 s.size_x s.size_y ≡ some mirrored)
      × (apply_sobel_filter mirrored s.size_x s.size_y ≡ some edges)
      × (convert_to_3_channels (store_words o edges) s.size_x s.size_y ≡ some frame4)
unfolding convert_to_3_channels
frame_round o b b' size takes takes' frame3 buf2 to_board to_viewer s pos pos' some_box progresses
      progresses' idle e e2 arrives clean back clean' =
    let (bytes, four, long, sends) =
      send_frame-whole b takes frame3 s.size_x s.size_y pos progresses e in
    let f =
      ethernet_function-Filtered o takes' size buf2 bytes (to_board bytes) s progresses'
        (arrives bytes) (clean bytes) long some_box idle e2 in
    let made = length-store_words o f.edges in
    let (frame4, three) =
      to_3_loop-whole (s.size_y * s.size_x) (store_words o f.edges) (omega (arith, made, f.size)) in
    (
      bytes,
      f.turn,
      frame4,
      f.words,
      f.mirrored,
      f.edges,
      sends,
      f.result,
      receive_frame-whole b' (to_viewer f.turn.wire) s.size_x s.size_y (store_words o f.edges) pos'
            (back f.turn.wire ∙ f.wire) (clean' f.turn.wire) (omega (arith, made, f.size))
          ∙ three,
      ap (λ c. c >>= load_words o) four ∙ f.loads,
      f.mirrors,
      f.sobel,
      three,
    )
