-- ===== src/Webcam/Board/Filtered.antt =====
-- A turn of the board: the frame that arrives goes out filtered.
use reconos_v.Base.{ℕ, zero, suc, ◌+◌, ◌*◌, ◌<◌, Option, some, List, [], ◌∷◌, ◌++◌, ◌≡◌, refl, ◌∙◌}
use reconos_v.Base.{sym, ap, length, drop, arith, append-nil, take-all}
use reconos_v.Base.Maybe.{◌>>=◌}
use reconos_v.Webcam.Socket.{Event, IsClean, stream}
use reconos_v.Webcam.Tcp.{Takes}
use reconos_v.Webcam.Tcp.Send.{Progresses}
use reconos_v.Webcam.Ethernet.{tcp_read_2-Complete, tcp_write_2-all}
use reconos_v.Webcam.Header.{Order, little, big, ImageParams, load_word}
use reconos_v.Webcam.Filter.{apply_mirror_filter, apply_sobel_filter}
use reconos_v.Webcam.Pipeline.{Demo, IsIdle, frame_turn, frame_turn_lem}
use reconos_v.Webcam.Board.{
  store_words, load_words, read_frame, write_frame, Turn, ethernet_function,
}
use reconos_v.Base.{drop-all}
use reconos_v.Webcam.Filter.Mirror.{apply_mirror_filter-total}
use reconos_v.Webcam.Filter.Sobel.{apply_sobel_filter-total}
use native.Mathlib.Nat.{mul_comm}
use mathlib.Core.Option.{some-injective}

pub length-store_words : (o : Order) (ws : List ℕ) → length (store_words o ws) ≡ length ws * 4
length-store_words o [] = refl
length-store_words little (w ∷ ws) = omega (arith, length-store_words little ws)
length-store_words big (w ∷ ws) = omega (arith, length-store_words big ws)

-- Whole words of bytes can be loaded.
load_words-whole :
    (o : Order) (n : ℕ) (bytes : List ℕ)
    → length bytes ≡ n * 4
    → (ws : List ℕ) × (load_words o bytes ≡ some ws) × (length ws ≡ n)
load_words-whole o zero [] e = ([], refl, refl)
load_words-whole o zero (a ∷ bytes) e = absurd (omega arith)
load_words-whole o (suc n) [] e = absurd (omega arith)
load_words-whole o (suc n) (a ∷ []) e = absurd (omega arith)
load_words-whole o (suc n) (a ∷ b ∷ []) e = absurd (omega arith)
load_words-whole o (suc n) (a ∷ b ∷ c ∷ []) e = absurd (omega arith)
load_words-whole o (suc n) (a ∷ b ∷ c ∷ d ∷ bytes) e =
    let (ws, loads, long) = load_words-whole o n bytes (omega arith) in
    (load_word o a b c d ∷ ws, rw loads refl, ap suc long)

-- The frames of the viewer and the board have the same size: three channels of a byte, and one more.
abbrev pub rgb : (width height : ℕ) → ImageParams
rgb width height = record { n_channels = 3; depth = 8; width = width; height = height }

-- The bytes of such a frame
abbrev pub bytes_of : (width height : ℕ) → ℕ
bytes_of width height = width * height * 4

read_frame-whole :
    (o : Order) (width height : ℕ) (events : List Event) (frame bytes : List ℕ)
    → stream events ≡ bytes
    → IsClean events
    → length bytes ≡ length (store_words o frame)
    → length bytes ≡ bytes_of width height
    → (rest : List Event) × (read_frame o
          (bytes_of width height + 1)
          (rgb width height)
          events
          frame
        ≡ (load_words o bytes >>= λ words. some (words, rest)))
unfolding read_frame
read_frame-whole o width height events frame bytes arrives clean same whole =
    let (rest, reads, coming, clean_rest) =
      tcp_read_2-Complete events (length bytes) clean (omega (arith, ap length arrives)) in
    let size : width * height * 1 * 4 ≡ length bytes = omega arith in
    let fuel : width * height * 4 ≡ length bytes = omega arith in
    (
      rest,
      rw (size, fuel, reads, arrives, take-all (length bytes) bytes (omega arith), nothing_left)
          refl,
    )
  where
    nothing_left : bytes ++ drop (0 + length bytes) (store_words o frame) ≡ bytes
    nothing_left =
        ap (λ l. bytes ++ l) (drop-all (0 + length bytes) (store_words o frame) (omega arith))
        ∙ append-nil bytes

write_frame-whole :
    (o : Order) (takes : Takes) (width height : ℕ) (frame : List ℕ)
    → Progresses takes
    → length (store_words o frame) ≡ bytes_of width height
    → write_frame o (bytes_of width height + 1) takes (rgb width height) frame
      ≡ some (store_words o frame)
unfolding write_frame
write_frame-whole o takes width height frame progresses e =
    let size : width * height * 1 * 4 ≡ length (store_words o frame) = omega arith in
    let fuel : width * height * 4 ≡ length (store_words o frame) = omega arith in
    rw (size, fuel, tcp_write_2-all takes (store_words o frame) progresses) refl

-- What the board makes of a frame that arrives: the frame that its filters make, on the wire.
pub record Filtered (o : Order) (width height : ℕ) (buf2 bytes : List ℕ) (r : Option Turn)
    : Type 0 where
  pub turn : Turn
  pub result : r ≡ some turn
  pub words : List ℕ
  pub mirrored : List ℕ
  pub edges : List ℕ
  pub loads : load_words o bytes ≡ some words
  pub mirrors : apply_mirror_filter words buf2 width height ≡ some mirrored
  pub sobel : apply_sobel_filter mirrored width height ≡ some edges
  pub wire : turn.wire ≡ store_words o edges
  pub size : length edges ≡ height * width

ethernet_function-steps :
    (o : Order) (takes : Takes) (width height : ℕ) (buf2 bytes words wire : List ℕ)
    (events rest : List Event) (s s' : Demo)
    → read_frame o (bytes_of width height + 1) (rgb width height) events s.frame
      ≡ (load_words o bytes >>= λ ws. some (ws, rest))
    → load_words o bytes ≡ some words
    → frame_turn buf2 (record s { frame = words }) ≡ some s'
    → write_frame o (bytes_of width height + 1) takes (rgb width height) s'.frame ≡ some wire
    → ethernet_function o (bytes_of width height + 1) takes (rgb width height) buf2 events s
      ≡ some record { demo = s'; wire = wire; events = rest }
unfolding ethernet_function
ethernet_function-steps o takes width height buf2 bytes words wire events rest s s' r l t w =
    rw (r, l, t, w) refl

pub ethernet_function-Filtered :
    (o : Order) (takes : Takes) (size : ℕ) (buf2 bytes : List ℕ) (events : List Event) (s : Demo)
    → Progresses takes
    → stream events ≡ bytes
    → IsClean events
    → length bytes ≡ s.size_y * s.size_x * 4
    → 0 < size
    → IsIdle size s
    → length buf2 ≡ s.size_y * s.size_x
    → Filtered o s.size_x s.size_y buf2 bytes (
        ethernet_function o
          (bytes_of s.size_x s.size_y + 1)
          takes
          (rgb s.size_x s.size_y)
          buf2
          events
          s)
ethernet_function-Filtered o takes size buf2 bytes events s progresses arrives clean long pos idle
      e2 =
    let area = mul_comm s.size_x s.size_y in
    let (words, loads, n_words) = load_words-whole o (s.size_y * s.size_x) bytes long in
    let (rest, reads) =
      read_frame-whole o s.size_x s.size_y events s.frame bytes arrives clean
        (omega (arith, length-store_words o s.frame, idle.whole)) (omega (arith, area)) in
    let (mirrored, mirrors, m_long) =
      apply_mirror_filter-total words buf2 s.size_x s.size_y n_words e2 in
    let (edges, sobel, e_long) = apply_sobel_filter-total mirrored s.size_x s.size_y m_long in
    let (s', mirrored', turns, idle', mirrors', sobel') =
      frame_turn_lem {size = size} (record s { frame = words }) buf2 pos
        record { first = idle.first; second = idle.second; third = idle.third; whole = n_words }
        e2 in
    let same : s'.frame ≡ edges = some-injective _ _ (
      sym sobel'
      ∙ ap (λ m. apply_sobel_filter m s.size_x s.size_y)
          (some-injective _ _ (sym mirrors' ∙ mirrors))
      ∙ sobel) in
    let wire =
      write_frame-whole o takes s.size_x s.size_y s'.frame progresses
        (omega (arith, length-store_words o s'.frame, ap length same, area)) in
    record {
      turn = record { demo = s'; wire = store_words o s'.frame; events = rest };
      result =
          ethernet_function-steps o takes s.size_x s.size_y buf2 bytes words
            (store_words o s'.frame) events rest s s' reads loads turns wire;
      words = words;
      mirrored = mirrored;
      edges = edges;
      loads = loads;
      mirrors = mirrors;
      sobel = sobel;
      wire = ap (store_words o) same;
      size = e_long;
    }
