-- ===== src/Examples/Board.antt =====
-- A frame's way to the board and back.
use reconos_v.Examples.Single.{single-Holds}
use reconos_v.Base.{ℕ, ◌≡◌, refl, ap, some, List, [], ◌∷◌, arith}
use reconos_v.Base.Maybe.{◌>>=◌}
use reconos_v.Webcam.Socket.{Event, arrives, IsClean, stream}
use reconos_v.Webcam.Header.{big}
use reconos_v.Webcam.Filter.{apply_mirror_filter, apply_sobel_filter}
use reconos_v.Webcam.Channels.{convert_to_4_channels, convert_to_3_channels}
use reconos_v.Webcam.Board.{load_words, store_words, Turn, ethernet_function}
use reconos_v.Webcam.Board.Filtered.{rgb}
use reconos_v.Webcam.Stream.{send_frame, receive_frame}
use reconos_v.Webcam.Stream.Round.{frame_round}
use reconos_v.Webcam.Pipeline.{IsIdle}
use reconos_v.Examples.Frames.{webcam, blank}
use reconos_v.Examples.Streams.{two_bytes, two_bytes-Progresses}

-- A frame of two rows of three pixels, of three bytes each
abbrev pixels : List ℕ
pixels = 1 ∷ 2 ∷ 3 ∷ 4 ∷ 5 ∷ 6 ∷ 7 ∷ 8 ∷ 9 ∷ 10 ∷ 11 ∷ 12 ∷ 13 ∷ 14 ∷ 15 ∷ 16 ∷ 17 ∷ 18 ∷ []

-- Each byte arrives on its own.
abbrev one_by_one : List ℕ → List Event
one_by_one [] = []
one_by_one (x ∷ xs) = arrives x [] ∷ one_by_one xs

stream-one_by_one : (xs : List ℕ) → stream (one_by_one xs) ≡ xs
stream-one_by_one [] = refl
stream-one_by_one (x ∷ xs) = ap (λ l. x ∷ l) (stream-one_by_one xs)

one_by_one-IsClean : (xs : List ℕ) → IsClean (one_by_one xs)
one_by_one-IsClean [] = tt
one_by_one-IsClean (x ∷ xs) = one_by_one-IsClean xs

webcam-IsIdle : IsIdle 1 webcam
webcam-IsIdle = record {
  first = single-Holds;
  second = single-Holds;
  third = single-Holds;
  whole = refl;
}

frame_round_example :
    (sent : List ℕ) × (turn : Turn) × (frame4 : List ℕ) × (words : List ℕ) × (mirrored : List ℕ)
    × (edges : List ℕ) × (send_frame 25 4 two_bytes pixels 3 2 ≡ some sent)
    × (ethernet_function big 25 two_bytes (rgb 3 2) blank (one_by_one sent) webcam ≡ some turn)
    × (receive_frame 25 4 (one_by_one turn.wire) 3 2 ≡ some frame4)
    × ((convert_to_4_channels pixels 3 2 >>= load_words big) ≡ some words)
    × (apply_mirror_filter words blank 3 2 ≡ some mirrored)
    × (apply_sobel_filter mirrored 3 2 ≡ some edges)
    × (convert_to_3_channels (store_words big edges) 3 2 ≡ some frame4)
frame_round_example =
    frame_round big 4 4 1 two_bytes two_bytes pixels blank one_by_one one_by_one webcam
      (omega arith) (omega arith) (omega arith) two_bytes-Progresses two_bytes-Progresses
      webcam-IsIdle refl refl stream-one_by_one one_by_one-IsClean stream-one_by_one
      one_by_one-IsClean
