-- ===== src/Examples/Frames.antt =====
-- The webcam demo's frames on concrete values.
use reconos_v.Examples.Single.{single}
use reconos_v.Base.{ℕ, ◌≡◌, refl, some, List, [], ◌∷◌, length, arith}
use reconos_v.Webcam.Filter.{apply_sobel_filter}
use reconos_v.Webcam.Filter.Pixels.{at, value}
use reconos_v.Webcam.Filter.Sobel.{apply_sobel_filter_lem}
use reconos_v.Webcam.Pipeline.{Demo}

-- Two rows of three
abbrev small : List ℕ
small = 1 ∷ 2 ∷ 3 ∷ 4 ∷ 5 ∷ 6 ∷ []

abbrev pub blank : List ℕ
blank = 0 ∷ 0 ∷ 0 ∷ 0 ∷ 0 ∷ 0 ∷ []

-- Three rows of three, white above
abbrev edged : List ℕ
edged = 0xFF000000 ∷ 0xFF000000 ∷ 0xFF000000 ∷ 0 ∷ 0 ∷ 0 ∷ 0 ∷ 0 ∷ 0 ∷ []

sobel_example :
    (out : List ℕ) × (apply_sobel_filter edged 3 3 ≡ some out)
    × (length out ≡ 9)
    × (at out 3 1 1 ≡ value edged 3 3 1 1)
sobel_example = apply_sobel_filter_lem edged 3 3 1 1 refl (omega arith) (omega arith)

abbrev pub webcam : Demo
webcam = record {
  mb_start_filter_1 = single;
  mb_start_filter_2 = single;
  mb_done_filtering = single;
  framebuffer = 4096;
  frame = small;
  size_x = 3;
  size_y = 2;
}
