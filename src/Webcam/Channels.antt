-- ===== src/Webcam/Channels.antt =====
-- demos/webcam/gui/src/receiveSendVideo.c: frames of three bytes a pixel and of four. The loops visit
-- the pixels `y + x` in their order; a buffer is the list of its bytes from the pixel on, and `none` is
-- a read outside it.
use reconos_v.Base.{ℕ, zero, suc, ◌*◌, Option, none, some, List, [], ◌∷◌, ◌≡◌, refl}
use reconos_v.Base.{length, arith}
use reconos_v.Base.Maybe.{◌>>=◌}

-- `count` pixels of three bytes, as four bytes each.
unfoldable pub to_4_loop : (count : ℕ) → List ℕ → Option (List ℕ)
to_4_loop zero buf_in = some []
to_4_loop (suc count) (b0 ∷ b1 ∷ b2 ∷ buf_in) = do
  rest ← to_4_loop count buf_in
  some (b2 ∷ b1 ∷ b0 ∷ 0 ∷ rest)
to_4_loop (suc count) buf_in = none

unfoldable pub convert_to_4_channels : (buf_in : List ℕ) (width height : ℕ) → Option (List ℕ)
convert_to_4_channels buf_in width height = to_4_loop (height * width) buf_in

unfoldable pub to_3_loop : (count : ℕ) → List ℕ → Option (List ℕ)
to_3_loop zero buf_in = some []
to_3_loop (suc count) (b0 ∷ b1 ∷ b2 ∷ b3 ∷ buf_in) = do
  rest ← to_3_loop count buf_in
  some (b2 ∷ b1 ∷ b0 ∷ rest)
to_3_loop (suc count) buf_in = none

unfoldable pub convert_to_3_channels : (buf_in : List ℕ) (width height : ℕ) → Option (List ℕ)
convert_to_3_channels buf_in width height = to_3_loop (height * width) buf_in

three-four :
    (count : ℕ) (buf : List ℕ)
    → length buf ≡ count * 3
    → (out : List ℕ) × (to_4_loop count buf ≡ some out)
      × (to_3_loop count out ≡ some buf)
      × (length out ≡ count * 4)
unfolding to_4_loop to_3_loop
three-four zero [] e = ([], refl, refl, omega arith)
three-four zero (b ∷ buf) e = absurd (omega arith)
three-four (suc count) [] e = absurd (omega arith)
three-four (suc count) (b0 ∷ []) e = absurd (omega arith)
three-four (suc count) (b0 ∷ b1 ∷ []) e = absurd (omega arith)
three-four (suc count) (b0 ∷ b1 ∷ b2 ∷ buf) e =
    let (out, four, three, len) = three-four count buf (omega arith) in
    (b2 ∷ b1 ∷ b0 ∷ 0 ∷ out, rw four refl, rw three refl, omega arith)

-- A frame of three bytes a pixel survives the conversion to four bytes a pixel and back, and neither
-- conversion reads outside its buffer.
pub converted_back :
    (buf : List ℕ) (width height : ℕ)
    → length buf ≡ height * width * 3
    → (out : List ℕ) × (convert_to_4_channels buf width height ≡ some out)
      × (convert_to_3_channels out width height ≡ some buf)
      × (length out ≡ height * width * 4)
unfolding convert_to_4_channels convert_to_3_channels
converted_back buf width height e = three-four (height * width) buf e
