-- ===== src/Webcam/Filter/Sobel.antt =====
-- `apply_sobel_filter` by rows and columns: its border is black, and a pixel inside is the edge test on
-- the eight pixels round it.
use reconos_v.Base.{ℕ, zero, suc, ◌+◌, ◌*◌, ◌/◌, ◌%◌, ◌<◌, Option, some, List, [], ◌∷◌, ◌≡◌}
use reconos_v.Base.{refl, ◌∙◌, sym, ap, length, get_or}
use reconos_v.Base.{arith}
use reconos_v.Webcam.Filter.{sobel_loop, apply_sobel_filter}
use mathlib.Core.Option.{some-injective}
use native.Mathlib.Nat.{suc-mul, mul-le-mul_right}
use reconos_v.Webcam.Filter.Pixels.{at, value, pixel_at, pixel-value, pixel_here}

module _ (buf : List ℕ) (width height : ℕ) (e : length buf ≡ height * width) where
  -- The loop from index `i` on.
  record Pixels (i left : ℕ) (r : Option (List ℕ)) : Type 0 where
    pub out : List ℕ
    pub result : r ≡ some out
    pub long : length out ≡ left
    pub values :
        (k y x : ℕ)
        → k < left
        → y < height
        → x < width
        → i + k ≡ y * width + x
        → get_or out k 0 ≡ value buf width height y x

  values_on :
      (i left : ℕ) {v : ℕ} {r : Option (List ℕ)}
      → pixel_at buf width height e i ≡ some v
      → (rest : Pixels (i + 1) left r) → (k y x : ℕ) → k < suc left
      → y < height
      → x < width
      → i + k ≡ y * width + x
      → get_or (v ∷ rest.out) k 0 ≡ value buf width height y x
  values_on i left here rest zero y x lt hy hx at_k = some-injective _ _ (
      sym here
      ∙ ap (pixel_at buf width height e) (zero_on at_k)
      ∙ pixel-value buf width height e y x hy hx)
    where
      zero_on : {n : ℕ} → i + 0 ≡ n → i ≡ n
      zero_on h = omega arith
  values_on i left here rest (suc k) y x lt hy hx at_k =
      rest.values k y x (omega arith) hy hx (omega arith)

  sobel_loop-Pixels :
      (left i : ℕ) → i + left ≡ height * width → Pixels i left (sobel_loop left i buf width height)
  unfolding sobel_loop pixel_at
  sobel_loop-Pixels zero i h = record {
    out = [];
    result = refl;
    long = refl;
    values = λ k y x lt. absurd (omega arith);
  }
  sobel_loop-Pixels (suc left) i h =
      let rest = sobel_loop-Pixels left (i + 1) (omega arith) in
      let y = i / width in
      let x = i % width in
      let here = pixel_here buf width height e i (omega arith) in
      record {
        out = value buf width height y x ∷ rest.out;
        result = rw (here, rest.result) refl;
        long = ap suc rest.long;
        values = values_on i left here rest;
      }

  value_in :
      {r : Option (List ℕ)} (p : Pixels 0 (height * width) r) (y x : ℕ)
      → y < height
      → x < width
      → at p.out width y x ≡ value buf width height y x
  value_in p y x hy hx =
      p.values (y * width + x) y x
        (omega (arith, mul-le-mul_right {m = suc y} {n = height} width hy, suc-mul y width)) hy hx
        (omega arith)

-- On a frame of `height` rows of `width` words, `apply_sobel_filter` reads only words of the frame, and
-- makes a frame of the same size: black in its first and last row and column, and elsewhere white or
-- black by the edge test on the eight pixels round the place.
pub apply_sobel_filter_lem :
    (buf : List ℕ) (width height y x : ℕ)
    → length buf ≡ height * width
    → y < height
    → x < width
    → (out : List ℕ) × (apply_sobel_filter buf width height ≡ some out)
      × (length out ≡ height * width)
      × (at out width y x ≡ value buf width height y x)
unfolding apply_sobel_filter
apply_sobel_filter_lem buf width height y x e hy hx =
    let p = sobel_loop-Pixels buf width height e (height * width) 0 (omega arith) in
    (p.out, p.result, p.long, value_in buf width height e p y x hy hx)

-- The filter comes to its end on every frame.
pub apply_sobel_filter-total :
    (buf : List ℕ) (width height : ℕ)
    → length buf ≡ height * width
    → (out : List ℕ) × (apply_sobel_filter buf width height ≡ some out)
      × (length out ≡ height * width)
unfolding apply_sobel_filter
apply_sobel_filter-total buf width height e =
    let p = sobel_loop-Pixels buf width height e (height * width) 0 (omega arith) in
    (p.out, p.result, p.long)
