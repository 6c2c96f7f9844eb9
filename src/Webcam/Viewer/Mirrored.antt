-- ===== src/Webcam/Viewer/Mirrored.antt =====
-- demos/webcam/gui/src/receiveSendVideo.c: the mirror filter of the viewer reverses the pixels of every
-- row of a frame.
use reconos_v.Base.{
  ℕ, zero, suc, ◌+◌, ◌*◌, ◌-◌, ◌≤◌, ◌<◌, Option, some, List, ◌≡◌, refl, ◌∙◌, ap, sym,
}
use reconos_v.Base.{length, get_or, arith, Bool-cases, ◌==◌, ==_iff, inl, inr, ◌⊎◌, false}
use reconos_v.Base.Maybe.{◌>>=◌}
use reconos_v.Webcam.Viewer.{copy_pixel, Copied, copy_pixel-Copied}
use native.Mathlib.Nat.{suc-mul, zero-mul}

-- The loop over the pixels of a row, `left` of them from its end.
unfoldable pub mirror_pixels : (left k i width : ℕ) (buf buf2 : List ℕ) → Option (List ℕ)
mirror_pixels zero k i width buf buf2 = some buf2
mirror_pixels (suc left) k i width buf buf2 = do
  next ← copy_pixel 3 0 (i + (3 * (width - 1) - k)) (i + k) buf buf2
  mirror_pixels left (k + 3) i width buf next

-- The loop over the rows, `left` of them from its end.
unfoldable pub mirror_frame : (left i width : ℕ) (buf buf2 : List ℕ) → Option (List ℕ)
mirror_frame zero i width buf buf2 = some buf2
mirror_frame (suc left) i width buf buf2 = do
  row ← mirror_pixels width 0 i width buf buf2
  mirror_frame left (i + 3 * width) width buf row

unfoldable pub apply_mirror_filter : (buf buf2 : List ℕ) (width height : ℕ) → Option (List ℕ)
apply_mirror_filter buf buf2 width height = mirror_frame height 0 width buf buf2

-- What the loop over a row leaves, with `j` of its pixels done before it.
record Row (j i width : ℕ) (buf buf2 : List ℕ) (r : Option (List ℕ)) : Type 0 where
  pub out : List ℕ
  pub result : r ≡ some out
  pub long : length out ≡ length buf2
  pub mirrored :
      (x c : ℕ)
      → x + j < width
      → c < 3
      → get_or out (i + (x * 3 + c)) 0 ≡ get_or buf (i + ((width - 1 - x) * 3 + c)) 0
  pub outside : (d : ℕ) → (d < i) ⊎ (i + width * 3 ≤ d + j * 3) → get_or out d 0 ≡ get_or buf2 d 0

mirror_pixels-Row :
    (left j k i width : ℕ) (buf buf2 : List ℕ)
    → k ≡ j * 3
    → j + left ≡ width
    → i + width * 3 ≤ length buf
    → i + width * 3 ≤ length buf2
    → Row j i width buf buf2 (mirror_pixels left k i width buf buf2)
unfolding mirror_pixels
mirror_pixels-Row zero j k i width buf buf2 ek e h h2 = record {
  out = buf2;
  result = refl;
  long = refl;
  mirrored = λ x c lt. absurd (omega arith);
  outside = λ d o. refl;
}
mirror_pixels-Row (suc left) j k i width buf buf2 ek e h h2 =
    let place = i + (3 * (width - 1) - k) in
    let pixel = copy_pixel-Copied 3 0 place (i + k) buf buf2 (omega arith) (omega arith) in
    let rest =
      mirror_pixels-Row left (j + 1) (k + 3) i width buf pixel.out (omega arith) (omega arith) h
        (omega (arith, pixel.long)) in
    record {
      out = rest.out;
      result = rw pixel.result rest.result;
      long = rest.long ∙ pixel.long;
      mirrored = λ x c lt lt'. elim (Bool-cases (x + j + 1 == width)) [
        | inl q ↦
            let here : x + j + 1 ≡ width = (==_iff (x + j + 1) width).0 q in
            rest.outside (i + (x * 3 + c)) (inr (omega (arith, here)))
            ∙ ap (λ d. get_or pixel.out d 0) (omega (arith, here))
            ∙ pixel.copied c (omega arith) (omega arith)
            ∙ ap (λ d. get_or buf d 0) (omega (arith, here))
        | inr q ↦ rest.mirrored x c (further x q lt) lt'
      ];
      outside = λ d o. rest.outside d (still d o) ∙ apart pixel d o;
    }
  where
    further : (x : ℕ) → (x + j + 1 == width) ≡ false → x + j < width → x + (j + 1) < width
    further x q lt = ground arith

    still :
        (d : ℕ)
        → (d < i) ⊎ (i + width * 3 ≤ d + j * 3)
        → (d < i) ⊎ (i + width * 3 ≤ d + (j + 1) * 3)
    still d (inl o) = inl o
    still d (inr o) = inr (omega arith)

    apart :
        {r : Option (List ℕ)} (pixel : Copied 3 0 (i + (3 * (width - 1) - k)) (i + k) buf buf2 r)
        (d : ℕ)
        → (d < i) ⊎ (i + width * 3 ≤ d + j * 3)
        → get_or pixel.out d 0 ≡ get_or buf2 d 0
    apart pixel d (inl o) = pixel.below d (omega arith)
    apart pixel d (inr o) = pixel.above d (omega arith)

-- What the loop over the rows leaves: the next `rows` rows mirrored, and all before them as it was.
record Rows (rows i width : ℕ) (buf buf2 : List ℕ) (r : Option (List ℕ)) : Type 0 where
  pub out : List ℕ
  pub result : r ≡ some out
  pub long : length out ≡ length buf2
  pub mirrored :
      (y x c : ℕ)
      → y < rows
      → x < width
      → c < 3
      → get_or out (i + ((y * width + x) * 3 + c)) 0
        ≡ get_or buf (i + ((y * width + (width - 1 - x)) * 3 + c)) 0
  pub before : (d : ℕ) → d < i → get_or out d 0 ≡ get_or buf2 d 0

Rows-mirrored :
    {i width rows : ℕ} {buf buf2 : List ℕ} {r r' : Option (List ℕ)} (row : Row 0 i width buf buf2 r)
    (rest : Rows rows (i + 3 * width) width buf row.out r') (y x c : ℕ)
    → y < suc rows
    → x < width
    → c < 3
    → get_or rest.out (i + ((y * width + x) * 3 + c)) 0
      ≡ get_or buf (i + ((y * width + (width - 1 - x)) * 3 + c)) 0
Rows-mirrored {i} {width} {buf} row rest zero x c h h' h'' =
    rest.before (i + ((0 * width + x) * 3 + c)) (omega (arith, zero-mul width))
    ∙ ap (λ d. get_or row.out d 0) (omega (arith, zero-mul width))
    ∙ row.mirrored x c (omega arith) h''
    ∙ ap (λ d. get_or buf d 0) (omega (arith, zero-mul width))
Rows-mirrored {i} {width} {buf} row rest (suc y) x c h h' h'' =
    ap (λ d. get_or rest.out d 0) (omega (arith, suc-mul y width))
    ∙ rest.mirrored y x c (omega arith) h' h''
    ∙ ap (λ d. get_or buf d 0) (omega (arith, suc-mul y width))

mirror_frame-Rows :
    (rows i width : ℕ) (buf buf2 : List ℕ)
    → i + rows * width * 3 ≤ length buf
    → length buf2 ≡ length buf
    → Rows rows i width buf buf2 (mirror_frame rows i width buf buf2)
unfolding mirror_frame
mirror_frame-Rows zero i width buf buf2 fits same = record {
  out = buf2;
  result = refl;
  long = refl;
  mirrored = λ y x c h. absurd (omega arith);
  before = λ d h. refl;
}
mirror_frame-Rows (suc rows) i width buf buf2 fits same =
    let row =
      mirror_pixels-Row width 0 0 i width buf buf2 refl (omega arith)
        (omega (arith, suc-mul rows width)) (omega (arith, suc-mul rows width)) in
    let rest =
      mirror_frame-Rows rows (i + 3 * width) width buf row.out (omega (arith, suc-mul rows width))
        (row.long ∙ same) in
    record {
      out = rest.out;
      result = rw row.result rest.result;
      long = rest.long ∙ row.long;
      mirrored = Rows-mirrored row rest;
      before = λ d h. rest.before d (omega arith) ∙ row.outside d (inl h);
    }

-- On a frame of `height` rows of `width` pixels and an array as long, the viewer's
-- `apply_mirror_filter` accesses both inside their bounds, and column `x` of row `y` of the result is
-- column `width - 1 - x` of the same row of the frame.
pub viewer_mirror_lem :
    (buf buf2 : List ℕ) (width height y x c : ℕ)
    → length buf ≡ height * width * 3
    → length buf2 ≡ height * width * 3
    → y < height
    → x < width
    → c < 3
    → (out : List ℕ) × (apply_mirror_filter buf buf2 width height ≡ some out)
      × (length out ≡ height * width * 3)
      × (get_or out ((y * width + x) * 3 + c) 0
          ≡ get_or buf ((y * width + (width - 1 - x)) * 3 + c) 0)
unfolding apply_mirror_filter
viewer_mirror_lem buf buf2 width height y x c e e2 hy hx hc =
    let m = mirror_frame-Rows height 0 width buf buf2 (omega arith) (e2 ∙ sym e) in
    (
      m.out,
      m.result,
      m.long ∙ e2,
      ap (λ d. get_or m.out d 0) (omega arith)
          ∙ m.mirrored y x c hy hx hc
          ∙ ap (λ d. get_or buf d 0) (omega arith),
    )
