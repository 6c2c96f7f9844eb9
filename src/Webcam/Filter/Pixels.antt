-- ===== src/Webcam/Filter/Pixels.antt =====
-- The sobel filter at one pixel, by rows and columns: the border is black, and a pixel inside is the
-- edge test on the eight pixels round it.
use reconos_v.Base.{ℕ, zero, suc, ◌+◌, ◌*◌, ◌-◌, ◌/◌, ◌%◌, ◌≤◌, ◌<◌, Option, some, List, ◌≡◌}
use reconos_v.Base.{
  refl, ◌∙◌, sym, ap, ◌⊎◌, inl, inr, length, get_elem?, get_or, get_elem?-eq-get_or,
}
use reconos_v.Base.{arith, true, false, Bool-cases, ltb→lt, if◌then◌else◌, ltb, ◌&&◌}
use reconos_v.Webcam.Filter.{black, edge, on_border, sobel_pixel}
use native.Mathlib.Nat.{
  suc-mul, zero-mul, mul-zero, mul-le-mul_right, mul-add-mod_self_right, mod-eq_of_lt, div-add-mod',
  mod-lt,
}

-- A column of a row of a frame
abbrev pub at : (buf : List ℕ) (width y x : ℕ) → ℕ
at buf width y x = get_or buf (y * width + x) 0

abbrev pub inner : (buf : List ℕ) (width y x : ℕ) → ℕ
inner buf width y x =
    edge (at buf width y x) (at buf width y (suc x)) (at buf width y (suc (suc x)))
      (at buf width (suc y) x) (at buf width (suc y) (suc (suc x))) (at buf width (suc (suc y)) x)
      (at buf width (suc (suc y)) (suc x)) (at buf width (suc (suc y)) (suc (suc x)))

-- The pixel that the filter makes in column `x` of row `y`: black in the first and last row and
-- column, and elsewhere the edge test on the eight pixels round the place.
unfoldable pub value : (buf : List ℕ) (width height y x : ℕ) → ℕ
value buf width height zero x = black
value buf width height (suc y) zero = black
value buf width height (suc y) (suc x) =
    if ltb (suc (suc y)) height && ltb (suc (suc x)) width then inner buf width y x else black

width-pos : (height width i : ℕ) → i < height * width → 0 < width
width-pos height zero i h = absurd (omega (arith, mul-zero height))
width-pos height (suc width) i h = omega arith

row-lt : (height width i : ℕ) → i < height * width → i / width < height
row-lt height width i h = elim (Bool-cases (ltb (i / width) height)) [
  | inl e ↦ ltb→lt _ _ e
  | inr e ↦ absurd (
      beyond (mul-le-mul_right {m = height} {n = i / width} width (not_lt e))
        (div-add-mod' i width))
]
  where
    not_lt : {m n : ℕ} → ltb m n ≡ false → n ≤ m
    not_lt e = ground arith

    beyond : {k : ℕ} → height * width ≤ k → k + i % width ≡ i → ⊥
    beyond le e = omega arith

module _ (buf : List ℕ) (width height : ℕ) (e : length buf ≡ height * width) where
  read_at :
      (y x i : ℕ)
      → y < height
      → x < width
      → i ≡ y * width + x
      → get_elem? buf i ≡ some (at buf width y x)
  read_at y x i hy hx ei =
      get_elem?-eq-get_or buf i 0
        (omega (arith, mul-le-mul_right {m = suc y} {n = height} width hy, suc-mul y width))
      ∙ ap (λ k. some (get_or buf k 0)) ei

  sobel_pixel-inner :
      (y x i : ℕ)
      → suc (suc y) < height
      → suc (suc x) < width
      → i ≡ suc y * width + suc x
      → sobel_pixel buf width i ≡ some (inner buf width y x)
  unfolding sobel_pixel
  sobel_pixel-inner y x i hy hx ei =
      let r1 = suc-mul y width in
      let r2 = suc-mul (suc y) width in
      rw
        (
          read_at y x (i - width - 1) (omega arith) (omega arith) (omega (arith, r1)),
          read_at y (suc x) (i - width) (omega arith) (omega arith) (omega (arith, r1)),
          read_at y (suc (suc x)) (i - width + 1) (omega arith) (omega arith) (omega (arith, r1)),
          read_at (suc y) x (i - 1) (omega arith) (omega arith) (omega (arith, r1)),
          read_at (suc y) (suc (suc x)) (i + 1) (omega arith) (omega arith) (omega (arith, r1)),
          read_at (suc (suc y)) x (i + width - 1) (omega arith) (omega arith) (omega (arith, r2)),
          read_at (suc (suc y)) (suc x) (i + width) (omega arith) (omega arith) (omega (arith, r2)),
          read_at (suc (suc y)) (suc (suc x)) (i + width + 1) (omega arith) (omega arith)
              (omega (arith, r2)),
        )
        refl

  column : (y x : ℕ) → x < width → (y * width + x) % width ≡ x
  column y x h = mul-add-mod_self_right y width x ∙ mod-eq_of_lt h

  border_column :
      (y x : ℕ)
      → x < width
      → (x ≡ 0) ⊎ (suc x ≡ width)
      → on_border (y * width + x) width height ≡ true
  unfolding on_border
  border_column y x hx h = rw (column y x hx) (ground (arith, h))

  border_row :
      (y x : ℕ)
      → x < width
      → (y ≡ 0) ⊎ (suc y ≡ height)
      → on_border (y * width + x) width height ≡ true
  unfolding on_border
  border_row y x hx (inl top) =
      let first : y * width ≡ 0 = ap (λ n. n * width) top ∙ zero-mul width in
      rw (column y x hx) (ground (arith, first))
  border_row y x hx (inr bottom) =
      let last : (height - 1) * width ≡ y * width = ap (λ n. n * width) (omega arith) in
      rw (column y x hx) (ground (arith, last))

  inside_at :
      (y x : ℕ)
      → suc (suc y) < height
      → suc (suc x) < width
      → on_border (suc y * width + suc x) width height ≡ false
  unfolding on_border
  inside_at y x hy hx =
      let first : width ≤ suc y * width = omega (arith, suc-mul y width) in
      let last : suc (suc y) * width ≤ (height - 1) * width =
        mul-le-mul_right {m = suc (suc y)} {n = height - 1} width (omega arith) in
      rw (column (suc y) (suc x) (omega arith)) (ground (arith, first, last, suc-mul (suc y) width))

  -- What the loop does at index `i`.
  unfoldable pub pixel_at : (i : ℕ) → Option ℕ
  pixel_at i = if on_border i width height then some black else sobel_pixel buf width i

  pixel_border : (i : ℕ) → on_border i width height ≡ true → pixel_at i ≡ some black
  unfolding pixel_at
  pixel_border i h = rw h refl

  pixel_inner :
      (y x : ℕ)
      → suc (suc y) < height
      → suc (suc x) < width
      → pixel_at (suc y * width + suc x) ≡ some (inner buf width y x)
  unfolding pixel_at
  pixel_inner y x hy hx =
      rw (inside_at y x hy hx) (sobel_pixel-inner y x (suc y * width + suc x) hy hx refl)

  pub pixel-value :
      (y x : ℕ)
      → y < height
      → x < width
      → pixel_at (y * width + x) ≡ some (value buf width height y x)
  unfolding value
  pixel-value zero x hy hx = pixel_border (0 * width + x) (border_row 0 x hx (inl refl))
  pixel-value (suc y) zero hy hx =
      pixel_border (suc y * width + 0) (border_column (suc y) 0 hx (inl refl))
  pixel-value (suc y) (suc x) hy hx = elim (Bool-cases (ltb (suc (suc y)) height)) [
    | inr e' ↦
        rw e'
          (pixel_border (suc y * width + suc x) (border_row (suc y) (suc x) hx (inr (last e' hy))))
    | inl e' ↦ rw e' (elim (Bool-cases (ltb (suc (suc x)) width)) [
      | inr e'' ↦ rw e'' (
          pixel_border (suc y * width + suc x)
            (border_column (suc y) (suc x) hx (inr (last e'' hx))))
      | inl e'' ↦ rw e'' (pixel_inner y x (ltb→lt _ _ e') (ltb→lt _ _ e''))
    ])
  ]
    where
      last : {m n : ℕ} → ltb (suc m) n ≡ false → m < n → suc m ≡ n
      last h lt = ground arith

  -- What the loop does at an index below the frame's size.
  pub pixel_here :
      (i : ℕ)
      → i < height * width
      → pixel_at i ≡ some (value buf width height (i / width) (i % width))
  pixel_here i h =
      ap pixel_at (sym (div-add-mod' i width))
      ∙ pixel-value (i / width) (i % width) (row-lt height width i h)
          (mod-lt i (width-pos height width i h))
