-- ===== src/Webcam/Filter/Mirror.antt =====
-- `apply_mirror_filter` reverses every row of a frame.
use reconos_v.Base.{
  ℕ, zero, suc, ◌+◌, ◌*◌, ◌-◌, ◌≤◌, ◌<◌, Option, some, List, ◌≡◌, ◌≢◌, refl, ◌∙◌, sym, ap,
}
use reconos_v.Base.{length, get_or, set, length-set, get_or-set_self, get_or-set_ne, arith}
use reconos_v.Base.{get_elem?-eq-get_or, lt→ltb, Bool-cases, ◌==◌, ==_iff, inl, inr, ◌⊎◌, false}
use native.Mathlib.Nat.{suc-mul, zero-mul}
use reconos_v.Webcam.Filter.{mirror_row, mirror_rows, apply_mirror_filter}

-- What the inner loop from column `j` on leaves.
record Row (j i width : ℕ) (buf buf2 : List ℕ) (r : Option (List ℕ)) : Type 0 where
  pub out : List ℕ
  pub result : r ≡ some out
  pub long : length out ≡ length buf2
  pub mirrored :
      (k : ℕ) → i ≤ k → k + j < i + width → get_or out k 0 ≡ get_or buf (i + (i + width - 1 - k)) 0
  pub outside : (k : ℕ) → (k < i) ⊎ (i + width ≤ k + j) → get_or out k 0 ≡ get_or buf2 k 0

module _ (i width : ℕ) (buf : List ℕ) where
  mirror_row-Row :
      (left j : ℕ) (buf2 : List ℕ)
      → j + left ≡ width
      → i + width ≤ length buf
      → i + width ≤ length buf2
      → Row j i width buf buf2 (mirror_row left j i width buf buf2)
  unfolding mirror_row
  mirror_row-Row zero j buf2 e fits fits2 = record {
    out = buf2;
    result = refl;
    long = refl;
    mirrored = λ k le lt. absurd (omega arith);
    outside = λ k h. refl;
  }
  mirror_row-Row (suc left) j buf2 e fits fits2 =
      let cell = i + (width - 1) - j in
      let v = get_or buf (i + j) 0 in
      let rest =
        mirror_row-Row left (j + 1) (set buf2 cell v) (omega arith) fits
          (omega (arith, length-set buf2 cell v)) in
      record {
        out = rest.out;
        result =
            rw
              (
                get_elem?-eq-get_or buf (i + j) 0 (omega arith),
                lt→ltb cell (length buf2) (omega arith),
              )
              rest.result;
        long = rest.long ∙ length-set buf2 cell v;
        mirrored = λ k le lt. elim (Bool-cases (k == cell)) [
          | inl e' ↦
              rest.outside k (inr (omega (arith, (==_iff k cell).0 e')))
              ∙ ap (λ c. get_or (set buf2 cell v) c 0) ((==_iff k cell).0 e')
              ∙ get_or-set_self buf2 cell v 0 (omega arith)
              ∙ ap (λ c. get_or buf c 0) (omega (arith, (==_iff k cell).0 e'))
          | inr e' ↦ rest.mirrored k le (not_cell k e' lt)
        ];
        outside = λ k h. rest.outside k (further k h) ∙ get_or-set_ne buf2 v 0 (apart k h);
      }
    where
      not_cell :
          (k : ℕ)
          → (k == (i + (width - 1) - j)) ≡ false
          → k + j < i + width
          → k + (j + 1) < i + width
      not_cell k e' lt = ground arith

      further : (k : ℕ) → (k < i) ⊎ (i + width ≤ k + j) → (k < i) ⊎ (i + width ≤ k + (j + 1))
      further k (inl h) = inl h
      further k (inr h) = inr (omega arith)

      apart : (k : ℕ) → (k < i) ⊎ (i + width ≤ k + j) → i + (width - 1) - j ≢ k
      apart k (inl h) c = omega arith
      apart k (inr h) c = omega arith

-- What the outer loop leaves: the next `rows` rows reversed, and all before them as it was.
record Rows (rows i width : ℕ) (buf buf2 : List ℕ) (r : Option (List ℕ)) : Type 0 where
  pub out : List ℕ
  pub result : r ≡ some out
  pub long : length out ≡ length buf2
  pub mirrored :
      (y x : ℕ)
      → y < rows
      → x < width
      → get_or out (i + (y * width + x)) 0 ≡ get_or buf (i + (y * width + (width - 1 - x))) 0
  pub before : (k : ℕ) → k < i → get_or out k 0 ≡ get_or buf2 k 0

Rows-mirrored :
    {i width rows : ℕ} {buf buf2 : List ℕ} {r r' : Option (List ℕ)} (row : Row 0 i width buf buf2 r)
    (rest : Rows rows (i + width) width buf row.out r') (y x : ℕ)
    → y < suc rows
    → x < width
    → get_or rest.out (i + (y * width + x)) 0 ≡ get_or buf (i + (y * width + (width - 1 - x))) 0
Rows-mirrored {i} {width} {buf} row rest zero x h h' =
    rest.before (i + (0 * width + x)) (omega (arith, zero-mul width))
    ∙ row.mirrored (i + (0 * width + x)) (omega arith) (omega (arith, zero-mul width))
    ∙ ap (λ k. get_or buf k 0) (omega (arith, zero-mul width))
Rows-mirrored {i} {width} {buf} row rest (suc y) x h h' =
    ap (λ k. get_or rest.out k 0) (omega (arith, suc-mul y width))
    ∙ rest.mirrored y x (omega arith) h'
    ∙ ap (λ k. get_or buf k 0) (omega (arith, suc-mul y width))

module _ (width : ℕ) (buf : List ℕ) where
  mirror_rows-Rows :
      (rows i : ℕ) (buf2 : List ℕ)
      → i + rows * width ≤ length buf
      → length buf2 ≡ length buf
      → Rows rows i width buf buf2 (mirror_rows rows i width buf buf2)
  unfolding mirror_rows
  mirror_rows-Rows zero i buf2 fits same = record {
    out = buf2;
    result = refl;
    long = refl;
    mirrored = λ y x h h'. absurd (omega arith);
    before = λ k h. refl;
  }
  mirror_rows-Rows (suc rows) i buf2 fits same =
      let row =
        mirror_row-Row i width buf width 0 buf2 (omega arith) (omega (arith, suc-mul rows width))
          (omega (arith, suc-mul rows width)) in
      let rest =
        mirror_rows-Rows rows (i + width) row.out (omega (arith, suc-mul rows width))
          (row.long ∙ same) in
      record {
        out = rest.out;
        result = rw row.result rest.result;
        long = rest.long ∙ row.long;
        mirrored = Rows-mirrored row rest;
        before = λ k h. rest.before k (omega arith) ∙ row.outside k (inl h);
      }

-- On a frame of `height` rows of `width` words and a buffer as long, `apply_mirror_filter` accesses
-- both inside their bounds, and column `x` of row `y` of the result is column `width - 1 - x` of the
-- same row of the frame.
pub apply_mirror_filter_lem :
    (buf buf2 : List ℕ) (width height y x : ℕ)
    → length buf ≡ height * width
    → length buf2 ≡ height * width
    → y < height
    → x < width
    → (out : List ℕ) × (apply_mirror_filter buf buf2 width height ≡ some out)
      × (length out ≡ height * width)
      × (get_or out (y * width + x) 0 ≡ get_or buf (y * width + (width - 1 - x)) 0)
unfolding apply_mirror_filter
apply_mirror_filter_lem buf buf2 width height y x e e2 hy hx =
    let m = mirror_rows-Rows width buf height 0 buf2 (omega arith) (e2 ∙ sym e) in
    (
      m.out,
      m.result,
      m.long ∙ e2,
      ap (λ k. get_or m.out k 0) (omega arith)
          ∙ m.mirrored y x hy hx
          ∙ ap (λ k. get_or buf k 0) (omega arith),
    )

-- The filter comes to its end on every frame.
pub apply_mirror_filter-total :
    (buf buf2 : List ℕ) (width height : ℕ)
    → length buf ≡ height * width
    → length buf2 ≡ height * width
    → (out : List ℕ) × (apply_mirror_filter buf buf2 width height ≡ some out)
      × (length out ≡ height * width)
unfolding apply_mirror_filter
apply_mirror_filter-total buf buf2 width height e e2 =
    let m = mirror_rows-Rows width buf height 0 buf2 (omega arith) (e2 ∙ sym e) in
    (m.out, m.result, m.long ∙ e2)
