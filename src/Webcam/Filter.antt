-- ===== src/Webcam/Filter.antt =====
-- demos/webcam/linux/filter.c: the two filters, on a frame of `height` rows of `width` words each.
-- `none` is an access outside a buffer.
pub mod Mirror
pub mod Pixels
pub mod Sobel
use reconos_v.Base.{
  ℕ, zero, suc, ◌+◌, ◌*◌, ◌-◌, ◌/◌, ◌%◌, ◌^◌, Option, none, some, Bool, true, false,
}
use reconos_v.Base.{List, [], ◌∷◌, length, get_elem?, set, if◌then◌else◌, ltb, ◌==◌, ◌||◌}
use reconos_v.Base.Maybe.{◌>>=◌}

abbrev pub write : List ℕ → (index value : ℕ) → Option (List ℕ)
write buf index value = if ltb index (length buf) then some (set buf index value) else none

-- The inner loop of `apply_mirror_filter`, `left` iterations from its end.
unfoldable pub mirror_row : (left j i width : ℕ) (buf buf2 : List ℕ) → Option (List ℕ)
mirror_row zero j i width buf buf2 = some buf2
mirror_row (suc left) j i width buf buf2 = do
  v ← get_elem? buf (i + j)
  next ← write buf2 (i + (width - 1) - j) v
  mirror_row left (j + 1) i width buf next

-- Its outer loop, `left` rows from its end.
unfoldable pub mirror_rows : (left i width : ℕ) (buf buf2 : List ℕ) → Option (List ℕ)
mirror_rows zero i width buf buf2 = some buf2
mirror_rows (suc left) i width buf buf2 = do
  row ← mirror_row width 0 i width buf buf2
  mirror_rows left (i + width) width buf row

-- The frame that is copied back; `buf2` is what `malloc` returned.
unfoldable pub apply_mirror_filter : (buf buf2 : List ℕ) (width height : ℕ) → Option (List ℕ)
apply_mirror_filter buf buf2 width height = mirror_rows height 0 width buf buf2

abbrev pub black : ℕ
black = 0

abbrev pub white : ℕ
white = 2 ^ 32 - 2 ^ 8

-- The highest byte of a word
abbrev pub gray : ℕ → ℕ
gray v = v / 2 ^ 24

-- The test `c > threshold` for `c` the sum of some grays less that of others.
abbrev pub steep : (plus minus threshold : ℕ) → Bool
steep plus minus threshold = ltb (minus + threshold) plus

-- What the filter makes of a pixel from those round it: n is above it and s below.
unfoldable pub edge : (nw n ne w e sw s se : ℕ) → ℕ
edge nw n ne w e sw s se =
    let vertical = steep (gray nw + 2 * gray n + gray ne) (gray sw + 2 * gray s + gray se) 60 in
    let horizontal = steep (gray nw + 2 * gray w + gray sw) (gray ne + 2 * gray e + gray se) 40 in
    if vertical || horizontal then white else black

-- The test for a pixel of the border
unfoldable pub on_border : (i width height : ℕ) → Bool
on_border i width height =
    (i % width == 0)
    || ((i % width == (width - 1)) || (ltb i width || ltb ((height - 1) * width) i))

unfoldable pub sobel_pixel : (buf : List ℕ) (width i : ℕ) → Option ℕ
sobel_pixel buf width i = do
  nw ← get_elem? buf (i - width - 1)
  n ← get_elem? buf (i - width)
  ne ← get_elem? buf (i - width + 1)
  w ← get_elem? buf (i - 1)
  e ← get_elem? buf (i + 1)
  sw ← get_elem? buf (i + width - 1)
  s ← get_elem? buf (i + width)
  se ← get_elem? buf (i + width + 1)
  some (edge nw n ne w e sw s se)

-- The loop of `apply_sobel_filter`, `left` pixels from its end: the words of `buf2` from `i` on.
unfoldable pub sobel_loop : (left i : ℕ) (buf : List ℕ) (width height : ℕ) → Option (List ℕ)
sobel_loop zero i buf width height = some []
sobel_loop (suc left) i buf width height = do
  v ← if on_border i width height then some black else sobel_pixel buf width i
  rest ← sobel_loop left (i + 1) buf width height
  some (v ∷ rest)

unfoldable pub apply_sobel_filter : (buf : List ℕ) (width height : ℕ) → Option (List ℕ)
apply_sobel_filter buf width height = sobel_loop (height * width) 0 buf width height
