-- ===== src/Webcam/Viewer.antt =====
-- demos/webcam/gui/src/receiveSendVideo.c: the flip filter of the viewer, and the copy of a pixel, on frames of three bytes a
-- pixel. `none` is an access outside a buffer.
pub mod Mirrored
use reconos_v.Base.{
  ℕ, zero, suc, ◌+◌, ◌*◌, ◌-◌, ◌≤◌, ◌<◌, Option, some, List, ◌≡◌, ◌≢◌, refl, ◌∙◌, sym, ap,
}
use reconos_v.Base.{
  length, get_elem?, get_or, set, length-set, get_or-set_self, get_or-set_ne, arith,
}
use reconos_v.Base.{
  get_elem?-eq-get_or, lt→ltb, ltb, if◌then◌else◌, Bool-cases, ◌==◌, ==_iff, inl, inr, true, false,
}
use reconos_v.Base.Maybe.{◌>>=◌}
use reconos_v.Webcam.Filter.{write}

-- The loop over the bytes of a pixel, `left` of them from its end.
unfoldable pub copy_pixel : (left j k i : ℕ) (buf buf2 : List ℕ) → Option (List ℕ)
copy_pixel zero j k i buf buf2 = some buf2
copy_pixel (suc left) j k i buf buf2 = do
  v ← get_elem? buf (i + j)
  next ← write buf2 (k + j) v
  copy_pixel left (j + 1) k i buf next

-- The loop over the pixels, `left` of them from its end.
unfoldable pub flip_loop : (left i k : ℕ) (buf buf2 : List ℕ) → Option (List ℕ)
flip_loop zero i k buf buf2 = some buf2
flip_loop (suc left) i k buf buf2 = do
  next ← copy_pixel 3 0 k i buf buf2
  flip_loop left (i + 3) (k - 3) buf next

-- The frame that is copied back; `buf2` is the array on the stack.
unfoldable pub apply_flip_filter : (buf buf2 : List ℕ) (width height : ℕ) → Option (List ℕ)
apply_flip_filter buf buf2 width height =
    flip_loop (height * width) 0 (height * width * 3 - 3) buf buf2

-- The bytes of a pixel from `j` on are those of the other, and the rest is as it was.
record Copied (left j k i : ℕ) (buf buf2 : List ℕ) (r : Option (List ℕ)) : Type 0 where
  pub out : List ℕ
  pub result : r ≡ some out
  pub long : length out ≡ length buf2
  pub copied : (c : ℕ) → j ≤ c → c < j + left → get_or out (k + c) 0 ≡ get_or buf (i + c) 0
  pub below : (c : ℕ) → c < k + j → get_or out c 0 ≡ get_or buf2 c 0
  pub above : (c : ℕ) → k + j + left ≤ c → get_or out c 0 ≡ get_or buf2 c 0

copy_pixel-Copied :
    (left j k i : ℕ) (buf buf2 : List ℕ)
    → i + j + left ≤ length buf
    → k + j + left ≤ length buf2
    → Copied left j k i buf buf2 (copy_pixel left j k i buf buf2)
unfolding copy_pixel
copy_pixel-Copied zero j k i buf buf2 h h2 = record {
  out = buf2;
  result = refl;
  long = refl;
  copied = λ c le lt. absurd (omega arith);
  below = λ c lt. refl;
  above = λ c le. refl;
}
copy_pixel-Copied (suc left) j k i buf buf2 h h2 =
    let v = get_or buf (i + j) 0 in
    let rest =
      copy_pixel-Copied left (j + 1) k i buf (set buf2 (k + j) v) (omega arith)
        (omega (arith, length-set buf2 (k + j) v)) in
    record {
      out = rest.out;
      result =
          rw
            (
              get_elem?-eq-get_or buf (i + j) 0 (omega arith),
              lt→ltb (k + j) (length buf2) (omega arith),
            )
            rest.result;
      long = rest.long ∙ length-set buf2 (k + j) v;
      copied = λ c le lt. elim (Bool-cases (c == j)) [
        | inl e ↦
            ap (λ d. get_or rest.out (k + d) 0) ((==_iff c j).0 e)
            ∙ rest.below (k + j) (omega arith)
            ∙ get_or-set_self buf2 (k + j) v 0 (omega arith)
            ∙ ap (λ d. get_or buf (i + d) 0) (sym ((==_iff c j).0 e))
        | inr e ↦ rest.copied c (next c e le) (omega arith)
      ];
      below = λ c lt. rest.below c (omega arith) ∙ get_or-set_ne buf2 v 0 (λ e. omega arith);
      above = λ c le. rest.above c (omega arith) ∙ get_or-set_ne buf2 v 0 (λ e. omega arith);
    }
  where
    next : (c : ℕ) → (c == j) ≡ false → j ≤ c → j + 1 ≤ c
    next c e le = ground arith

-- The first `left` pixels are those from the `q`th on, the last first; the others are as they were.
record Flipped (left q : ℕ) (buf buf2 : List ℕ) (r : Option (List ℕ)) : Type 0 where
  pub out : List ℕ
  pub result : r ≡ some out
  pub long : length out ≡ length buf2
  pub flipped :
      (p j : ℕ)
      → p < left
      → j < 3
      → get_or out (p * 3 + j) 0 ≡ get_or buf ((q + left - 1 - p) * 3 + j) 0
  pub behind : (c : ℕ) → left * 3 ≤ c → get_or out c 0 ≡ get_or buf2 c 0

flip_loop-Flipped :
    (left q i k : ℕ) (buf buf2 : List ℕ)
    → i ≡ q * 3
    → k ≡ left * 3 - 3
    → (q + left) * 3 ≤ length buf
    → left * 3 ≤ length buf2
    → Flipped left q buf buf2 (flip_loop left i k buf buf2)
unfolding flip_loop
flip_loop-Flipped zero q i k buf buf2 ei ek h h2 = record {
  out = buf2;
  result = refl;
  long = refl;
  flipped = λ p j lt. absurd (omega arith);
  behind = λ c le. refl;
}
flip_loop-Flipped (suc left) q i k buf buf2 ei ek h h2 =
    let pixel = copy_pixel-Copied 3 0 k i buf buf2 (omega arith) (omega arith) in
    let rest =
      flip_loop-Flipped left (q + 1) (i + 3) (k - 3) buf pixel.out (omega arith) (omega arith)
        (omega arith) (omega (arith, pixel.long)) in
    record {
      out = rest.out;
      result = rw pixel.result rest.result;
      long = rest.long ∙ pixel.long;
      flipped = λ p j lt lt'. elim (Bool-cases (p == left)) [
        | inl e ↦
            let last = (==_iff p left).0 e in
            rest.behind (p * 3 + j) (omega (arith, last))
            ∙ ap (λ c. get_or pixel.out c 0) (omega (arith, last))
            ∙ pixel.copied j (omega arith) (omega arith)
            ∙ ap (λ c. get_or buf c 0) (omega (arith, last))
        | inr e ↦
            rest.flipped p j (earlier p e lt) lt'
            ∙ ap (λ c. get_or buf c 0) (omega (arith, earlier p e lt))
      ];
      behind = λ c le. rest.behind c (omega arith) ∙ pixel.above c (omega arith);
    }
  where
    earlier : (p : ℕ) → (p == left) ≡ false → p < suc left → p < left
    earlier p e lt = ground arith

-- On a frame of `height` rows of `width` pixels and an array as long, `apply_flip_filter` accesses both
-- inside their bounds, and pixel `p` of the result is the pixel as far from the end of the frame.
pub apply_flip_filter_lem :
    (buf buf2 : List ℕ) (width height p j : ℕ)
    → length buf ≡ height * width * 3
    → length buf2 ≡ height * width * 3
    → p < height * width
    → j < 3
    → (out : List ℕ) × (apply_flip_filter buf buf2 width height ≡ some out)
      × (length out ≡ height * width * 3)
      × (get_or out (p * 3 + j) 0 ≡ get_or buf ((height * width - 1 - p) * 3 + j) 0)
unfolding apply_flip_filter
apply_flip_filter_lem buf buf2 width height p j e e2 hp hj =
    let f =
      flip_loop-Flipped (height * width) 0 0 (height * width * 3 - 3) buf buf2 refl refl
        (omega arith) (omega arith) in
    (f.out, f.result, f.long ∙ e2, f.flipped p j hp hj ∙ ap (λ c. get_or buf c 0) (omega arith))
