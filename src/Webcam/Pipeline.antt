-- ===== src/Webcam/Pipeline.antt =====
-- demos/webcam/linux/webcam_demo.c: a frame goes from the ethernet thread through the two filter
-- threads and back, by three message boxes.
use reconos_v.Base.{ℕ, ◌*◌, ◌<◌, Option, none, some, List, [], ◌≡◌}
use reconos_v.Base.{refl, length, arith, true, ◌==◌, if◌then◌else◌}
use reconos_v.Base.Maybe.{◌>>=◌}
use reconos_v.Mbox.{Mbox, mbox_put, mbox_get}
use reconos_v.Mbox.Holds.{Holds, put-Holds, get-Holds}
use reconos_v.Webcam.Filter.{apply_mirror_filter, apply_sobel_filter}
use reconos_v.Webcam.Filter.Mirror.{apply_mirror_filter-total}
use reconos_v.Webcam.Filter.Sobel.{apply_sobel_filter-total}

-- The boxes, the frame buffer with its address, and the size of a frame.
pub record Demo : Type 0 where
  pub mb_start_filter_1 : Mbox
  pub mb_start_filter_2 : Mbox
  pub mb_done_filtering : Mbox
  pub framebuffer : ℕ
  pub frame : List ℕ
  pub size_x : ℕ
  pub size_y : ℕ

-- A frame at an address that is not the buffer's is not modelled: `none`.
unfoldable pub filter_1_function : (buf2 : List ℕ) → Demo → Option Demo
filter_1_function buf2 s = do
  (ret, start_1) ← mbox_get s.mb_start_filter_1
  mirrored ←
      if ret == s.framebuffer then apply_mirror_filter s.frame buf2 s.size_x s.size_y else none
  start_2 ← mbox_put s.mb_start_filter_2 ret
  some (record s { mb_start_filter_1 = start_1; mb_start_filter_2 = start_2; frame = mirrored })

unfoldable pub filter_2_function : Demo → Option Demo
filter_2_function s = do
  (ret, start_2) ← mbox_get s.mb_start_filter_2
  edges ← if ret == s.framebuffer then apply_sobel_filter s.frame s.size_x s.size_y else none
  done_box ← mbox_put s.mb_done_filtering ret
  some (record s { mb_start_filter_2 = start_2; mb_done_filtering = done_box; frame = edges })

-- `ethernet_function` between `read_frame` and its wait, and from its wait to `write_frame`.
unfoldable pub ethernet_put : Demo → Option Demo
ethernet_put s = do
  start_1 ← mbox_put s.mb_start_filter_1 s.framebuffer
  some (record s { mb_start_filter_1 = start_1 })

unfoldable pub ethernet_get : Demo → Option Demo
ethernet_get s = do
  (ret, done_box) ← mbox_get s.mb_done_filtering
  some (record s { mb_done_filtering = done_box })

-- One turn of the three threads, each in its place.
unfoldable pub frame_turn : (buf2 : List ℕ) → Demo → Option Demo
frame_turn buf2 s = do
  s1 ← ethernet_put s
  s2 ← filter_1_function buf2 s1
  s3 ← filter_2_function s2
  ethernet_get s3

pub record IsIdle (size : ℕ) (s : Demo) : Type 0 where
  pub first : Holds size [] s.mb_start_filter_1
  pub second : Holds size [] s.mb_start_filter_2
  pub third : Holds size [] s.mb_done_filtering
  pub whole : length s.frame ≡ s.size_y * s.size_x

same : (n : ℕ) → (n == n) ≡ true
same n = ground arith

filter_1-step :
    (s : Demo) (buf2 : List ℕ) {start_1 start_2 : Mbox} {mirrored : List ℕ}
    → mbox_get s.mb_start_filter_1 ≡ some (s.framebuffer, start_1)
    → apply_mirror_filter s.frame buf2 s.size_x s.size_y ≡ some mirrored
    → mbox_put s.mb_start_filter_2 s.framebuffer ≡ some start_2
    → filter_1_function buf2 s
      ≡ some
          (record s { mb_start_filter_1 = start_1; mb_start_filter_2 = start_2; frame = mirrored })
unfolding filter_1_function
filter_1-step s buf2 g f p = rw (g, same s.framebuffer, f, p) refl

filter_2-step :
    (s : Demo) {start_2 done_box : Mbox} {edges : List ℕ}
    → mbox_get s.mb_start_filter_2 ≡ some (s.framebuffer, start_2)
    → apply_sobel_filter s.frame s.size_x s.size_y ≡ some edges
    → mbox_put s.mb_done_filtering s.framebuffer ≡ some done_box
    → filter_2_function s
      ≡ some (record s { mb_start_filter_2 = start_2; mb_done_filtering = done_box; frame = edges })
unfolding filter_2_function
filter_2-step s g f p = rw (g, same s.framebuffer, f, p) refl

ethernet_put-step :
    (s : Demo) {start_1 : Mbox}
    → mbox_put s.mb_start_filter_1 s.framebuffer ≡ some start_1
    → ethernet_put s ≡ some (record s { mb_start_filter_1 = start_1 })
unfolding ethernet_put
ethernet_put-step s p = rw p refl

ethernet_get-step :
    (s : Demo) {ret : ℕ} {done_box : Mbox}
    → mbox_get s.mb_done_filtering ≡ some (ret, done_box)
    → ethernet_get s ≡ some (record s { mb_done_filtering = done_box })
unfolding ethernet_get
ethernet_get-step s g = rw g refl

turn-steps :
    (buf2 : List ℕ) (s s1 s2 s3 s4 : Demo)
    → ethernet_put s ≡ some s1
    → filter_1_function buf2 s1 ≡ some s2
    → filter_2_function s2 ≡ some s3
    → ethernet_get s3 ≡ some s4
    → frame_turn buf2 s ≡ some s4
unfolding frame_turn
turn-steps buf2 s s1 s2 s3 s4 a b c d = rw (a, b, c, d) refl

-- From empty boxes of at least one message, a turn comes to its end with empty boxes again and the
-- frame replaced, in its place, by what the sobel filter makes of what the mirror filter makes of it.
pub frame_turn_lem :
    {size : ℕ} (s : Demo) (buf2 : List ℕ)
    → 0 < size
    → IsIdle size s
    → length buf2 ≡ s.size_y * s.size_x
    → (s' : Demo) × (mirrored : List ℕ) × (frame_turn buf2 s ≡ some s')
      × IsIdle size s'
      × (apply_mirror_filter s.frame buf2 s.size_x s.size_y ≡ some mirrored)
      × (apply_sobel_filter mirrored s.size_x s.size_y ≡ some s'.frame)
frame_turn_lem s buf2 pos idle e2 =
    let (a, put_a, holds_a) = put-Holds s.framebuffer idle.first pos in
    let (a', get_a, holds_a') = get-Holds holds_a in
    let (mirrored, m, m_long) =
      apply_mirror_filter-total s.frame buf2 s.size_x s.size_y idle.whole e2 in
    let (b, put_b, holds_b) = put-Holds s.framebuffer idle.second pos in
    let (b', get_b, holds_b') = get-Holds holds_b in
    let (edges, f, f_long) = apply_sobel_filter-total mirrored s.size_x s.size_y m_long in
    let (c, put_c, holds_c) = put-Holds s.framebuffer idle.third pos in
    let (c', get_c, holds_c') = get-Holds holds_c in
    let s1 = record s { mb_start_filter_1 = a } in
    let s2 = record s { mb_start_filter_1 = a'; mb_start_filter_2 = b; frame = mirrored } in
    let s3 = record s2 { mb_start_filter_2 = b'; mb_done_filtering = c; frame = edges } in
    let s4 = record s3 { mb_done_filtering = c' } in
    (
      s4,
      mirrored,
      turn-steps buf2 s s1 s2 s3 s4 (ethernet_put-step s put_a)
          (filter_1-step s1 buf2 get_a m put_b) (filter_2-step s2 get_b f put_c)
          (ethernet_get-step s3 get_c),
      record { first = holds_a'; second = holds_b'; third = holds_c'; whole = f_long },
      m,
      f,
    )
