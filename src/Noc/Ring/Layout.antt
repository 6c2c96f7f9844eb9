-- ===== src/Noc/Ring/Layout.antt =====
-- Each writing step into a ring buffer of full size lays its bytes round the buffer.
use reconos_v.Base.{ℕ, ◌+◌, ◌/◌, ◌%◌, ◌^◌, ◌≤◌, ◌<◌, ◌≡◌, refl, some, List, [], ◌∷◌}
use reconos_v.Base.{length, set, arith, length-set, ap, ◌∙◌}
use reconos_v.Base.Spread.{lay}
use reconos_v.Noc.Packet.{ring_buffer_size}
use reconos_v.Noc.Wire.{bytes4}
use reconos_v.Noc.Ring.{put, store_byte, write_integer, copy, align_loop}

abbrev pub lay64 : List ℕ → ℕ → List ℕ → List ℕ
lay64 buf off bs = lay buf ring_buffer_size off bs

module _ (buf : List ℕ) (off : ℕ) (full : length buf ≡ ring_buffer_size) where
  pub put-ok : (b : ℕ) → off < ring_buffer_size → put buf off b ≡ some (set buf off b)
  unfolding put
  put-ok b h = ground arith

  pub store_byte-ok :
      (b : ℕ)
      → off < ring_buffer_size
      → store_byte b (buf, off)
        ≡ some (lay64 buf off (b % 2 ^ 8 ∷ []), (off + 1) % ring_buffer_size)
  unfolding store_byte lay
  store_byte-ok b h = ground arith

pub write_integer-ok :
    (buf : List ℕ) (off v : ℕ)
    → length buf ≡ ring_buffer_size
    → off < ring_buffer_size
    → write_integer v (buf, off) ≡ some (lay64 buf off (bytes4 v), (off + 4) % ring_buffer_size)
unfolding write_integer lay
write_integer-ok buf off v full h =
    let b1 = set buf off (v / 2 ^ 24 % 2 ^ 8) in
    let o1 = (off + 1) % ring_buffer_size in
    let b2 = set b1 o1 (v / 2 ^ 16 % 2 ^ 8) in
    let o2 = (o1 + 1) % ring_buffer_size in
    let b3 = set b2 o2 (v / 2 ^ 8 % 2 ^ 8) in
    let o3 = (o2 + 1) % ring_buffer_size in
    let f1 = length-set buf off (v / 2 ^ 24 % 2 ^ 8) ∙ full in
    let f2 = length-set b1 o1 (v / 2 ^ 16 % 2 ^ 8) ∙ f1 in
    let f3 = length-set b2 o2 (v / 2 ^ 8 % 2 ^ 8) ∙ f2 in
    let end : (o3 + 1) % ring_buffer_size ≡ (off + 4) % ring_buffer_size = omega arith in
    rw
      (
        store_byte-ok buf off full (v / 2 ^ 24) h,
        store_byte-ok b1 o1 f1 (v / 2 ^ 16) (omega arith),
        store_byte-ok b2 o2 f2 (v / 2 ^ 8) (omega arith),
        store_byte-ok b3 o3 f3 v (omega arith),
      )
      (ap (λ k. some (set b3 o3 (v % 2 ^ 8), k)) end)

-- A copy that stays below the end of the buffer is laid out as it stands.
pub copy-lay :
    (buf : List ℕ) (off : ℕ) (bs : List ℕ)
    → length buf ≡ ring_buffer_size
    → off + length bs ≤ ring_buffer_size
    → copy buf off bs ≡ some (lay64 buf off bs)
unfolding copy lay
copy-lay buf off [] full fits = refl
copy-lay buf off (b ∷ []) full fits = ground arith
copy-lay buf off (b ∷ c ∷ bs) full fits =
    let e : (off + 1) % ring_buffer_size ≡ off + 1 = omega arith in
    rw (put-ok buf off full b (omega arith), e)
      (copy-lay (set buf off b) (off + 1) (c ∷ bs) (omega (arith, length-set buf off b))
        (omega arith))

-- three rounds of the loop reach the next multiple of four
pub align-mod : (off : ℕ) → off ≤ ring_buffer_size → align_loop 3 off % 4 ≡ 0
unfolding align_loop
align-mod off h = ground arith
