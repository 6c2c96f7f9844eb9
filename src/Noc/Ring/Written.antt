-- ===== src/Noc/Ring/Written.antt =====
-- What a packet leaves in the ring buffer.
use native.Mathlib.Decide.{dec_lt}
use reconos_v.Base.{ℕ, ◌+◌, ◌-◌, ◌%◌, ◌^◌, ◌≤◌, ◌<◌, ◌≡◌, refl, false, some, List, [], ◌∷◌, ◌++◌}
use reconos_v.Base.{
  length, take, drop, arith, leb, if◌then◌else◌, sym, ap, ◌∙◌, take-append-drop, length-take,
  length-drop, take-all,
}
use reconos_v.Base.Bits.{add32, sub32}
use reconos_v.Base.Spread.{length-lay, lay-append}
use reconos_v.Noc.Packet.{Packet, ring_buffer_size, header_size, header_byte1, header_byte2}
use reconos_v.Noc.Wire.{bytes4, encode}
use reconos_v.Noc.Ring.{Ring, copy, write_payload, align_loop, write_packet}
use reconos_v.Noc.Ring.Layout.{lay64, store_byte-ok, write_integer-ok, copy-lay}

-- The offset behind the payload: just behind the buffer, not 0, if the payload ends with it.
abbrev pub end_offset : ℕ → ℕ → ℕ
end_offset off n = if leb (off + n) ring_buffer_size then off + n else off + n - ring_buffer_size

-- Two pieces round the end of the buffer are the whole.
round :
    (buf : List ℕ) (off n : ℕ) (bs : List ℕ)
    → off < ring_buffer_size
    → length (take n bs) ≡ ring_buffer_size - off
    → lay64 (lay64 buf off (take n bs)) 0 (drop n bs) ≡ lay64 buf off bs
round buf off n bs h e =
    let z : (off + length (take n bs)) % ring_buffer_size ≡ 0 = omega arith in
    sym (
      lay-append buf ring_buffer_size off (take n bs) (drop n bs) h
      ∙ ap (λ k. lay64 (lay64 buf off (take n bs)) k (drop n bs)) z)
    ∙ ap (lay64 buf off) (take-append-drop n bs)

module _ (p : Packet) (buf : List ℕ) (off : ℕ) (full : length buf ≡ ring_buffer_size)
    (h : off < ring_buffer_size) (fits : p.payload_length ≤ ring_buffer_size)
    (whole : length p.payload ≡ p.payload_length) where
  -- in one piece
  payload_one :
      off + p.payload_length ≤ ring_buffer_size
      → write_payload p (buf, off) ≡ some (lay64 buf off p.payload, off + p.payload_length)
  unfolding write_payload
  payload_one le =
      let e : take p.payload_length p.payload ≡ p.payload =
        take-all p.payload_length p.payload (omega arith) in
      ground (arith, e, copy-lay buf off p.payload)

  -- in two pieces
  payload_two :
      ring_buffer_size < off + p.payload_length
      → write_payload p (buf, off)
        ≡ some (lay64 buf off p.payload, off + p.payload_length - ring_buffer_size)
  unfolding write_payload
  payload_two lt =
      let n1 = ring_buffer_size - off in
      let xs = take n1 p.payload in
      let ys = drop n1 p.payload in
      let lx : length xs ≡ n1 = omega (arith, length-take n1 p.payload) in
      let ly : length ys ≡ off + p.payload_length - ring_buffer_size =
        omega (arith, length-drop n1 p.payload) in
      let first : copy buf off xs ≡ some (lay64 buf off xs) =
        copy-lay buf off xs full (omega arith) in
      let second : copy (lay64 buf off xs) 0 ys ≡ some (lay64 (lay64 buf off xs) 0 ys) =
        copy-lay (lay64 buf off xs) 0 ys (length-lay buf ring_buffer_size off xs ∙ full)
          (omega arith) in
      let joined : lay64 (lay64 buf off xs) 0 ys ≡ lay64 buf off p.payload =
        round buf off n1 p.payload h lx in
      let p1 : sub32 ring_buffer_size off ≡ n1 = omega arith in
      let p2 : sub32 p.payload_length n1 ≡ off + p.payload_length - ring_buffer_size =
        omega arith in
      let all : take (off + p.payload_length - ring_buffer_size) ys ≡ ys =
        take-all _ ys (omega arith) in
      let test : leb (add32 off p.payload_length) ring_buffer_size ≡ false = ground arith in
      rw (test, p1, p2, first, all, second, joined)

  payload-ok :
      write_payload p (buf, off) ≡ some (lay64 buf off p.payload, end_offset off p.payload_length)
  payload-ok = elim (dec_lt ring_buffer_size (off + p.payload_length)) [
    | yes lt ↦ payload_two lt ∙ ground arith
    | no ge ↦ payload_one (omega arith) ∙ ground arith
  ]

-- the ring after a packet
abbrev pub written : Ring → Packet → Ring
written r p = record r {
  buffer = lay64 r.buffer r.write_offset (encode p);
  write_offset =
      align_loop 3 (end_offset ((r.write_offset + 14) % ring_buffer_size) p.payload_length);
}

-- A list laid behind another is laid with it.
onward :
    (buf : List ℕ) (w o : ℕ) (xs ys : List ℕ)
    → w < ring_buffer_size
    → (w + length xs) % ring_buffer_size ≡ o
    → lay64 (lay64 buf w xs) o ys ≡ lay64 buf w (xs ++ ys)
onward buf w o xs ys h e =
    ap (λ k. lay64 (lay64 buf w xs) k ys) (sym e) ∙ sym (lay-append buf ring_buffer_size w xs ys h)

-- the five writes of the header, one behind the other
header-lay :
    (buf : List ℕ) (w : ℕ) (p : Packet)
    → w < ring_buffer_size
    → let o1 = (w + 4) % ring_buffer_size in
      let o2 = (o1 + 1) % ring_buffer_size in
      let o3 = (o2 + 1) % ring_buffer_size in
      let o4 = (o3 + 4) % ring_buffer_size in
      let b1 = lay64 buf w (bytes4 (p.payload_length + header_size)) in
      let b2 = lay64 b1 o1 (header_byte1 p ∷ []) in
      let b3 = lay64 b2 o2 (header_byte2 p ∷ []) in
      let b4 = lay64 b3 o3 (bytes4 p.src_idp) in
      let b5 = lay64 b4 o4 (bytes4 p.dst_idp) in
      lay64 b5 ((w + 14) % ring_buffer_size) p.payload ≡ lay64 buf w (encode p)
unfolding encode
header-lay buf w p h =
    let o1 = (w + 4) % ring_buffer_size in
    let o2 = (o1 + 1) % ring_buffer_size in
    let o3 = (o2 + 1) % ring_buffer_size in
    let o4 = (o3 + 4) % ring_buffer_size in
    let x1 = bytes4 (p.payload_length + header_size) in
    let x2 = x1 ++ header_byte1 p ∷ [] in
    let x3 = x2 ++ header_byte2 p ∷ [] in
    let x4 = x3 ++ bytes4 p.src_idp in
    let x5 = x4 ++ bytes4 p.dst_idp in
    rw (
      onward buf w o1 x1 (header_byte1 p ∷ []) h refl,
      onward buf w o2 x2 (header_byte2 p ∷ []) h (omega arith),
      onward buf w o3 x3 (bytes4 p.src_idp) h (omega arith),
      onward buf w o4 x4 (bytes4 p.dst_idp) h (omega arith),
      onward buf w ((w + 14) % ring_buffer_size) x5 p.payload h refl,
    )

header_byte1-lt : (p : Packet) → header_byte1 p % 2 ^ 8 ≡ header_byte1 p
unfolding header_byte1
header_byte1-lt p = omega arith

header_byte2-lt : (p : Packet) → header_byte2 p % 2 ^ 8 ≡ header_byte2 p
unfolding header_byte2
header_byte2-lt p = omega arith

-- A ring whose offsets lie in its buffer, and a packet whose payload has the length that it tells
-- and which, with header and length, fits the buffer.
pub record Fits (r : Ring) (p : Packet) : Type 0 where
  pub full : length r.buffer ≡ ring_buffer_size
  pub write_in : r.write_offset < ring_buffer_size
  pub whole : length p.payload ≡ p.payload_length
  pub fits : p.payload_length + 14 ≤ ring_buffer_size

pub write_packet-ok : {r : Ring} {p : Packet} → Fits r p → write_packet r p ≡ some (written r p)
unfolding write_packet
write_packet-ok {r} {p} f =
    let w = r.write_offset in
    let o1 = (w + 4) % ring_buffer_size in
    let o2 = (o1 + 1) % ring_buffer_size in
    let o3 = (o2 + 1) % ring_buffer_size in
    let o4 = (o3 + 4) % ring_buffer_size in
    let b1 = lay64 r.buffer w (bytes4 (p.payload_length + header_size)) in
    let b2 = lay64 b1 o1 (header_byte1 p ∷ []) in
    let b3 = lay64 b2 o2 (header_byte2 p ∷ []) in
    let b4 = lay64 b3 o3 (bytes4 p.src_idp) in
    let b5 = lay64 b4 o4 (bytes4 p.dst_idp) in
    let l1 = length-lay r.buffer 64 w (bytes4 (p.payload_length + header_size)) ∙ f.full in
    let l2 = length-lay b1 64 o1 (header_byte1 p ∷ []) ∙ l1 in
    let l3 = length-lay b2 64 o2 (header_byte2 p ∷ []) ∙ l2 in
    let l4 = length-lay b3 64 o3 (bytes4 p.src_idp) ∙ l3 in
    let l5 = length-lay b4 64 o4 (bytes4 p.dst_idp) ∙ l4 in
    let total : add32 p.payload_length header_size ≡ p.payload_length + header_size =
      omega (arith, f.fits) in
    let end : (o4 + 4) % ring_buffer_size ≡ (w + 14) % ring_buffer_size = omega arith in
    rw (
      total,
      write_integer-ok r.buffer w (p.payload_length + header_size) f.full f.write_in,
      store_byte-ok b1 o1 l1 (header_byte1 p) (omega arith),
      header_byte1-lt p,
      store_byte-ok b2 o2 l2 (header_byte2 p) (omega arith),
      header_byte2-lt p,
      write_integer-ok b3 o3 p.src_idp l3 (omega arith),
      write_integer-ok b4 o4 p.dst_idp l4 (omega arith),
      end,
      payload-ok p b5 ((w + 14) % ring_buffer_size) l5 (omega arith) (omega (arith, f.fits))
          f.whole,
      header-lay r.buffer w p f.write_in,
    )
