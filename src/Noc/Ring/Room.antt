-- ===== src/Noc/Ring/Room.antt =====
-- What the test for free space promises.
use reconos_v.Base.{ℕ, ◌+◌, ◌-◌, ◌%◌, ◌^◌, ◌*◌, ◌/◌, ◌==◌, ◌≤◌, ◌<◌, ◌≡◌, ◌≢◌, true, some}
use reconos_v.Base.{arith, leb, if◌then◌else◌, ◌∙◌}
use mathlib.Core.Option.{some-injective}
use reconos_v.Base.{sym, ap}
use reconos_v.Base.Cyclic.{window, window-congr}
use reconos_v.Base.Spread.{get_or-lay}
use reconos_v.Noc.Wire.{encode}
use reconos_v.Noc.Ring.Placed.{length-encode}
use reconos_v.Noc.Packet.{Packet, ring_buffer_size}
use reconos_v.Noc.Ring.{Ring, gap, enough_space, align_loop, write_packet}
use reconos_v.Noc.Ring.Written.{Fits, end_offset, written, write_packet-ok}

-- the bytes between the write offset and the byte before the read offset
abbrev pub free : Ring → ℕ
free r =
    if leb r.read_offset r.write_offset
    then ring_buffer_size + r.read_offset - r.write_offset - 1
    else r.read_offset - r.write_offset - 1

-- The test is exact, for offsets inside the buffer and a payload length without wrap-around: it
-- accepts a packet just when the fourteen bytes of its length and its header and its payload find
-- room before the read offset.
pub enough_space_lem :
    (r : Ring) (p : Packet)
    → r.read_offset < ring_buffer_size
    → r.write_offset < ring_buffer_size
    → p.payload_length + 14 < 2 ^ 32
    → enough_space r p ≡ leb (p.payload_length + 14) (free r)
unfolding enough_space gap
enough_space_lem r p hr hw hp = ground arith

-- the offset behind the payload, moved on to a word
next_offset_lem :
    (w n : ℕ)
    → w < ring_buffer_size
    → n + 14 ≤ ring_buffer_size
    → align_loop 3 (end_offset ((w + 14) % ring_buffer_size) n) ≡ (
        if (w + 14) % ring_buffer_size + n == ring_buffer_size
        then ring_buffer_size
        else (w + 14 + n + 3) / 4 * 4 % ring_buffer_size)
unfolding align_loop
next_offset_lem w n hw hn = ground arith

-- The new write offset is the end of the packet, rounded up to a word and round the buffer, but
-- for a packet whose payload ends with the buffer: behind that, the offset is outside the buffer.
pub write_packet-offset :
    {r after : Ring} {p : Packet}
    → Fits r p
    → write_packet r p ≡ some after
    → after.write_offset ≡ (
        if (r.write_offset + 14) % ring_buffer_size + p.payload_length == ring_buffer_size
        then ring_buffer_size
        else (r.write_offset + 14 + p.payload_length + 3) / 4 * 4 % ring_buffer_size)
write_packet-offset {r} {after} {p} f run =
    ap (λ k. k.write_offset) (some-injective _ _ (sym run ∙ write_packet-ok f))
    ∙ next_offset_lem r.write_offset p.payload_length f.write_in f.fits

-- A cell that is not read yet is none of those that a packet goes to.
apart :
    (read w unread k i n : ℕ)
    → read < ring_buffer_size
    → w < ring_buffer_size
    → unread < ring_buffer_size
    → (read + unread) % ring_buffer_size ≡ w
    → k < unread
    → n ≤ (if leb read w then ring_buffer_size + read - w - 1 else read - w - 1)
    → i < n
    → (read + k) % ring_buffer_size ≢ (w + i) % ring_buffer_size
apart read w unread k i n hr hw hu e hk hn hi = ground arith

-- When `unread` bytes from the read offset on, up to the write offset, are not read yet, and they are
-- fewer than the ring holds, a packet that the test accepts and that fits the buffer is written without
-- a change to any of them. (A ring that is full of unread bytes has the offsets of an empty one.)
pub unread_kept :
    (r after : Ring) (p : Packet) (unread : ℕ)
    → Fits r p
    → r.read_offset < ring_buffer_size
    → unread < ring_buffer_size
    → (r.read_offset + unread) % ring_buffer_size ≡ r.write_offset
    → enough_space r p ≡ true
    → write_packet r p ≡ some after
    → window after.buffer ring_buffer_size r.read_offset unread
      ≡ window r.buffer ring_buffer_size r.read_offset unread
unread_kept r after p unread f hr hu count room run =
    let w = r.write_offset in
    let small : p.payload_length + 14 < 2 ^ 32 = omega (arith, f.fits) in
    let ok : leb (p.payload_length + 14) (free r) ≡ true =
      sym (enough_space_lem r p hr f.write_in small) ∙ room in
    let e : after ≡ written r p = some-injective _ _ (sym run ∙ write_packet-ok f) in
    let room_left : p.payload_length + 14 ≤ free r = ground (arith, ok) in
    ap (λ k. window k.buffer ring_buffer_size r.read_offset unread) e
    ∙ window-congr (written r p).buffer r.buffer ring_buffer_size r.read_offset unread hr
        (λ k j lt at. get_or-lay r.buffer ring_buffer_size w (encode p) j f.write_in (λ i li both.
          apart r.read_offset w unread k i (p.payload_length + 14) hr f.write_in hu count lt
            room_left (omega (arith, length-encode p f.whole)) (at ∙ sym both)))
