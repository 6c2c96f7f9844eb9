-- ===== src/Noc/Ring/Limits.antt =====
-- Where the ring buffer's two tests and its offsets leave what they are meant for.
use reconos_v.Base.{◌+◌, ◌-◌, ◌%◌, ◌^◌, ◌≤◌, ◌<◌, ◌≡◌, true, some, none}
use reconos_v.Base.{arith, leb, ltb, ◌∙◌}
use reconos_v.Noc.Packet.{Packet, ring_buffer_size}
use reconos_v.Noc.Ring.{
  Ring, gap, enough_space, is_almost_full, put, store_byte, write_integer, write_packet,
}
use reconos_v.Noc.Ring.Written.{Fits}
use reconos_v.Noc.Ring.Placed.{write_packet-Placed}
use reconos_v.Noc.Ring.Room.{free, write_packet-offset}

-- A packet whose payload ends with the buffer leaves a write offset that is outside it, and no
-- packet can be written there: the first byte would be stored behind the buffer.
pub write_packet-end :
    (r after : Ring) (p q : Packet)
    → Fits r p
    → (r.write_offset + 14) % ring_buffer_size + p.payload_length ≡ ring_buffer_size
    → write_packet r p ≡ some after
    → write_packet after q ≡ none
unfolding write_packet write_integer store_byte put
write_packet-end r after p q f e run =
    let at : after.write_offset ≡ ring_buffer_size = write_packet-offset f run ∙ ground arith in
    ground (arith, at, (write_packet-Placed f run).size)

-- Into an empty ring the test accepts payloads of 47 to 49 bytes, whose padding to a word it does
-- not count: the write offset comes round to the read offset, which is how an empty ring looks, and
-- the test accepts the next such packet on top of the unread one.
pub enough_space-round :
    (r after : Ring) (p : Packet)
    → Fits r p
    → r.read_offset ≡ r.write_offset
    → r.write_offset % 4 ≡ 0
    → 47 ≤ p.payload_length
    → p.payload_length ≤ 49
    → write_packet r p ≡ some after
    → (enough_space r p ≡ true)
      × (after.write_offset ≡ after.read_offset)
      × (enough_space after p ≡ true)
unfolding enough_space gap
enough_space-round r after p f same aligned low high run =
    let kept : after.read_offset ≡ r.read_offset = (write_packet-Placed f run).read_kept in
    let at : after.write_offset ≡ r.write_offset =
      write_packet-offset f run ∙ ground (arith, f.write_in) in
    (ground (arith, f.write_in), ground arith, ground (arith, f.write_in))

-- A payload length just below 2^32 wraps round in the test, which accepts it, whatever is free.
pub enough_space-wrap :
    (r : Ring) (p : Packet)
    → 2 ^ 32 ≤ p.payload_length + 14
    → p.payload_length < 2 ^ 32
    → enough_space r p ≡ leb (p.payload_length + 14 - 2 ^ 32) (gap r.read_offset r.write_offset)
unfolding enough_space
enough_space-wrap r p hi lo = ground arith

-- The test for an almost full buffer measures the room up to the offset that the hardware was last
-- told, not up to the read offset.
pub is_almost_full_lem :
    (r : Ring)
    → r.hw_write_offset < ring_buffer_size
    → r.write_offset < ring_buffer_size
    → is_almost_full r ≡ ltb (free (record r { read_offset = r.hw_write_offset })) 20
unfolding is_almost_full gap
is_almost_full_lem r hr hw = ground arith
