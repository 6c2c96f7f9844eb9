-- ===== src/Noc/Ring.antt =====
-- The ring buffer towards the hardware: free space, and the layout of a packet in it, from
-- projects/noc_test/linux/hwSwIf/reconosNoC.c. `none` is a write outside the buffer.
pub mod Layout
pub mod Limits
pub mod Placed
pub mod Room
pub mod Written
use reconos_v.Base.{ℕ, zero, suc, ◌+◌, ◌-◌, ◌/◌, ◌%◌, ◌^◌, Bool, Option, none, some, List, [], ◌∷◌}
use reconos_v.Base.{ltb, leb, ◌==◌, if◌then◌else◌, not, length, set, take, drop}
use reconos_v.Base.Maybe.{◌>>=◌}
use reconos_v.Base.Bits.{add32, sub32}
use reconos_v.Noc.Packet.{Packet, header_byte1, header_byte2}
use reconos_v.Noc.Packet.{ring_buffer_size, header_size, almost_full_threshold}

-- the part of `reconosNoCsw2hwInterface` that the ring buffer is in
pub record Ring : Type 0 where
  pub buffer : List ℕ
  pub read_offset : ℕ
  pub write_offset : ℕ
  pub hw_write_offset : ℕ

-- `(RING_BUFFER_SIZE + a - b - 1) % RING_BUFFER_SIZE`, in `uint32`
unfoldable pub gap : ℕ → ℕ → ℕ
gap a b = sub32 (sub32 (add32 ring_buffer_size a) b) 1 % ring_buffer_size

unfoldable pub enough_space : Ring → Packet → Bool
unfolding gap
enough_space r p =
    leb (add32 (add32 p.payload_length header_size) 4) (gap r.read_offset r.write_offset)

unfoldable pub is_almost_full : Ring → Bool
unfolding gap
is_almost_full r = not (leb almost_full_threshold (gap r.hw_write_offset r.write_offset))

-- `buffer[off] = b`
unfoldable pub put : List ℕ → ℕ → ℕ → Option (List ℕ)
put buffer off b = if ltb off (length buffer) then some (set buffer off b) else none

-- one byte, and the offset behind it
unfoldable pub store_byte : ℕ → List ℕ × ℕ → Option (List ℕ × ℕ)
unfolding put
store_byte b (buffer, off) = do
  stored ← put buffer off (b % 2 ^ 8)
  some (stored, (off + 1) % ring_buffer_size)

unfoldable pub write_integer : ℕ → List ℕ × ℕ → Option (List ℕ × ℕ)
write_integer value s = do
  s1 ← store_byte (value / 2 ^ 24) s
  s2 ← store_byte (value / 2 ^ 16) s1
  s3 ← store_byte (value / 2 ^ 8) s2
  store_byte value s3

-- `memcpy` into the buffer
unfoldable pub copy : List ℕ → ℕ → List ℕ → Option (List ℕ)
unfolding put
copy buffer off [] = some buffer
copy buffer off (b ∷ bs) = do stored ← put buffer off b; copy stored (off + 1) bs

-- The payload in one piece up to the end of the buffer, or in two pieces round it.
unfoldable pub write_payload : Packet → List ℕ × ℕ → Option (List ℕ × ℕ)
write_payload p (buffer, off) =
    let part1 = sub32 ring_buffer_size off in
    let part2 = sub32 p.payload_length part1 in
    if leb (add32 off p.payload_length) ring_buffer_size
    then (do
      one ← copy buffer off (take p.payload_length p.payload)
      some (one, add32 off p.payload_length))
    else (do
      first ← copy buffer off (take part1 p.payload)
      second ← copy first 0 (take part2 (drop part1 p.payload))
      some (second, part2))

-- `while(writeOffset % 4 != 0) writeOffset = (writeOffset + 1) % RING_BUFFER_SIZE`, for at most the
-- given number of rounds; three are enough.
unfoldable pub align_loop : ℕ → ℕ → ℕ
align_loop zero off = off
align_loop (suc rounds) off =
    let rest = align_loop rounds ((off + 1) % ring_buffer_size) in
    if off % 4 == 0 then off else rest

unfoldable pub write_packet : Ring → Packet → Option Ring
write_packet r p = do
  s1 ← write_integer (add32 p.payload_length header_size) (r.buffer, r.write_offset)
  s2 ← store_byte (header_byte1 p) s1
  s3 ← store_byte (header_byte2 p) s2
  s4 ← write_integer p.src_idp s3
  s5 ← write_integer p.dst_idp s4
  (buffer, off) ← write_payload p s5
  some (record r { buffer = buffer; write_offset = align_loop 3 off })
