-- ===== src/Noc/Ring/Placed.antt =====
-- What a packet written to the ring buffer leaves there, and what it leaves as it was.
use reconos_v.Base.{ℕ, ◌+◌, ◌%◌, ◌<◌, ◌≡◌, ◌≢◌, refl, some}
use reconos_v.Base.{length, get_or, arith, ◌∙◌, length-append}
use reconos_v.Base.{sym}
use mathlib.Core.Path.{subst}
use mathlib.Core.Option.{some-injective}
use reconos_v.Base.Cyclic.{window}
use reconos_v.Base.Spread.{length-lay, window-lay, get_or-lay}
use reconos_v.Noc.Packet.{Packet, ring_buffer_size}
use reconos_v.Noc.Wire.{header, encode}
use reconos_v.Noc.Ring.{Ring, write_packet}
use reconos_v.Noc.Ring.Layout.{align-mod}
use reconos_v.Noc.Ring.Written.{Fits, end_offset, written, write_packet-ok}

-- a packet takes its payload and fourteen bytes
pub length-encode :
    (p : Packet) → length p.payload ≡ p.payload_length → length (encode p) ≡ 14 + p.payload_length
unfolding encode
length-encode p whole = omega (arith, length-append (header p) p.payload)

-- The ring after a packet holds its bytes from the write offset on, and every other byte, the size,
-- the read offset and the offset that the hardware knows as before; the new write offset is
-- word-aligned.
pub record Placed (r : Ring) (p : Packet) (after : Ring) : Type 0 where
  pub bytes : window after.buffer ring_buffer_size r.write_offset (length (encode p)) ≡ encode p
  pub others :
      (j : ℕ)
      → ((k : ℕ) → k < length (encode p) → (r.write_offset + k) % ring_buffer_size ≢ j)
      → get_or after.buffer j 0 ≡ get_or r.buffer j 0
  pub size : length after.buffer ≡ ring_buffer_size
  pub aligned : after.write_offset % 4 ≡ 0
  pub read_kept : after.read_offset ≡ r.read_offset
  pub hw_kept : after.hw_write_offset ≡ r.hw_write_offset

written-Placed : (r : Ring) (p : Packet) → Fits r p → Placed r p (written r p)
written-Placed r p f = record {
  bytes =
      window-lay r.buffer ring_buffer_size r.write_offset (encode p) f.write_in
        (omega (arith, f.full)) (omega (arith, length-encode p f.whole, f.fits));
  others =
      λ j apart. get_or-lay r.buffer ring_buffer_size r.write_offset (encode p) j f.write_in apart;
  size = length-lay r.buffer ring_buffer_size r.write_offset (encode p) ∙ f.full;
  aligned =
      align-mod (end_offset ((r.write_offset + 14) % ring_buffer_size) p.payload_length)
        (ground (arith, f.fits));
  read_kept = refl;
  hw_kept = refl;
}

pub write_packet-Placed :
    {r after : Ring} {p : Packet} → Fits r p → write_packet r p ≡ some after → Placed r p after
write_packet-Placed {r} {after} {p} f run =
    subst (λ u. Placed r p u) (some-injective _ _ (sym (write_packet-ok f) ∙ run))
      (written-Placed r p f)

-- Writing a packet that fits succeeds, and leaves the ring as `Placed` says.
pub write_packet_lem :
    (r : Ring) (p : Packet)
    → Fits r p
    → (after : Ring) × (write_packet r p ≡ some after) × Placed r p after
write_packet_lem r p f = (written r p, write_packet-ok f, written-Placed r p f)
