-- ===== src/Examples/Wires.antt =====
-- Packets in the ring buffer of the network interface.
use reconos_v.Base.{ℕ, ◌+◌, ◌≡◌, ◌≤◌, ◌<◌, refl, true, some, [], ◌∷◌, arith}
use reconos_v.Base.{replicate, length-replicate}
use reconos_v.Noc.Packet.{Packet}
use reconos_v.Noc.Wire.{encode, decode, decode-encode}
use reconos_v.Noc.Ring.{Ring, enough_space, write_packet}
use reconos_v.Noc.Ring.Written.{Fits, written, write_packet-ok}
use reconos_v.Noc.Ring.Placed.{Placed, write_packet_lem}
use reconos_v.Noc.Ring.Room.{unread_kept}
use reconos_v.Base.Cyclic.{window}
use reconos_v.Noc.Packet.{ring_buffer_size}
use reconos_v.Noc.Ring.Limits.{enough_space-round}

abbrev packet : ℕ → Packet
packet n = record {
  hw_addr_local = 2;
  hw_addr_global = 5;
  priority = 3;
  direction = 1;
  latency_critical = 0;
  src_idp = 0x12345678;
  dst_idp = 0x9ABCDEF0;
  payload_length = n;
  payload = replicate n 0xAA;
}

decode-encode_example :
    decode (encode (packet 2))
    ≡ some (record {
      total = 12;
      global = 5;
      local = 2;
      priority = 3;
      direction = 1;
      critical = 0;
      source = 0x12345678;
      target = 0x9ABCDEF0;
      payload = 0xAA ∷ 0xAA ∷ [];
    })
decode-encode_example = decode-encode (packet 2) (record {
  length_small = omega arith;
  global_small = omega arith;
  local_small = omega arith;
  priority_small = omega arith;
  direction_bit = omega arith;
  critical_bit = omega arith;
  source_word = omega arith;
  target_word = omega arith;
})

-- a ring whose offsets are as given
abbrev ring : ℕ → ℕ → Ring
ring read write = record {
  buffer = replicate 64 0;
  read_offset = read;
  write_offset = write;
  hw_write_offset = 0;
}

fitting : (r w n : ℕ) → w < 64 → n + 14 ≤ 64 → Fits (ring r w) (packet n)
fitting r w n hw hn = record {
  full = length-replicate {A = ℕ} 64 0;
  write_in = hw;
  whole = length-replicate {A = ℕ} n 0xAA;
  fits = hn;
}

write_packet_example :
    (after : Ring) × (write_packet (ring 40 60) (packet 5) ≡ some after)
    × Placed (ring 40 60) (packet 5) after
write_packet_example =
    write_packet_lem (ring 40 60) (packet 5) (fitting 40 60 5 (omega arith) (omega arith))

-- the ring after a packet of `n` bytes that is written at an offset
abbrev filled : (r w n : ℕ) → Ring
filled r w n = written (ring r w) (packet n)

filled_run :
    (r w n : ℕ) → w < 64 → n + 14 ≤ 64 → write_packet (ring r w) (packet n) ≡ some (filled r w n)
filled_run r w n hw hn = write_packet-ok (fitting r w n hw hn)

unread_kept_example :
    window (filled 40 60 5).buffer ring_buffer_size 40 20
    ≡ window (ring 40 60).buffer ring_buffer_size 40 20
unfolding enough_space
unread_kept_example =
    unread_kept (ring 40 60) (filled 40 60 5) (packet 5) 20
      (fitting 40 60 5 (omega arith) (omega arith)) (omega arith) (omega arith) refl refl
      (filled_run 40 60 5 (omega arith) (omega arith))

enough_space-round_example :
    (enough_space (ring 20 20) (packet 48) ≡ true)
    × ((filled 20 20 48).write_offset ≡ 20)
    × (enough_space (filled 20 20 48) (packet 48) ≡ true)
enough_space-round_example =
    enough_space-round (ring 20 20) (filled 20 20 48) (packet 48)
      (fitting 20 20 48 (omega arith) (omega arith)) refl refl (omega arith) (omega arith)
      (filled_run 20 20 48 (omega arith) (omega arith))
