-- ===== src/Noc/Dummy.antt =====
-- The packet that projects/noc_test/linux/hwSwIf/hwSwIf.c sends.
use reconos_v.Base.{ℕ, zero, suc, ◌+◌, ◌%◌, ◌<◌, some, List, [], ◌∷◌, ◌≡◌, refl, ◌∙◌, ap, arith}
use reconos_v.Base.{length, get_elem?}
use reconos_v.Noc.Packet.{Packet}

-- The loop of `createDummyPacket`, `left` iterations from its end.
unfoldable pub dummy_loop : (left i : ℕ) → List ℕ
dummy_loop zero i = []
dummy_loop (suc left) i = ((i + 11) % 256) ∷ dummy_loop left (i + 1)

unfoldable pub create_dummy_packet : (payload_length : ℕ) → Packet
create_dummy_packet payload_length = record {
  direction = 1;
  src_idp = 0x03040506;
  dst_idp = 0x0708090a;
  latency_critical = 0;
  priority = 0;
  hw_addr_global = 1;
  hw_addr_local = 0;
  payload_length = payload_length;
  payload = dummy_loop payload_length 0;
}

length-dummy_loop : (left i : ℕ) → length (dummy_loop left i) ≡ left
unfolding dummy_loop
length-dummy_loop zero i = refl
length-dummy_loop (suc left) i = ap suc (length-dummy_loop left (i + 1))

get_elem?-dummy_loop :
    (left i k : ℕ) → k < left → get_elem? (dummy_loop left i) k ≡ some ((i + k + 11) % 256)
unfolding dummy_loop
get_elem?-dummy_loop zero i k h = absurd (omega arith)
get_elem?-dummy_loop (suc left) i zero h = ap some (omega arith)
get_elem?-dummy_loop (suc left) i (suc k) h =
    get_elem?-dummy_loop left (i + 1) k (omega arith) ∙ ap some (omega arith)

-- The payload of a dummy packet has the length that the packet says, and counts up from 11.
pub create_dummy_packet_lem :
    (payload_length : ℕ)
    → let p = create_dummy_packet payload_length in
      (length p.payload ≡ p.payload_length)
      × ((k : ℕ) → k < payload_length → get_elem? p.payload k ≡ some ((k + 11) % 256))
unfolding create_dummy_packet
create_dummy_packet_lem payload_length = (
  length-dummy_loop payload_length 0,
  λ k h. get_elem?-dummy_loop payload_length 0 k h ∙ ap some (omega arith),
)
