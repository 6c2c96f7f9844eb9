-- ===== src/Noc/Packet.antt =====
-- Packets, and the constants of projects/noc_test/linux/hwSwIf/reconosNoC.h.
use reconos_v.Base.{ℕ, ◌+◌, ◌*◌, ◌%◌, ◌^◌, List}

-- `reconosNoCPacket`. A `char` is its byte; the payload is the array that the pointer leads to.
pub record Packet : Type 0 where
  pub hw_addr_local : ℕ
  pub hw_addr_global : ℕ
  pub priority : ℕ
  pub direction : ℕ
  pub latency_critical : ℕ
  pub src_idp : ℕ
  pub dst_idp : ℕ
  pub payload_length : ℕ
  pub payload : List ℕ

abbrev pub mbox_size : ℕ
mbox_size = 4

abbrev pub ring_buffer_size : ℕ
ring_buffer_size = 64

abbrev pub header_size : ℕ
header_size = 10

abbrev pub almost_full_threshold : ℕ
almost_full_threshold = 20

-- `(v & MASK) << OFFSET`, for a mask of `width` ones
abbrev pub field : (width offset v : ℕ) → ℕ
field width offset v = v % 2 ^ width * 2 ^ offset

-- The fields of a header byte do not overlap, so that `|=` adds them.
unfoldable pub header_byte1 : Packet → ℕ
header_byte1 p = field 4 0 p.hw_addr_global + field 2 4 p.hw_addr_local + field 2 6 p.priority

unfoldable pub header_byte2 : Packet → ℕ
header_byte2 p = field 1 0 p.direction + field 1 1 p.latency_critical
