-- ===== src/Noc/Wire.antt =====
-- The bytes of a packet in the ring buffer, as a specification, and how they are read back.
use reconos_v.Base.{
  ℕ, ◌+◌, ◌*◌, ◌/◌, ◌%◌, ◌^◌, ◌<◌, ◌≡◌, Option, none, some, List, [], ◌∷◌, ◌++◌, arith,
}
use reconos_v.Noc.Packet.{Packet, header_size, header_byte1, header_byte2}

-- the four bytes of a word, highest first
abbrev pub bytes4 : ℕ → List ℕ
bytes4 v = v / 2 ^ 24 % 2 ^ 8 ∷ v / 2 ^ 16 % 2 ^ 8 ∷ v / 2 ^ 8 % 2 ^ 8 ∷ v % 2 ^ 8 ∷ []

abbrev pub word4 : ℕ → ℕ → ℕ → ℕ → ℕ
word4 a b c d = a * 2 ^ 24 + b * 2 ^ 16 + c * 2 ^ 8 + d

-- the length of what follows, the two header bytes, the addresses and the payload
abbrev pub header : Packet → List ℕ
header p =
    bytes4 (p.payload_length + header_size)
    ++ header_byte1 p ∷ header_byte2 p ∷ (bytes4 p.src_idp ++ bytes4 p.dst_idp)

unfoldable pub encode : Packet → List ℕ
encode p = header p ++ p.payload

-- what a reader of the buffer gets out of the bytes
pub record Fields : Type 0 where
  pub total : ℕ
  pub global : ℕ
  pub local : ℕ
  pub priority : ℕ
  pub direction : ℕ
  pub critical : ℕ
  pub source : ℕ
  pub target : ℕ
  pub payload : List ℕ

pub decode : List ℕ → Option Fields
decode (a0 ∷ a1 ∷ a2 ∷ a3 ∷ h1 ∷ h2 ∷ s0 ∷ s1 ∷ s2 ∷ s3 ∷ d0 ∷ d1 ∷ d2 ∷ d3 ∷ rest) = some (record {
  total = word4 a0 a1 a2 a3;
  global = h1 % 16;
  local = h1 / 16 % 4;
  priority = h1 / 64 % 4;
  direction = h2 % 2;
  critical = h2 / 2 % 2;
  source = word4 s0 s1 s2 s3;
  target = word4 d0 d1 d2 d3;
  payload = rest;
})
decode bytes = none

-- the ranges that the comments of the struct give
pub record InRange (p : Packet) : Type 0 where
  pub length_small : p.payload_length + header_size < 2 ^ 32
  pub global_small : p.hw_addr_global < 16
  pub local_small : p.hw_addr_local < 4
  pub priority_small : p.priority < 4
  pub direction_bit : p.direction < 2
  pub critical_bit : p.latency_critical < 2
  pub source_word : p.src_idp < 2 ^ 32
  pub target_word : p.dst_idp < 2 ^ 32

word4-bytes :
    (v : ℕ)
    → v < 2 ^ 32
    → word4 (v / 2 ^ 24 % 2 ^ 8) (v / 2 ^ 16 % 2 ^ 8) (v / 2 ^ 8 % 2 ^ 8) (v % 2 ^ 8) ≡ v
word4-bytes v h = omega arith

-- Every field of a packet in range is read back from its bytes.
pub decode-encode :
    (p : Packet)
    → InRange p
    → decode (encode p)
      ≡ some (record {
        total = p.payload_length + header_size;
        global = p.hw_addr_global;
        local = p.hw_addr_local;
        priority = p.priority;
        direction = p.direction;
        critical = p.latency_critical;
        source = p.src_idp;
        target = p.dst_idp;
        payload = p.payload;
      })
unfolding encode decode header_byte1 header_byte2
decode-encode p r = ground arith
