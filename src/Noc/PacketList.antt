-- ===== src/Noc/PacketList.antt =====
-- The list of packets that wait, projects/noc_test/linux/hwSwIf/packetList.c: cells on the heap,
-- with 0 for a null pointer.
pub mod Chain
pub mod Queue
use reconos_v.Base.{ℕ, ◌==◌, ◌||◌, if◌then◌else◌, Bool, true, false, Option, none, some}
use reconos_v.Machine.{update}

-- `packetListElement`
pub record Element : Type 0 where
  pub packet : ℕ
  pub next : ℕ

-- `packetList`
pub record PacketList : Type 0 where
  pub first : ℕ
  pub last : ℕ

-- The elements that are allocated, by address.
abbrev pub Heap : Type 0
Heap = ℕ → Option Element

-- 0, -EINVAL, -ENOMEM or -ENODATA
pub data Code : Type 0 where
  done invalid no_memory no_data : Code

abbrev pub is_empty : PacketList → Bool
is_empty l = l.first == 0

-- The null list is empty for `isEmpty`.
abbrev pub is_empty_at : Option PacketList → Bool
is_empty_at none = true
is_empty_at (some l) = is_empty l

-- `last->next = new`, a fault if `last` is no element
abbrev pub link : PacketList → ℕ → Heap → Option (Code × PacketList × Heap)
link l new h = elim (h l.last) [
  | none ↦ none
  | some e ↦ some (done, record l { last = new }, update h l.last (some (record e { next = new })))
]

-- `new` is what `malloc` returns. `none` is a fault.
unfoldable pub packet_list_add :
    PacketList → (packet new : ℕ) → Heap → Option (Code × PacketList × Heap)
packet_list_add l packet new h =
    let stored = update h new (some (record { packet = packet; next = 0 })) in
    if packet == 0
    then some (invalid, l, h)
    else (if new == 0
        then some (no_memory, l, h)
        else (if is_empty l
            then some (done, record { first = new; last = new }, stored)
            else link l new stored))

-- the code, the packet, the list and the heap without the first element
unfoldable pub packet_list_poll : PacketList → Heap → Option (Code × ℕ × PacketList × Heap)
packet_list_poll l h = if is_empty l then some (no_data, 0, l, h) else elim (h l.first) [
  | none ↦ none
  | some e ↦ some (done, e.packet, record l { first = e.next }, update h l.first none)
]
