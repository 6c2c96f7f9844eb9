-- ===== src/Examples/Starts.antt =====
-- The start of the network interface, and its packet list.
use reconos_v.Base.{◌≡◌, refl, false, true, none, some, [], ◌∷◌, arith, inr}
use reconos_v.Machine.{update}
use reconos_v.Mbox.{Library}
use reconos_v.Noc.Setup.{Calls, Side, Noc}
use reconos_v.Noc.Setup.Created.{AllSucceed}
use reconos_v.Noc.PacketList.{PacketList, Heap, done, packet_list_add}
use reconos_v.Noc.PacketList.Queue.{IsQueue, new_cell, packet_list_add_lem}
use reconos_v.Examples.Fixture.{empty_box, hwt}

abbrev library : Library
library = record {
  sem_init_read = 0;
  sem_init_write = 0;
  mutex_init_read = 0;
  mutex_init_write = 0;
  malloc = λ n. some (7 ∷ 7 ∷ 7 ∷ 7 ∷ []);
}

abbrev calls : Calls
calls = record {
  interface_memory = true;
  ring_memory = some 4096;
  sem_init_first = 0;
  sem_init_second = 0;
  put_library = library;
  get_library = library;
  put_address = 500;
  get_address = 600;
  pthread_create = λ w. 0;
}

calls-AllSucceed : AllSucceed calls 4096
calls-AllSucceed = record {
  memory = refl;
  ring = refl;
  first = refl;
  second = refl;
  put_ok = record { read_ok = refl; write_ok = refl; unread_ok = refl; unlocked_ok = refl };
  get_ok = record { read_ok = refl; write_ok = refl; unread_ok = refl; unlocked_ok = refl };
  put_block = 7 ∷ 7 ∷ 7 ∷ 7 ∷ [];
  get_block = 7 ∷ 7 ∷ 7 ∷ 7 ∷ [];
  put_memory = refl;
  get_memory = refl;
  put_room = omega arith;
  get_room = omega arith;
  threads = λ w. refl;
}

abbrev side : Side
side = record {
  ring_base = none;
  mb_put = empty_box;
  mb_get = empty_box;
  hwt = hwt;
  started = none;
  workers = [];
}

abbrev noc : Noc
noc = record { control_runs = false; sw2hw = side; hw2sw = side }

abbrev no_ring : Calls
no_ring = record calls { ring_memory = none }

-- one packet, whose address is 9, in the element at 40
abbrev one_packet : Heap
one_packet = update (λ a. none) 40 (some (record { packet = 9; next = 0 }))

abbrev one_list : PacketList
one_list = record { first = 40; last = 40 }

one_list-IsQueue : IsQueue one_list one_packet (new_cell 40 9 ∷ [])
one_list-IsQueue = record {
  chain = (refl, (λ e. omega arith), tt, 0, refl, refl);
  tail = inr ([], 40, 9, refl, refl);
}

packet_list_add_example :
    (u : PacketList) × (k : Heap) × (packet_list_add one_list 10 41 one_packet ≡ some (done, u, k))
    × IsQueue u k (new_cell 40 9 ∷ new_cell 41 10 ∷ [])
packet_list_add_example =
    packet_list_add_lem one_list one_packet 10 41 (new_cell 40 9 ∷ []) one_list-IsQueue
      (omega arith) (omega arith) refl
