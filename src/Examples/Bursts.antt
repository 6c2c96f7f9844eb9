-- ===== src/Examples/Bursts.antt =====
-- `hwt_read` and `hwt_write` on a memory of four words.
use reconos_v.Base.{◌+◌, ◌*◌, ◌≤◌, ◌⊎◌, ◌≡◌, refl, some, List, [], ◌∷◌, length, arith, get_or, inr}
use reconos_v.Mbox.{mbox_put, mbox_get}
use reconos_v.Mbox.Holds.{Holds}
use reconos_v.Vmtest.{
  request, done, get_request, Vm, Side, software, hardware, read_step, write_step, thread_step,
  step, run,
}
use reconos_v.Vmtest.Phases.{words}
use reconos_v.Vmtest.Ends.{Ready, Moves, hwt_read_lem, hwt_read-ends}
use reconos_v.Vmtest.Synced.{hwt_write_lem, hwt_write-ends}
use reconos_v.Examples.Single.{triple, triple-Holds}

abbrev vm : Vm
vm = record {
  sw2hw = triple;
  hw2sw = triple;
  place = request;
  dst = [];
  state = get_request;
  memory = 10 ∷ 11 ∷ 12 ∷ 13 ∷ [];
}

vm-Ready : Ready vm
vm-Ready = record {
  first = refl;
  waits = refl;
  nothing = refl;
  to_thread = triple-Holds;
  to_software = triple-Holds;
}

-- Two words from the second on, the first of them taken before the second is put
abbrev burst : List Side
burst =
    software ∷ software ∷ hardware ∷ hardware ∷ hardware ∷ software ∷ hardware ∷ software ∷ software
    ∷ []

abbrev in_boxes : Vm
in_boxes = record vm {
  sw2hw = record triple { messages = 8 ∷ 4 ∷ 0 ∷ []; read_idx = 2; write_idx = 2 };
  hw2sw = record triple { messages = 11 ∷ 12 ∷ 0 ∷ []; read_idx = 2; write_idx = 2 };
  place = done;
  dst = 11 ∷ 12 ∷ [];
}

vm-run : run (read_step 4 2) burst vm ≡ some in_boxes
unfolding run step read_step thread_step mbox_put mbox_get
vm-run = refl

hwt_read_example :
    (in_boxes.dst ≡ words vm.memory 1 2)
    × (in_boxes.memory ≡ vm.memory)
    × (in_boxes.state ≡ get_request)
    × Holds 3 [] in_boxes.sw2hw
    × Holds 3 [] in_boxes.hw2sw
hwt_read_example = hwt_read_lem 4 (omega arith) (omega arith) vm-Ready burst vm-run refl

hwt_read-ends_example :
    (length burst ≤ 2 * 2 + 5) × ((in_boxes.place ≡ done) ⊎ Moves (read_step 4 2) in_boxes)
hwt_read-ends_example = hwt_read-ends 4 (omega arith) (omega arith) vm-Ready burst vm-run

-- Two words are put while the thread has not yet taken the request's address.
abbrev burst_write : List Side
burst_write =
    software ∷ hardware ∷ software ∷ software ∷ software ∷ hardware ∷ hardware ∷ hardware ∷ hardware
    ∷ software ∷ []

abbrev synced : Vm
synced = record vm {
  sw2hw = record triple { messages = 21 ∷ 4 ∷ 20 ∷ []; read_idx = 1; write_idx = 1 };
  hw2sw = record triple { messages = 4 ∷ 0 ∷ 0 ∷ []; read_idx = 1; write_idx = 1 };
  place = done;
  memory = 10 ∷ 20 ∷ 21 ∷ 13 ∷ [];
}

vm-write : run (write_step (20 ∷ 21 ∷ []) 4 2) burst_write vm ≡ some synced
unfolding run step write_step thread_step mbox_put mbox_get
vm-write = refl

hwt_write_example :
    (get_or synced.memory 2 0 ≡ 21)
    × (get_or synced.memory 3 0 ≡ 13)
    × (length synced.memory ≡ 4)
    × (synced.state ≡ get_request)
    × Holds 3 [] synced.sw2hw
    × Holds 3 [] synced.hw2sw
hwt_write_example =
    hwt_write_lem 4 (20 ∷ 21 ∷ []) (omega arith) (omega arith) vm-Ready burst_write 1 3 vm-write
      refl (omega arith) (omega arith) (inr (omega arith))

hwt_write-ends_example :
    (length burst_write ≤ 2 * 2 + 6)
    × ((synced.place ≡ done) ⊎ Moves (write_step (20 ∷ 21 ∷ []) 4 2) synced)
hwt_write-ends_example =
    hwt_write-ends 4 (20 ∷ 21 ∷ []) (omega arith) (omega arith) vm-Ready burst_write vm-write
