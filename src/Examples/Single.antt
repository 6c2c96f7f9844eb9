-- ===== src/Examples/Single.antt =====
-- Empty message boxes, for one message and for three.
use reconos_v.Base.{[], ◌∷◌, refl, arith, false}
use reconos_v.Mbox.{Mbox}
use reconos_v.Mbox.Holds.{Holds}

abbrev pub single : Mbox
single = record {
  sem_read = 0;
  sem_write = 1;
  mutex_read = false;
  mutex_write = false;
  messages = 0 ∷ [];
  read_idx = 0;
  write_idx = 0;
  size = 1;
}

pub single-Holds : Holds 1 [] single
single-Holds = record {
  valid = record {
    unread = refl;
    unlocked = refl;
    block = omega arith;
    counted = refl;
    read_in = omega arith;
    write_in = refl;
  };
  sized = refl;
  holds = refl;
}

-- An empty box for three messages
abbrev pub triple : Mbox
triple = record {
  sem_read = 0;
  sem_write = 3;
  mutex_read = false;
  mutex_write = false;
  messages = 0 ∷ 0 ∷ 0 ∷ [];
  read_idx = 0;
  write_idx = 0;
  size = 3;
}

pub triple-Holds : Holds 3 [] triple
triple-Holds = record {
  valid = record {
    unread = refl;
    unlocked = refl;
    block = omega arith;
    counted = refl;
    read_in = omega arith;
    write_in = refl;
  };
  sized = refl;
  holds = refl;
}
