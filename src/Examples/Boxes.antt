-- ===== src/Examples/Boxes.antt =====
-- Message boxes on concrete values.
use reconos_v.Base.{ℕ, ◌≡◌, ◌≢◌, ◌≤◌, refl, false, Option, none, some}
use reconos_v.Base.{List, [], ◌∷◌, ◌++◌, length, arith}
use reconos_v.Mbox.{Mbox, mbox_put, mbox_get, Library}
use reconos_v.Mbox.Refine.{IsValid}
use reconos_v.Mbox.Threads.{
  System, Reach, here, next, step, begin, call_put, call_get, go, enter, resume, Event,
}
use reconos_v.Mbox.Threads.{put_step, get_step}
use reconos_v.Mbox.Threads.Fifo.{fifo, no_deadlock}

-- two messages round the end of a box of three
abbrev wrapped : Mbox
wrapped = record {
  sem_read = 2;
  sem_write = 1;
  mutex_read = false;
  mutex_write = false;
  messages = 9 ∷ 7 ∷ 8 ∷ [];
  read_idx = 2;
  write_idx = 1;
  size = 3;
}

wrapped-IsValid : IsValid wrapped
wrapped-IsValid = record {
  unread = refl;
  unlocked = refl;
  block = omega arith;
  counted = refl;
  read_in = omega arith;
  write_in = refl;
}

abbrev fresh : Mbox
fresh = record {
  sem_read = 0;
  sem_write = 1;
  mutex_read = false;
  mutex_write = false;
  messages = 0 ∷ [];
  read_idx = 0;
  write_idx = 0;
  size = 1;
}

fresh-IsValid : IsValid fresh
fresh-IsValid = record {
  unread = refl;
  unlocked = refl;
  block = omega arith;
  counted = refl;
  read_in = omega arith;
  write_in = refl;
}

abbrev put_five : Mbox
put_five = record wrapped { sem_read = 3; sem_write = 0; messages = 9 ∷ 5 ∷ 8 ∷ []; write_idx = 2 }

put_runs : mbox_put wrapped 5 ≡ some put_five
unfolding mbox_put
put_runs = refl

put_blocks : mbox_put put_five 6 ≡ none
unfolding mbox_put
put_blocks = refl

abbrev got_eight : Mbox
got_eight = record wrapped { sem_read = 1; sem_write = 2; read_idx = 0 }

get_runs : mbox_get wrapped ≡ some (8, got_eight)
unfolding mbox_get
get_runs = refl

abbrev working : Library
working = record {
  sem_init_read = 0;
  sem_init_write = 0;
  mutex_init_read = 0;
  mutex_init_write = 0;
  malloc = λ n. some (7 ∷ 7 ∷ 7 ∷ 7 ∷ []);
}

abbrev no_semaphore : Library
no_semaphore = record working { sem_init_write = 1 }

abbrev or_stay : Option System → System → System
or_stay none s = s
or_stay (some u) s = u

-- the events that can be made, one after the other; the others are left out
abbrev after : List Event → System → System
after [] s = s
after (e ∷ es) s = after es (or_stay (step e s) s)

or_stay-Reach :
    {s : System} (e : Event) (t : System) (o : Option System)
    → step e t ≡ o
    → Reach s t
    → Reach s (or_stay o t)
or_stay-Reach e t none h r = r
or_stay-Reach e t (some u) h r = next e r h

after-Reach : {s : System} (es : List Event) (t : System) → Reach s t → Reach s (after es t)
after-Reach [] t r = r
after-Reach (e ∷ es) t r =
    after-Reach es (or_stay (step e t) t) (or_stay-Reach e t (step e t) refl r)

-- Thread 0 sends 6 and enters `mbox_put(7)`, where it waits for a free cell; thread 1 enters
-- `mbox_get`.
abbrev sent : List Event
sent = call_put 0 6 ∷ go 0 ∷ go 0 ∷ call_get 1 ∷ go 0 ∷ go 0 ∷ go 0 ∷ call_put 0 7 ∷ go 0 ∷ []

abbrev crowded : System
crowded = after sent (begin fresh)

crowded-Reach : Reach (begin fresh) crowded
crowded-Reach = after-Reach sent (begin fresh) here

-- thread 1 has then received 6, and thread 0 has stored 7
abbrev received : System
received = after (go 1 ∷ go 1 ∷ go 1 ∷ go 1 ∷ go 0 ∷ go 0 ∷ []) crowded

received_log : (received.puts ≡ 6 ∷ 7 ∷ []) × (received.gets ≡ 6 ∷ [])
unfolding begin step enter resume put_step get_step
received_log = (refl, refl)

fifo_example : (rest : List ℕ) × (received.puts ≡ received.gets ++ rest) × (length rest ≤ 1)
fifo_example =
    fifo fresh-IsValid refl
      (after-Reach (go 1 ∷ go 1 ∷ go 1 ∷ go 1 ∷ go 0 ∷ go 0 ∷ []) crowded crowded-Reach)

no_deadlock_example : step (go 1) crowded ≢ none
unfolding begin step enter resume put_step get_step
no_deadlock_example = no_deadlock 0 1 7 fresh-IsValid refl crowded-Reach refl refl refl

abbrev writer : ℕ
writer = 0

abbrev reader : ℕ
reader = 1
