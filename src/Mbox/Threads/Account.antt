-- ===== src/Mbox/Threads/Account.antt =====
-- What the counts and indices of a message box say while one writer and one reader are inside.
use native.Mathlib.Nat.{mod-add-mod, mod-eq_of_lt}
use reconos_v.Base.{ℕ, suc, ◌+◌, ◌-◌, ◌%◌, ◌≤◌, ◌<◌, ◌≡◌, some, List, [], ◌∷◌, ◌++◌}
use reconos_v.Base.{length, set, get_or, get_elem?-eq-get_or, length-set, arith, append_assoc}
use reconos_v.Base.Cyclic.{window, window-set, window_of_pos, step-mod}
use reconos_v.Mbox.{Mbox}
use reconos_v.Mbox.Threads.{PutPhase, outside, locked, claimed, stored, advanced, posted}
use reconos_v.Mbox.Threads.{GetPhase, absent, held, granted, fetched, moved, freed}
use reconos_v.Mbox.Threads.{put_step, get_step, log_put, log_get}

-- a cell taken from `sem_write` and not written yet
abbrev pub claims : PutPhase → ℕ
claims claimed = 1
claims p = 0

-- a message stored and not posted yet
abbrev pub unposted : PutPhase → ℕ
unposted stored = 1
unposted advanced = 1
unposted p = 0

abbrev pub behind : PutPhase → ℕ
behind stored = 1
behind p = 0

-- a message taken from `sem_read` and not read yet
abbrev pub grants : GetPhase → ℕ
grants granted = 1
grants g = 0

-- a cell read and not given back yet
abbrev pub unfreed : GetPhase → ℕ
unfreed (fetched v) = 1
unfreed (moved v) = 1
unfreed g = 0

abbrev pub ahead : GetPhase → ℕ
ahead (fetched v) = 1
ahead g = 0

-- `n` messages are stored from cell `head` on.
pub record Account (mb : Mbox) (p : PutPhase) (g : GetPhase) (puts gets : List ℕ) : Type 0 where
  pub head : ℕ
  pub n : ℕ
  pub block : mb.size ≤ length mb.messages
  pub head_in : head < mb.size
  pub read_in : mb.read_idx < mb.size
  pub write_in : mb.write_idx < mb.size
  pub free : mb.sem_write + n + claims p + unfreed g ≡ mb.size
  pub ready : mb.sem_read + grants g + unposted p ≡ n
  pub reader : (mb.read_idx + ahead g) % mb.size ≡ head
  pub writer : (mb.write_idx + behind p) % mb.size ≡ (head + n) % mb.size
  pub log : puts ≡ gets ++ window mb.messages mb.size head n

-- The store of a claimed cell makes one message more.
store-Account :
    {mb : Mbox} {g : GetPhase} {puts gets : List ℕ} (msg : ℕ)
    → Account mb claimed g puts gets
    → Account
        (record mb { messages = set mb.messages mb.write_idx msg })
        stored
        g
        (puts ++ (msg ∷ []))
        gets
store-Account {mb} {g} {puts} {gets} msg a = record {
  head = a.head;
  n = suc a.n;
  block = omega (arith, a.block, length-set mb.messages mb.write_idx msg);
  head_in = a.head_in;
  read_in = a.read_in;
  write_in = a.write_in;
  free = omega (arith, a.free);
  ready = omega (arith, a.ready);
  reader = a.reader;
  writer = ground (arith, mod-add-mod mb.write_idx mb.size 1, mod-add-mod (a.head + a.n) mb.size 1);
  log = ground (
    arith,
    append_assoc gets (window mb.messages mb.size a.head a.n) (msg ∷ []),
    window-set mb.messages mb.size msg a.n a.head mb.write_idx,
    mod-eq_of_lt a.write_in,
  );
}

module _ {mb : Mbox} {g : GetPhase} {puts gets : List ℕ} where
  pub put_step-Account :
      (msg : ℕ) (p : PutPhase) {p' : PutPhase} {mb' : Mbox}
      → Account mb p g puts gets
      → put_step msg p mb ≡ some (p', mb')
      → Account mb' p' g (log_put p msg puts) gets
  unfolding put_step
  put_step-Account msg outside a h = ground arith
  put_step-Account msg locked a h = ground arith
  put_step-Account msg claimed a h = ground (arith, store-Account msg a)
  put_step-Account msg stored a h = ground (arith, mod-add-mod (mb.write_idx + 1) mb.size 0)
  put_step-Account msg advanced a h = ground arith
  put_step-Account msg posted a h = ground arith

-- The read of a granted message takes the oldest one.
fetch-Account :
    {mb : Mbox} {p : PutPhase} {puts gets : List ℕ}
    → Account mb p granted puts gets
    → let v = get_or mb.messages mb.read_idx 0 in Account mb p (fetched v) puts (gets ++ (v ∷ []))
fetch-Account {mb} {p} {puts} {gets} a = record {
  head = (a.head + 1) % mb.size;
  n = a.n - 1;
  block = a.block;
  head_in = omega (arith, a.head_in);
  read_in = a.read_in;
  write_in = a.write_in;
  free = omega (arith, a.free, a.ready);
  ready = omega (arith, a.ready);
  reader = ground (arith, mod-eq_of_lt a.read_in);
  writer = ground (arith, step-mod mb.size a.head (a.n - 1));
  log = ground (
    arith,
    append_assoc gets (get_or mb.messages mb.read_idx 0 ∷ [])
        (window mb.messages mb.size ((a.head + 1) % mb.size) (a.n - 1)),
    window_of_pos mb.messages mb.size a.head a.n,
    mod-eq_of_lt a.read_in,
  );
}

module _ {mb : Mbox} {p : PutPhase} {puts gets : List ℕ} where
  pub get_step-Account :
      (g : GetPhase) {g' : GetPhase} {mb' : Mbox}
      → Account mb p g puts gets
      → get_step g mb ≡ some (g', mb')
      → Account mb' p g' puts (log_get g' gets)
  unfolding get_step
  get_step-Account absent a h = ground arith
  get_step-Account held a h = ground arith
  get_step-Account granted a h =
      ground (arith, fetch-Account a, get_elem?-eq-get_or mb.messages mb.read_idx 0)
  get_step-Account (fetched v) a h = ground (arith, mod-add-mod (mb.read_idx + 1) mb.size 0)
  get_step-Account (moved v) a h = ground arith
  get_step-Account (freed v) a h = ground arith
