-- ===== src/Mbox/Threads/Owners.antt =====
-- Mutual exclusion: at most one thread is inside each of the two functions of a message box.
use reconos_v.Base.{ℕ, ◌≡◌, refl, ◌≢◌, Bool, true, false, some, arith, sym, ◌∙◌, ap}
use native.Mathlib.Decide.{ℕ_discrete}
use reconos_v.Mbox.{Mbox}
use reconos_v.Mbox.Threads.{PutPhase, outside}
use reconos_v.Mbox.Threads.{GetPhase, absent}
use reconos_v.Mbox.Threads.{Pc, putting, getting, System, update, after_put, after_get}
use reconos_v.Mbox.Threads.{put_step, get_step, log_put, log_get}
use reconos_v.Mbox.Threads.Account.{Account, put_step-Account, get_step-Account}

abbrev pub put_phase : Pc → PutPhase
put_phase (putting msg p) = p
put_phase pc = outside

abbrev pub get_phase : Pc → GetPhase
get_phase (getting g) = g
get_phase pc = absent

abbrev pub inside_put : PutPhase → Bool
inside_put outside = false
inside_put p = true

abbrev pub inside_get : GetPhase → Bool
inside_get absent = false
inside_get g = true

-- `w` and `r` are the only threads that may be inside `mbox_put` and `mbox_get`.
pub record IsSafe (s : System) : Type 0 where
  pub w : ℕ
  pub r : ℕ
  pub no_writer : (u : ℕ) → u ≢ w → put_phase (s.pc u) ≡ outside
  pub no_reader : (u : ℕ) → u ≢ r → get_phase (s.pc u) ≡ absent
  pub locked_write : s.box.mutex_write ≡ inside_put (put_phase (s.pc w))
  pub locked_read : s.box.mutex_read ≡ inside_get (get_phase (s.pc r))
  pub account : Account s.box (put_phase (s.pc w)) (get_phase (s.pc r)) s.puts s.gets

module _ {s : System} (i : IsSafe s) where
  none_put : put_phase (s.pc i.w) ≡ outside → (u : ℕ) → put_phase (s.pc u) ≡ outside
  none_put e u = elim (ℕ_discrete u i.w) [ yes q ↦ rw q e | no q ↦ i.no_writer u q ]

  none_get : get_phase (s.pc i.r) ≡ absent → (u : ℕ) → get_phase (s.pc u) ≡ absent
  none_get e u = elim (ℕ_discrete u i.r) [ yes q ↦ rw q e | no q ↦ i.no_reader u q ]

  pub owner_put : (t : ℕ) → put_phase (s.pc t) ≢ outside → t ≡ i.w
  owner_put t ne = elim (ℕ_discrete t i.w) [ yes q ↦ q | no q ↦ absurd (ne (i.no_writer t q)) ]

  pub owner_get : (t : ℕ) → get_phase (s.pc t) ≢ absent → t ≡ i.r
  owner_get t ne = elim (ℕ_discrete t i.r) [ yes q ↦ q | no q ↦ absurd (ne (i.no_reader t q)) ]

-- Two threads are never inside `mbox_put` together.
pub exclusive_put :
    {s : System} (t u : ℕ)
    → IsSafe s
    → put_phase (s.pc t) ≢ outside
    → put_phase (s.pc u) ≢ outside
    → t ≡ u
exclusive_put t u i p q = owner_put i t p ∙ sym (owner_put i u q)

-- Two threads are never inside `mbox_get` together.
pub exclusive_get :
    {s : System} (t u : ℕ)
    → IsSafe s
    → get_phase (s.pc t) ≢ absent
    → get_phase (s.pc u) ≢ absent
    → t ≡ u
exclusive_get t u i p q = owner_get i t p ∙ sym (owner_get i u q)

module _ {s : System} (i : IsSafe s) (t msg : ℕ) where
  -- The thread that makes a step of `mbox_put` is the one that holds the lock, or nobody does.
  writer_phase :
      (p : PutPhase) {p' : PutPhase} {mb : Mbox}
      → put_phase (s.pc t) ≡ p
      → put_step msg p s.box ≡ some (p', mb)
      → put_phase (s.pc i.w) ≡ p
  unfolding put_step
  writer_phase outside e h = ground (arith, i.locked_write)
  writer_phase p e h = rw (← owner_put i t (λ q. ground arith)) e

  no_other_writer :
      (p : PutPhase)
      → put_phase (s.pc t) ≡ p
      → put_phase (s.pc i.w) ≡ p
      → (u : ℕ) → u ≢ t
      → put_phase (s.pc u) ≡ outside
  no_other_writer outside e w u n = none_put i w u
  no_other_writer p e w u n =
      i.no_writer u
        (λ q. n (q ∙ sym (owner_put i t (λ (z : put_phase (s.pc t) ≡ outside). ground arith))))

  reader_phase :
      (g : GetPhase) {g' : GetPhase} {mb : Mbox}
      → get_phase (s.pc t) ≡ g
      → get_step g s.box ≡ some (g', mb)
      → get_phase (s.pc i.r) ≡ g
  unfolding get_step
  reader_phase absent e h = ground (arith, i.locked_read)
  reader_phase g e h = rw (← owner_get i t (λ q. ground arith)) e

  no_other_reader :
      (g : GetPhase)
      → get_phase (s.pc t) ≡ g
      → get_phase (s.pc i.r) ≡ g
      → (u : ℕ) → u ≢ t
      → get_phase (s.pc u) ≡ absent
  no_other_reader absent e w u n = none_get i w u
  no_other_reader g e w u n =
      i.no_reader u
        (λ q. n (q ∙ sym (owner_get i t (λ (z : get_phase (s.pc t) ≡ absent). ground arith))))

-- A step of `mbox_put` changes the lock as its new phase says, and leaves the reader's alone.
locked-put_step :
    (msg : ℕ) (p : PutPhase) (mb : Mbox) {p' : PutPhase} {mb' : Mbox}
    → mb.mutex_write ≡ inside_put p
    → put_step msg p mb ≡ some (p', mb')
    → (mb'.mutex_write ≡ inside_put p') × (mb'.mutex_read ≡ mb.mutex_read)
unfolding put_step
locked-put_step msg outside mb e h = ground arith
locked-put_step msg p mb e h = ground arith

locked-get_step :
    (g : GetPhase) (mb : Mbox) {g' : GetPhase} {mb' : Mbox}
    → mb.mutex_read ≡ inside_get g
    → get_step g mb ≡ some (g', mb')
    → (mb'.mutex_read ≡ inside_get g') × (mb'.mutex_write ≡ mb.mutex_write)
unfolding get_step
locked-get_step absent mb e h = ground arith
locked-get_step g mb e h = ground arith

put_phase-after : (msg : ℕ) (p : PutPhase) → put_phase (after_put msg p) ≡ p
put_phase-after msg outside = refl
put_phase-after msg p = refl

get_phase-after_put : (msg : ℕ) (p : PutPhase) → get_phase (after_put msg p) ≡ absent
get_phase-after_put msg outside = refl
get_phase-after_put msg p = refl

get_phase-after : (g : GetPhase) → get_phase (after_get g) ≡ g
get_phase-after absent = refl
get_phase-after g = refl

put_phase-after_get : (g : GetPhase) → put_phase (after_get g) ≡ outside
put_phase-after_get absent = refl
put_phase-after_get g = refl

module _ (pc : ℕ → Pc) (t msg : ℕ) where
  put_phase-update_put :
      (p : PutPhase) (u : ℕ) → u ≡ t → put_phase (update pc t (after_put msg p) u) ≡ p
  put_phase-update_put p u e = ground (arith, put_phase-after msg p)

  get_phase-update_put :
      (p : PutPhase) (u : ℕ)
      → get_phase (pc t) ≡ absent
      → get_phase (update pc t (after_put msg p) u) ≡ get_phase (pc u)
  get_phase-update_put p u e = ground (arith, get_phase-after_put msg p)

module _ (pc : ℕ → Pc) (t : ℕ) where
  get_phase-update_get :
      (g : GetPhase) (u : ℕ) → u ≡ t → get_phase (update pc t (after_get g) u) ≡ g
  get_phase-update_get g u e = ground (arith, get_phase-after g)

  put_phase-update_get :
      (g : GetPhase) (u : ℕ)
      → put_phase (pc t) ≡ outside
      → put_phase (update pc t (after_get g) u) ≡ put_phase (pc u)
  put_phase-update_get g u e = ground (arith, put_phase-after_get g)

module _ {s : System} (i : IsSafe s) (t : ℕ) where
  -- Every step of `mbox_put` keeps the system safe.
  pub put_step-IsSafe :
      (msg : ℕ) (p : PutPhase) {p' : PutPhase} {mb : Mbox}
      → put_phase (s.pc t) ≡ p
      → get_phase (s.pc t) ≡ absent
      → put_step msg p s.box ≡ some (p', mb)
      → IsSafe (record s {
        box = mb;
        pc = update s.pc t (after_put msg p');
        puts = log_put p msg s.puts;
      })
  put_step-IsSafe msg p {p'} {mb} e a h =
      let was = writer_phase i t msg p e h in
      let (lw, lr) = locked-put_step msg p s.box (i.locked_write ∙ ap inside_put was) h in
      let wrote = put_phase-update_put s.pc t msg p' t refl in
      let kept = get_phase-update_put s.pc t msg p' i.r a in
      record {
        w = t;
        r = i.r;
        no_writer = λ u n. ground (arith, no_other_writer i t msg p e was u n);
        no_reader = λ u n. ground (arith, i.no_reader u n, get_phase-after_put msg p');
        locked_write = rw wrote lw;
        locked_read = rw kept (lr ∙ i.locked_read);
        account = rw (wrote, kept) (put_step-Account msg p (rw was at i.account) h);
      }

  -- Every step of `mbox_get` keeps the system safe.
  pub get_step-IsSafe :
      (g : GetPhase) {g' : GetPhase} {mb : Mbox}
      → get_phase (s.pc t) ≡ g
      → put_phase (s.pc t) ≡ outside
      → get_step g s.box ≡ some (g', mb)
      → IsSafe (record s { box = mb; pc = update s.pc t (after_get g'); gets = log_get g' s.gets })
  get_step-IsSafe g {g'} {mb} e a h =
      let was = reader_phase i t 0 g e h in
      let (lr, lw) = locked-get_step g s.box (i.locked_read ∙ ap inside_get was) h in
      let read = get_phase-update_get s.pc t g' t refl in
      let kept = put_phase-update_get s.pc t g' i.w a in
      record {
        w = i.w;
        r = t;
        no_writer = λ u n. ground (arith, i.no_writer u n, put_phase-after_get g');
        no_reader = λ u n. ground (arith, no_other_reader i t 0 g e was u n);
        locked_write = rw kept (lw ∙ i.locked_write);
        locked_read = rw read lr;
        account = rw (kept, read) (get_step-Account g (rw was at i.account) h);
      }
