-- ===== src/Mbox/Threads/Fifo.antt =====
-- Every interleaving of any number of threads keeps a message box a bounded first-in first-out
-- channel.
use reconos_v.Base.{ℕ, ◌≤◌, ◌≡◌, refl, sym, ap, ◌∙◌, ◌≢◌}
use reconos_v.Base.{none, some, List, ◌++◌, length, arith}
use reconos_v.Base.Maybe.{>>=-eq-some}
use reconos_v.Base.Cyclic.{window, length-window}
use mathlib.Core.Path.{subst}
use mathlib.Core.Option.{some-injective}
use reconos_v.Mbox.{Mbox}
use reconos_v.Mbox.Refine.{IsValid}
use reconos_v.Mbox.Threads.{PutPhase, outside, locked}
use reconos_v.Mbox.Threads.{GetPhase, absent, held}
use reconos_v.Mbox.Threads.{Pc, idle, putting, getting, System, put_step, get_step, resume, enter}
use reconos_v.Mbox.Threads.{Event, call_put, call_get, go, step, Reach, here, next, begin}
use reconos_v.Mbox.Threads.Owners.{exclusive_put, exclusive_get, owner_put, owner_get}
use reconos_v.Mbox.Threads.Owners.{IsSafe, put_phase, get_phase, put_step-IsSafe, get_step-IsSafe}

-- `pc` is what the thread is about to go on with; an idle thread may be about to start.
resume-IsSafe :
    {s u : System} (pc : Pc) (t : ℕ)
    → IsSafe s
    → put_phase (s.pc t) ≡ put_phase pc
    → get_phase (s.pc t) ≡ get_phase pc
    → resume pc t s ≡ some u
    → IsSafe u
unfolding resume
resume-IsSafe idle t i p g h = cc
resume-IsSafe {s} (putting msg q) t i p g h =
    let ((q', mb), st, out) = >>=-eq-some (put_step msg q s.box) _ h in
    subst IsSafe (some-injective _ _ out) (put_step-IsSafe i t msg q p g st)
resume-IsSafe {s} (getting q) t i p g h =
    let ((q', mb), st, out) = >>=-eq-some (get_step q s.box) _ h in
    subst IsSafe (some-injective _ _ out) (get_step-IsSafe i t q g p st)

enter-IsSafe :
    {s u : System} (pc call : Pc) (t : ℕ)
    → IsSafe s
    → s.pc t ≡ pc
    → put_phase call ≡ outside
    → get_phase call ≡ absent
    → enter pc call t s ≡ some u
    → IsSafe u
unfolding enter
enter-IsSafe idle call t i e p g h =
    resume-IsSafe call t i (ap put_phase e ∙ sym p) (ap get_phase e ∙ sym g) h
enter-IsSafe pc call t i e p g h = cc

-- Whatever thread runs next, a step keeps the system safe.
pub step-IsSafe : {s u : System} (e : Event) → IsSafe s → step e s ≡ some u → IsSafe u
unfolding step
step-IsSafe {s} (call_put t msg) i h =
    enter-IsSafe (s.pc t) (putting msg outside) t i refl refl refl h
step-IsSafe {s} (call_get t) i h = enter-IsSafe (s.pc t) (getting absent) t i refl refl refl h
step-IsSafe {s} (go t) i h = resume-IsSafe (s.pc t) t i refl refl h

pub begin-IsSafe : {mb : Mbox} → IsValid mb → mb.sem_read ≡ 0 → IsSafe (begin mb)
unfolding begin
begin-IsSafe {mb} v e = record {
  w = 0;
  r = 0;
  no_writer = λ u n. refl;
  no_reader = λ u n. refl;
  locked_write = v.unlocked;
  locked_read = v.unread;
  account = record {
    head = mb.read_idx;
    n = 0;
    block = v.block;
    head_in = v.read_in;
    read_in = v.read_in;
    write_in = grind (arith, v.write_in, v.read_in);
    free = omega (arith, v.counted);
    ready = omega arith;
    reader = grind (arith, v.read_in);
    writer = grind (arith, v.write_in, v.read_in);
    log = refl;
  };
}

pub Reach-IsSafe : {s u : System} → IsSafe s → Reach s u → IsSafe u
Reach-IsSafe i here = i
Reach-IsSafe i (next e r h) = step-IsSafe e (Reach-IsSafe i r) h

-- No step resizes the box.
size-put_step :
    (msg : ℕ) (p : PutPhase) (mb : Mbox) {p' : PutPhase} {mb' : Mbox}
    → put_step msg p mb ≡ some (p', mb')
    → mb'.size ≡ mb.size
unfolding put_step
size-put_step msg outside mb h = ground arith
size-put_step msg p mb h = ground arith

size-get_step :
    (g : GetPhase) (mb : Mbox) {g' : GetPhase} {mb' : Mbox}
    → get_step g mb ≡ some (g', mb')
    → mb'.size ≡ mb.size
unfolding get_step
size-get_step absent mb h = ground arith
size-get_step g mb h = ground arith

size-resume :
    (pc : Pc) (t : ℕ) (s : System) {u : System} → resume pc t s ≡ some u → u.box.size ≡ s.box.size
unfolding resume
size-resume idle t s h = cc
size-resume (putting msg q) t s h =
    let ((q', mb), st, out) = >>=-eq-some (put_step msg q s.box) _ h in
    subst (λ v. v.box.size ≡ s.box.size) (some-injective _ _ out) (size-put_step msg q s.box st)
size-resume (getting q) t s h =
    let ((q', mb), st, out) = >>=-eq-some (get_step q s.box) _ h in
    subst (λ v. v.box.size ≡ s.box.size) (some-injective _ _ out) (size-get_step q s.box st)

size-enter :
    (pc call : Pc) (t : ℕ) (s : System) {u : System}
    → enter pc call t s ≡ some u
    → u.box.size ≡ s.box.size
unfolding enter
size-enter idle call t s h = size-resume call t s h
size-enter pc call t s h = cc

size-step : (e : Event) (s : System) {u : System} → step e s ≡ some u → u.box.size ≡ s.box.size
unfolding step
size-step (call_put t msg) s h = size-enter (s.pc t) _ t s h
size-step (call_get t) s h = size-enter (s.pc t) _ t s h
size-step (go t) s h = size-resume (s.pc t) t s h

size-Reach : {s u : System} → Reach s u → u.box.size ≡ s.box.size
size-Reach here = refl
size-Reach (next {t} e r h) = size-step e t h ∙ size-Reach r

-- In every interleaving of any threads, from an empty valid box, the messages read are the first
-- of the messages stored, in order, none lost, doubled or invented; and the rest fits the box.
pub fifo :
    {mb : Mbox} {u : System}
    → IsValid mb
    → mb.sem_read ≡ 0
    → Reach (begin mb) u
    → (rest : List ℕ) × (u.puts ≡ u.gets ++ rest) × (length rest ≤ mb.size)
unfolding begin
fifo {mb} {u} v e r =
    let i = Reach-IsSafe (begin-IsSafe v e) r in
    let a = i.account in
    (
      window u.box.messages u.box.size a.head a.n,
      a.log,
      omega (arith, a.free, size-Reach r, length-window u.box.messages u.box.size a.head a.n),
    )

-- In no reachable state does a writer that holds its lock wait for a free cell while a reader that
-- holds its lock waits for a message: one of the two can go on.
pub no_deadlock :
    {mb : Mbox} {s : System} (t u msg : ℕ)
    → IsValid mb
    → mb.sem_read ≡ 0
    → Reach (begin mb) s
    → s.pc t ≡ putting msg locked
    → s.pc u ≡ getting held
    → step (go t) s ≡ none
    → step (go u) s ≢ none
unfolding step resume put_step get_step
no_deadlock {mb} {s} t u msg v e r pt pu stuck wait =
    let i = Reach-IsSafe (begin-IsSafe v e) r in
    let a = i.account in
    let tw : t ≡ i.w = owner_put i t (rw pt (λ q. cc)) in
    let ur : u ≡ i.r = owner_get i u (rw pu (λ q. cc)) in ground (arith, a.free, a.ready, a.head_in)

-- In every reachable state at most one thread is inside `mbox_put`.
pub one_writer :
    {mb : Mbox} {s : System} (t u : ℕ)
    → IsValid mb
    → mb.sem_read ≡ 0
    → Reach (begin mb) s
    → put_phase (s.pc t) ≢ outside
    → put_phase (s.pc u) ≢ outside
    → t ≡ u
one_writer t u v e r = exclusive_put t u (Reach-IsSafe (begin-IsSafe v e) r)

-- In every reachable state at most one thread is inside `mbox_get`.
pub one_reader :
    {mb : Mbox} {s : System} (t u : ℕ)
    → IsValid mb
    → mb.sem_read ≡ 0
    → Reach (begin mb) s
    → get_phase (s.pc t) ≢ absent
    → get_phase (s.pc u) ≢ absent
    → t ≡ u
one_reader t u v e r = exclusive_get t u (Reach-IsSafe (begin-IsSafe v e) r)
