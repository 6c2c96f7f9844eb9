-- ===== src/Noc/Setup/Created.antt =====
-- What the creation of an interface leaves.
use reconos_v.Base.{
  ℕ, zero, suc, ◌≤◌, ◌≡◌, ◌≢◌, refl, true, some, List, [], ◌∷◌, ◌++◌, arith, ◌∙◌, length, ap,
}
use reconos_v.Kind
use reconos_v.Mbox.{Mbox, done, mbox_init, mbox_put}
use reconos_v.Mbox.Refine.{
  IsValid, contents, enqueue, Succeeds, mbox_init-IsValid, mbox_put_refines, mbox_put-IsValid,
  put_seen,
}
use reconos_v.Process.{reconos_hwt_setresources}
use reconos_v.Noc.Setup.{
  Worker, pointer_exchange, timer, packet_processing, Calls, Side, returns, Noc, reconos_noc_init,
  Stage, start, finished, prepare, create_sw2hw_interface, create_hw2sw_interface,
}

-- every call of the creation succeeds
pub record AllSucceed (c : Calls) (base : ℕ) : Type 0 where
  pub memory : c.interface_memory ≡ true
  pub ring : c.ring_memory ≡ some base
  pub first : c.sem_init_first ≡ 0
  pub second : c.sem_init_second ≡ 0
  pub put_ok : Succeeds c.put_library
  pub get_ok : Succeeds c.get_library
  pub put_block : List ℕ
  pub get_block : List ℕ
  pub put_memory : c.put_library.malloc 16 ≡ some put_block
  pub get_memory : c.get_library.malloc 16 ≡ some get_block
  pub put_room : 4 ≤ length put_block
  pub get_room : 4 ≤ length get_block
  pub threads : (w : Worker) → c.pthread_create w ≡ 0

-- The box towards the hardware thread holds the base address of the ring buffer, the other one is
-- empty, and the hardware thread in `slot` has the two as its resources.
pub record IsPrepared (c : Calls) (base slot : ℕ) (s : Side) : Type 0 where
  pub based : s.ring_base ≡ some base
  pub put_valid : IsValid s.mb_put
  pub get_valid : IsValid s.mb_get
  pub told : contents s.mb_put ≡ base ∷ []
  pub nothing : contents s.mb_get ≡ []
  pub runs : s.started ≡ some slot
  pub in_slot : s.hwt.slot ≡ slot
  pub both : s.hwt.num_resources ≡ 2
  pub resources :
      s.hwt.resources
      ≡ record { ptr = c.put_address; type = Kind.mbox }
        ∷ record { ptr = c.get_address; type = Kind.mbox }
        ∷ []

module _ {c : Calls} {base : ℕ} (a : AllSucceed c base) (s : Side) where
  prepare-run :
      (slot : ℕ) (go : Stage) (mb mb2 mb' : Mbox)
      → mbox_init c.put_library s.mb_put 4 ≡ (done, mb)
      → mbox_init c.get_library s.mb_get 4 ≡ (done, mb2)
      → mbox_put mb base ≡ some mb'
      → prepare c slot base go s
        ≡ go (record s {
          ring_base = some base;
          mb_put = mb';
          mb_get = mb2;
          hwt = record s.hwt {
            slot = slot;
            num_resources = 2;
            resources =
                record { ptr = c.put_address; type = Kind.mbox }
                ∷ record { ptr = c.get_address; type = Kind.mbox }
                ∷ [];
          };
          started = some slot;
        })
  unfolding reconos_hwt_setresources mbox_put
  prepare-run slot go mb mb2 mb' e e2 put = rw (a.first, a.second, e, e2, put)

  prepare-ok :
      (slot : ℕ) (go : Stage)
      → (t : Side) × (prepare c slot base go s ≡ go t)
        × IsPrepared c base slot t
        × (t.workers ≡ s.workers)
  unfolding enqueue
  prepare-ok slot go =
      let (e, v, empty, size) =
        mbox_init-IsValid c.put_library s.mb_put 4 a.put_block (omega arith) (omega arith) a.put_ok
          a.put_memory (omega (arith, a.put_room)) in
      let (e2, v2, empty2, size2) =
        mbox_init-IsValid c.get_library s.mb_get 4 a.get_block (omega arith) (omega arith) a.get_ok
          a.get_memory (omega (arith, a.get_room)) in
      let mb = (mbox_init c.put_library s.mb_put 4).1 in
      let mb2 = (mbox_init c.get_library s.mb_get 4).1 in
      let room : enqueue mb.size (contents mb) base ≡ some (base ∷ []) =
        ap (λ n. enqueue n (contents mb) base) size ∙ ap (λ q. enqueue 4 q base) empty in
      let (mb', put, holds) = put_seen (mbox_put mb base) (mbox_put_refines v base ∙ room) in
      (
        record s {
          ring_base = some base;
          mb_put = mb';
          mb_get = mb2;
          hwt = record s.hwt {
            slot = slot;
            num_resources = 2;
            resources =
                record { ptr = c.put_address; type = Kind.mbox }
                ∷ record { ptr = c.get_address; type = Kind.mbox }
                ∷ [];
          };
          started = some slot;
        },
        prepare-run slot go mb mb2 mb' (ap (λ k. (k, mb)) e) (ap (λ k. (k, mb2)) e2) put,
        record {
          based = refl;
          put_valid = mbox_put-IsValid v base put;
          get_valid = v2;
          told = holds;
          nothing = empty2;
          runs = refl;
          in_slot = refl;
          both = refl;
          resources = refl;
        },
        refl,
      )

  -- If every call succeeds, the interface towards the hardware is created with result 0: its boxes
  -- are valid, the hardware thread in slot 1 has them as resources and finds the base address of the
  -- ring buffer in the first, and the three software threads are started in order.
  pub sw2hw_created :
      (t : Side) × (create_sw2hw_interface c s ≡ (returns 0, t))
      × IsPrepared c base 1 t
      × (t.workers
          ≡ ((s.workers ++ (pointer_exchange ∷ [])) ++ (timer ∷ [])) ++ (packet_processing ∷ []))
  unfolding create_sw2hw_interface
  sw2hw_created =
      let (t, run, p, same) =
        prepare-ok 1
          (start c pointer_exchange (start c timer (start c packet_processing (finished c)))) in
      (
        record t {
          workers =
              ((s.workers ++ (pointer_exchange ∷ [])) ++ (timer ∷ [])) ++ (packet_processing ∷ []);
        },
        rw (a.memory, a.ring)
            (run
              ∙ ground (
                arith,
                same,
                a.threads pointer_exchange,
                a.threads timer,
                a.threads packet_processing,
              )),
        record {
          based = p.based;
          put_valid = p.put_valid;
          get_valid = p.get_valid;
          told = p.told;
          nothing = p.nothing;
          runs = p.runs;
          in_slot = p.in_slot;
          both = p.both;
          resources = p.resources;
        },
        refl,
      )

  -- The same for the other direction, with slot 0 and its one software thread.
  pub hw2sw_created :
      (t : Side) × (create_hw2sw_interface c s ≡ (returns 0, t))
      × IsPrepared c base 0 t
      × (t.workers ≡ s.workers ++ (pointer_exchange ∷ []))
  unfolding create_hw2sw_interface
  hw2sw_created =
      let (t, run, p, same) = prepare-ok 0 (start c pointer_exchange (finished c)) in
      (
        record t { workers = s.workers ++ (pointer_exchange ∷ []) },
        rw (a.memory, a.ring) (run ∙ ground (arith, same, a.threads pointer_exchange)),
        record {
          based = p.based;
          put_valid = p.put_valid;
          get_valid = p.get_valid;
          told = p.told;
          nothing = p.nothing;
          runs = p.runs;
          in_slot = p.in_slot;
          both = p.both;
          resources = p.resources;
        },
        refl,
      )

-- The start of the whole interface returns 0 if every call succeeds: the control thread runs, and
-- both directions are prepared, the one towards the hardware in slot 1 and the other in slot 0.
pub noc_init_lem :
    {sw hw : Calls} {base base2 : ℕ} (n : Noc)
    → AllSucceed sw base
    → AllSucceed hw base2
    → (u : Noc) × (reconos_noc_init true 0 sw hw n ≡ (returns 0, u))
      × (u.control_runs ≡ true)
      × IsPrepared sw base 1 u.sw2hw
      × IsPrepared hw base2 0 u.hw2sw
unfolding reconos_noc_init
noc_init_lem {sw} {hw} n a b =
    let (s, run, p, w) = sw2hw_created a n.sw2hw in
    let (t, run2, q, w2) = hw2sw_created b n.hw2sw in
    (record { control_runs = true; sw2hw = s; hw2sw = t }, rw (run, run2), refl, p, q)

-- A failure towards the hardware is the result of the start; the other direction is left alone, and
-- the control thread runs on.
pub noc_init-failed :
    (sw hw : Calls) (n : Noc) (s : Side) (code : ℕ)
    → create_sw2hw_interface sw n.sw2hw ≡ (returns code, s)
    → code ≢ 0
    → reconos_noc_init true 0 sw hw n ≡ (returns code, record n { control_runs = true; sw2hw = s })
unfolding reconos_noc_init
noc_init-failed sw hw n s zero e ne = absurd (ne refl)
noc_init-failed sw hw n s (suc code) e ne = rw e
