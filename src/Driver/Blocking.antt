-- ===== src/Driver/Blocking.antt =====
-- Reads that find fewer words than they ask for.
use reconos_v.Base.{
  ℕ, zero, suc, ◌+◌, ◌*◌, ◌/◌, ◌%◌, ◌≤◌, ◌<◌, ◌≡◌, ◌≢◌, refl, Bool, true, false, List, [], ◌++◌,
}
use reconos_v.Base.{length, arith, sym, ap, ◌∙◌, append-nil}
use reconos_v.Driver.{
  Fifos, Reader, bytes, error, returned, sleeping, fsl_max, ngetfsl, read_words, fsl_read, wake,
  fsl_interrupt, erestartsys, no_data,
}
use reconos_v.Driver.Transfer.{read_words-prefix}

-- The FIFO of the device holds the words and the buffer takes all that is asked for.
pub record Asks (r : Reader) (words : List ℕ) (left room count : ℕ) : Type 0 where
  pub link : r.dev.fsl_num < fsl_max
  pub there : r.fifos.slave r.dev.fsl_num ≡ words
  pub nothing : r.copied ≡ []
  pub amount : count ≡ 4 * (length words + left)
  pub fits : length words + left ≤ room

-- a reader that has copied the words, with those that are left in the FIFO
pub record Copied (r u : Reader) (words rest : List ℕ) : Type 0 where
  pub got : u.copied ≡ words
  pub left : u.fifos.slave r.dev.fsl_num ≡ rest
  pub number : u.dev.fsl_num ≡ r.dev.fsl_num

module _ (room count : ℕ) where
  whole_words :
      (nonblock : Bool) (r : Reader)
      → count % 4 ≡ 0
      → fsl_read room count nonblock r ≡ read_words (count / 4) room count nonblock r
  unfolding fsl_read
  whole_words nonblock r whole = rw whole

-- with no word in the FIFO
read_words-none :
    (left room count : ℕ) (nonblock : Bool) (r : Reader)
    → left ≢ 0
    → r.dev.fsl_num < fsl_max
    → r.fifos.slave r.dev.fsl_num ≡ []
    → read_words left room count nonblock r ≡ no_data nonblock left r
unfolding read_words ngetfsl
read_words-none zero room count nonblock r ne lt e = absurd (ne refl)
read_words-none (suc left) room count nonblock r ne lt e = ground arith

module _ {r : Reader} {words : List ℕ} {left room count : ℕ}
    (a : Asks r words left room count) where
  read_start :
      (nonblock : Bool)
      → (g : Fifos) × (fsl_read room count nonblock r
          ≡ read_words left room count nonblock (record r { fifos = g; copied = words }))
        × (g.slave r.dev.fsl_num ≡ [])
  read_start nonblock =
      let n : count / 4 ≡ length words + left = omega (arith, a.amount) in
      let whole : count % 4 ≡ 0 = omega (arith, a.amount) in
      let (g, run, rest, same) =
        read_words-prefix room count nonblock words [] left r a.link
          (a.there ∙ sym (append-nil words)) (omega (arith, ap length a.nothing, a.fits)) in
      (
        g,
        whole_words room count nonblock r whole
            ∙ ap (λ k. read_words k room count nonblock r) n
            ∙ run
            ∙ ap
                (λ c.
                  read_words left room count nonblock (record r { fifos = g; copied = c ++ words }))
                a.nothing,
        rest,
      )

  -- A non-blocking read that does not find all words copies those that are there, in order, and
  -- returns their number of bytes.
  pub read_nonblock :
      left ≢ 0
      → (u : Reader) × (fsl_read room count true r ≡ (returned (bytes (4 * length words)), u))
        × Copied r u words []
  read_nonblock more =
      let (g, run, rest) = read_start true in
      let u = record r { fifos = g; copied = words; dev = record r.dev { irq_count = 0 } } in
      (
        u,
        run
            ∙ read_words-none left room count true (record r { fifos = g; copied = words }) more
                a.link rest,
        record { got = refl; left = rest; number = refl },
      )

  -- A read that finds all words copies them, in order, and returns its number of bytes.
  pub read_all :
      (nonblock : Bool)
      → left ≡ 0
      → (u : Reader) × (fsl_read room count nonblock r ≡ (returned (bytes count), u))
        × Copied r u words []
  unfolding read_words
  read_all nonblock e =
      let (g, run, rest) = read_start nonblock in
      let u = record r { fifos = g; copied = words } in
      (
        u,
        run ∙ ap (λ k. read_words k room count nonblock u) e,
        record { got = refl; left = rest; number = refl },
      )

  -- A blocking read that does not find all words copies those that are there and sleeps with the
  -- device's interrupt enabled.
  pub read_sleeps :
      left ≢ 0
      → (u : Reader) × (fsl_read room count false r ≡ (sleeping left, u))
        × Copied r u words []
        × (u.dev ≡ record r.dev { irq_count = 0; irq_enabled = true })
  read_sleeps more =
      let (g, run, rest) = read_start false in
      let u = record r {
        fifos = g;
        copied = words;
        dev = record r.dev { irq_count = 0; irq_enabled = true };
      } in
      (
        u,
        run
            ∙ read_words-none left room count false (record r { fifos = g; copied = words }) more
                a.link rest,
        record { got = refl; left = rest; number = refl },
        refl,
      )

-- A read that sleeps, is woken by the interrupt handler once the missing words have come, and then
-- finds them, has copied all words in order: the sleep leaves no gap. Its result is its size.
pub sleep_then_read :
    {r : Reader} {words : List ℕ} {left room count : ℕ} (more : List ℕ) (g : Fifos)
    → Asks r words left room count
    → left ≢ 0
    → left ≡ length more
    → g.slave r.dev.fsl_num ≡ more
    → (u : Reader) × (w : Reader) × (fsl_read room count false r ≡ (sleeping left, u))
      × (wake left room count false (record u { fifos = g; dev = fsl_interrupt u.dev })
          ≡ (returned (bytes count), w))
      × (w.copied ≡ words ++ more)
unfolding wake fsl_interrupt read_words
sleep_then_read {r} {words} {left} {room} {count} more g a ne same come =
    let (u, run, c, dev) = read_sleeps a ne in
    let v = record u { fifos = g; dev = fsl_interrupt u.dev } in
    let (h, run2, rest, keep) =
      read_words-prefix room count false more [] 0 v (ground (arith, a.link, c.number))
        (rw c.number (come ∙ sym (append-nil more))) (omega (arith, ap length c.got, a.fits)) in
    let n : length more + 0 ≡ left = omega arith in
    (
      u,
      record v { fifos = h; copied = v.copied ++ more },
      run,
      ground (arith, dev) ∙ ap (λ k. read_words k room count false v) (sym n) ∙ run2,
      rw c.got,
    )

-- A signal ends a sleeping read with -ERESTARTSYS, although the words that it has copied have left
-- the FIFO: the call that is made again does not find them.
pub signal_loses :
    {r : Reader} {words : List ℕ} {left room count : ℕ}
    → Asks r words left room count
    → left ≢ 0
    → (u : Reader) × (fsl_read room count false r ≡ (sleeping left, u))
      × (wake left room count true u ≡ (returned (error erestartsys), u))
      × (u.fifos.slave r.dev.fsl_num ≡ [])
unfolding wake
signal_loses a ne = let (u, run, c, dev) = read_sleeps a ne in (u, run, refl, c.left)
