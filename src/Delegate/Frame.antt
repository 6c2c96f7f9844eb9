-- ===== src/Delegate/Frame.antt =====
-- A delegate thread talks to the link of its own slot alone.
use reconos_v.Base.{
  ℕ, zero, suc, ◌≡◌, refl, ◌≢◌, Option, List, [], ◌∷◌, arith, true, false, ◌∙◌, Bool, if◌then◌else◌,
  ◌/◌, ◌||◌, ◌&&◌, not, ltb, ◌==◌,
}
use reconos_v.Machine.{
  Host, Machine, Hwt, Run, ok, blocked, exited, fault, Cmd, state, and_then, ◌>>=◌, ◌>>◌,
}
use reconos_v.Kind
use reconos_v.Fsl.{fsl_read, fsl_write}
use reconos_v.Rq.{box_put, box_get, rq_receive, rq_send, malloc}
use reconos_v.Delegate.{
  cmd_mbox_get, cmd_mbox_put, cmd_sem_wait, cmd_sem_post, cmd_mutex_lock, cmd_mutex_unlock,
  cmd_mutex_trylock, cmd_cond_wait, cmd_cond_signal, cmd_cond_broadcast, cmd_rq_receive,
  cmd_rq_send, cmd_get_init_data, reply_words, words_of, read_words, answer, receive_message,
  send_message, dispatch, delegate_step, delegate_loop, resource,
}

-- However the command ends, it has read from and written to no link but `n`.
abbrev pub Keeps : {K A : Type 0} → ℕ → Cmd K A → Type 0
Keeps {K} n c =
    (m : Machine K) (k : ℕ) → k ≢ n → ((state (c m)).rx k ≡ m.rx k) × ((state (c m)).tx k ≡ m.tx k)

module _ {K A B : Type 0} (n : ℕ) where
  then-Keeps :
      (r : Run K A) (f : A → Cmd K B) (k : ℕ)
      → k ≢ n
      → ((a : A) → Keeps n (f a))
      → ((state (and_then r f)).rx k ≡ (state r).rx k)
        × ((state (and_then r f)).tx k ≡ (state r).tx k)
  then-Keeps (ok a m) f k ne h = h a m k ne
  then-Keeps (blocked m) f k ne h = (refl, refl)
  then-Keeps (exited c m) f k ne h = (refl, refl)
  then-Keeps (fault m) f k ne h = (refl, refl)

  bind-Keeps :
      (c : Cmd K A) (f : A → Cmd K B) → Keeps n c → ((a : A) → Keeps n (f a)) → Keeps n (c >>= f)
  bind-Keeps c f hc hf m k ne =
      let t = then-Keeps (c m) f k ne hf in (t.0 ∙ (hc m k ne).0, t.1 ∙ (hc m k ne).1)

module _ {K B : Type 0} (n : ℕ) where
  if-Keeps : (b : Bool) (c d : Cmd K B) → Keeps n c → Keeps n d → Keeps n (if b then c else d)
  if-Keeps true c d hc hd = hc
  if-Keeps false c d hc hd = hd

module _ {K : Type 0} (host : Host K) (hwt : Hwt) where
  fsl_read-Keeps : Keeps hwt.slot (fsl_read host hwt.slot)
  unfolding fsl_read
  fsl_read-Keeps m k ne = ground arith

  fsl_write-Keeps : (v : ℕ) → Keeps hwt.slot (fsl_write host hwt.slot v)
  unfolding fsl_write
  fsl_write-Keeps v m k ne = ground arith

  cmd_mbox_get-Keeps : Keeps hwt.slot (cmd_mbox_get host hwt)
  unfolding cmd_mbox_get box_get fsl_read fsl_write
  cmd_mbox_get-Keeps m k ne = ground arith

  cmd_mbox_put-Keeps : Keeps hwt.slot (cmd_mbox_put host hwt)
  unfolding cmd_mbox_put box_put fsl_read fsl_write
  cmd_mbox_put-Keeps m k ne = ground arith

  cmd_sem_wait-Keeps : Keeps hwt.slot (cmd_sem_wait host hwt)
  unfolding cmd_sem_wait fsl_read fsl_write
  cmd_sem_wait-Keeps m k ne = ground arith

  cmd_sem_post-Keeps : Keeps hwt.slot (cmd_sem_post host hwt)
  unfolding cmd_sem_post fsl_read fsl_write
  cmd_sem_post-Keeps m k ne = ground arith

  cmd_mutex_lock-Keeps : Keeps hwt.slot (cmd_mutex_lock host hwt)
  unfolding cmd_mutex_lock fsl_read fsl_write
  cmd_mutex_lock-Keeps m k ne = ground arith

  cmd_mutex_unlock-Keeps : Keeps hwt.slot (cmd_mutex_unlock host hwt)
  unfolding cmd_mutex_unlock fsl_read fsl_write
  cmd_mutex_unlock-Keeps m k ne = ground arith

  cmd_mutex_trylock-Keeps : Keeps hwt.slot (cmd_mutex_trylock host hwt)
  unfolding cmd_mutex_trylock fsl_read fsl_write
  cmd_mutex_trylock-Keeps m k ne = ground arith

  cmd_cond_wait-Keeps : Keeps hwt.slot (cmd_cond_wait host hwt)
  unfolding cmd_cond_wait fsl_read fsl_write
  cmd_cond_wait-Keeps m k ne = ground arith

  cmd_cond_signal-Keeps : Keeps hwt.slot (cmd_cond_signal host hwt)
  unfolding cmd_cond_signal fsl_read fsl_write
  cmd_cond_signal-Keeps m k ne = ground arith

  cmd_cond_broadcast-Keeps : Keeps hwt.slot (cmd_cond_broadcast host hwt)
  unfolding cmd_cond_broadcast fsl_read fsl_write
  cmd_cond_broadcast-Keeps m k ne = ground arith

  cmd_get_init_data-Keeps : Keeps hwt.slot (cmd_get_init_data host hwt)
  unfolding cmd_get_init_data
  cmd_get_init_data-Keeps = fsl_write-Keeps hwt.init_data

  reply_words-Keeps : (n : ℕ) (ws : List ℕ) → Keeps hwt.slot (reply_words host hwt n ws)
  unfolding reply_words
  reply_words-Keeps zero ws m k ne = (refl, refl)
  reply_words-Keeps (suc n) [] m k ne = (refl, refl)
  reply_words-Keeps (suc n) (w ∷ ws) m k ne =
      bind-Keeps hwt.slot (fsl_write host hwt.slot w) (λ _. reply_words host hwt n ws)
        (fsl_write-Keeps w) (λ _. reply_words-Keeps n ws) m k ne

  read_words-Keeps : (n : ℕ) → Keeps hwt.slot (read_words host hwt n)
  unfolding read_words
  read_words-Keeps zero m k ne = (refl, refl)
  read_words-Keeps (suc n) m k ne =
      bind-Keeps hwt.slot (fsl_read host hwt.slot) _ fsl_read-Keeps
        (λ w.
          bind-Keeps hwt.slot (read_words host hwt n) _ (read_words-Keeps n)
            λ ws m k ne. (refl, refl))
        m k ne

  resource-Keeps : (h kind : ℕ) → Keeps hwt.slot (resource host hwt h kind)
  unfolding resource
  resource-Keeps h kind m k ne = ground arith

  rq_receive-Keeps : (rq msg size : ℕ) → Keeps {K = K} hwt.slot (rq_receive rq msg size)
  unfolding rq_receive
  rq_receive-Keeps rq msg size m k ne = ground arith

  rq_send-Keeps : (rq : ℕ) (ws : List ℕ) (size : ℕ) → Keeps hwt.slot (rq_send host rq ws size)
  unfolding rq_send
  rq_send-Keeps rq ws size m k ne = ground arith

  answer-Keeps : (size : ℕ) (r : ℕ × Option (List ℕ)) → Keeps hwt.slot (answer host hwt size r)
  unfolding answer
  answer-Keeps size (r, ws) =
      if-Keeps hwt.slot (r == 0 || ltb size r) (fsl_write host hwt.slot 0)
        (fsl_write host hwt.slot r >> reply_words host hwt (r / 4) (words_of host hwt ws))
        (fsl_write-Keeps 0)
        (bind-Keeps hwt.slot (fsl_write host hwt.slot r)
          (λ _. reply_words host hwt (r / 4) (words_of host hwt ws)) (fsl_write-Keeps r)
          (λ _. reply_words-Keeps (r / 4) (words_of host hwt ws)))

  receive_message-Keeps : (ptr size : ℕ) → Keeps hwt.slot (receive_message host hwt ptr size)
  unfolding receive_message
  receive_message-Keeps ptr size =
      bind-Keeps hwt.slot (malloc host size)
        (λ msg. rq_receive ptr msg size >>= answer host hwt size) (λ m k ne. (refl, refl))
        (λ msg.
          bind-Keeps hwt.slot (rq_receive ptr msg size) (answer host hwt size)
            (rq_receive-Keeps ptr msg size) (answer-Keeps size))

  cmd_rq_receive-Keeps : Keeps hwt.slot (cmd_rq_receive host hwt)
  unfolding cmd_rq_receive
  cmd_rq_receive-Keeps = bind-Keeps hwt.slot (fsl_read host hwt.slot) _ fsl_read-Keeps λ handle.
      bind-Keeps hwt.slot (fsl_read host hwt.slot) _ fsl_read-Keeps λ size.
        bind-Keeps hwt.slot (resource host hwt handle Kind.rq)
          (λ ptr. receive_message host hwt ptr size) (resource-Keeps handle Kind.rq)
          (λ ptr. receive_message-Keeps ptr size)

  send_message-Keeps : (ptr size msg : ℕ) → Keeps hwt.slot (send_message host hwt ptr size msg)
  unfolding send_message
  send_message-Keeps ptr size msg =
      if-Keeps hwt.slot (msg == 0 && not (size == 0)) fault
        (read_words host hwt (size / 4) >>= λ ws.
          rq_send host ptr ws size >> fsl_write host hwt.slot 0)
        (λ m k ne. (refl, refl))
        (bind-Keeps hwt.slot (read_words host hwt (size / 4))
          (λ ws. rq_send host ptr ws size >> fsl_write host hwt.slot 0)
          (read_words-Keeps (size / 4))
          (λ ws.
            bind-Keeps hwt.slot (rq_send host ptr ws size) (λ _. fsl_write host hwt.slot 0)
              (rq_send-Keeps ptr ws size) (λ _. fsl_write-Keeps 0)))

  cmd_rq_send-Keeps : Keeps hwt.slot (cmd_rq_send host hwt)
  unfolding cmd_rq_send
  cmd_rq_send-Keeps = bind-Keeps hwt.slot (fsl_read host hwt.slot) _ fsl_read-Keeps λ handle.
      bind-Keeps hwt.slot (fsl_read host hwt.slot) _ fsl_read-Keeps λ size.
        bind-Keeps hwt.slot (resource host hwt handle Kind.rq)
          (λ ptr. malloc host size >>= send_message host hwt ptr size)
          (resource-Keeps handle Kind.rq)
          (λ ptr.
            bind-Keeps hwt.slot (malloc host size) (send_message host hwt ptr size)
              (λ m k ne. (refl, refl)) (send_message-Keeps ptr size))

  dispatch-Keeps : (cmd : ℕ) → Keeps hwt.slot (dispatch host hwt cmd)
  unfolding dispatch
  dispatch-Keeps cmd m k ne = ground (
    arith,
    cmd_mbox_get-Keeps m k ne,
    cmd_mbox_put-Keeps m k ne,
    cmd_sem_wait-Keeps m k ne,
    cmd_sem_post-Keeps m k ne,
    cmd_mutex_lock-Keeps m k ne,
    cmd_mutex_unlock-Keeps m k ne,
    cmd_mutex_trylock-Keeps m k ne,
    cmd_cond_wait-Keeps m k ne,
    cmd_cond_signal-Keeps m k ne,
    cmd_cond_broadcast-Keeps m k ne,
    cmd_rq_receive-Keeps m k ne,
    cmd_rq_send-Keeps m k ne,
    cmd_get_init_data-Keeps m k ne,
  )

  -- One round of the loop leaves every other link alone, however it ends.
  pub delegate_step-Keeps : Keeps hwt.slot (delegate_step host hwt)
  unfolding delegate_step
  delegate_step-Keeps =
      bind-Keeps hwt.slot (fsl_read host hwt.slot) _ fsl_read-Keeps λ cmd. dispatch-Keeps cmd

  -- Any number of rounds of the delegate thread of a slot reads from and writes to no other link,
  -- however the rounds end.
  pub delegate_loop-Keeps : (rounds : ℕ) → Keeps hwt.slot (delegate_loop host hwt rounds)
  unfolding delegate_loop
  delegate_loop-Keeps zero m k ne = (refl, refl)
  delegate_loop-Keeps (suc n) m k ne =
      bind-Keeps hwt.slot (delegate_step host hwt) _ delegate_step-Keeps
        (elim [ true ↦ delegate_loop-Keeps n | false ↦ λ m k ne. (refl, refl) ]) m k ne
