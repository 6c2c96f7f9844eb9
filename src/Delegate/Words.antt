-- ===== src/Delegate/Words.antt =====
-- Messages on the link of a slot, word by word.
use reconos_v.Base.{ℕ, zero, suc, ◌≤◌, ◌≡◌, ◌≢◌, refl, List, [], ◌∷◌, ◌++◌}
use reconos_v.Base.{arith, length, take, append_assoc, append-nil, sym, ◌∙◌}
use reconos_v.Machine.{Host, Machine, Hwt, ok, fault, update, update_self}
use reconos_v.Fsl.Link.{IsOpen, fsl_read-ok, fsl_write-ok}
use reconos_v.Delegate.{read_words, reply_words}

module _ {K : Type 0} (host : Host K) (hwt : Hwt) where
  -- The words that wait on the link are read in order.
  pub read_words-ok :
      (ws rest : List ℕ) (m : Machine K)
      → IsOpen hwt.slot m.fsl_fd
      → m.rx hwt.slot ≡ ws ++ rest
      → (rx : ℕ → List ℕ) × (read_words host hwt (length ws) m ≡ ok ws (record m { rx = rx }))
        × (rx hwt.slot ≡ rest)
  unfolding read_words
  read_words-ok [] rest m o e = (m.rx, refl, e)
  read_words-ok (w ∷ ws) rest m o e =
      let u = record m { rx = update m.rx hwt.slot (ws ++ rest) } in
      let (rx, run, left) = read_words-ok ws rest u o (update_self m.rx hwt.slot (ws ++ rest)) in
      (rx, rw (fsl_read-ok host hwt.slot m w (ws ++ rest) o e, run) refl, left)

  -- The words of a message are written in order.
  pub reply_words-ok :
      (n : ℕ) (ws : List ℕ) (m : Machine K)
      → IsOpen hwt.slot m.fsl_fd
      → n ≤ length ws
      → (tx : ℕ → List ℕ) × (reply_words host hwt n ws m ≡ ok tt (record m { tx = tx }))
        × (tx hwt.slot ≡ m.tx hwt.slot ++ take n ws)
  unfolding reply_words
  reply_words-ok zero ws m o e = (m.tx, refl, sym (append-nil (m.tx hwt.slot)))
  reply_words-ok (suc n) [] m o e = absurd (omega arith)
  reply_words-ok (suc n) (w ∷ ws) m o e =
      let u = record m { tx = update m.tx hwt.slot (m.tx hwt.slot ++ (w ∷ [])) } in
      let (tx, run, out) = reply_words-ok n ws u o (omega arith) in
      (
        tx,
        rw (fsl_write-ok host hwt.slot m w o, run) refl,
        out
            ∙ rw (update_self m.tx hwt.slot (m.tx hwt.slot ++ (w ∷ [])))
                (append_assoc (m.tx hwt.slot) (w ∷ []) (take n ws)),
      )

  -- A word that was never received is undefined.
  pub reply_words-none : (n : ℕ) (m : Machine K) → n ≢ 0 → reply_words host hwt n [] m ≡ fault m
  unfolding reply_words
  reply_words-none zero m h = absurd (h refl)
  reply_words-none (suc n) m h = refl
