-- ===== src/Vmtest/Reads.antt =====
-- Every step of `hwt_read` and of the hardware thread leads from one phase to the next.
use reconos_v.Base.{ℕ, zero, suc, ◌+◌, ◌*◌, ◌-◌, ◌/◌, ◌%◌, ◌^◌, ◌<◌, ◌⊎◌, some, List, [], ◌∷◌, ◌++◌}
use reconos_v.Base.{
  ◌≡◌, refl, ◌∙◌, sym, ap, length, arith, inl, inr, true, if◌then◌else◌, ◌==◌, ==_iff, if-cases,
  get_or, drop,
}
use reconos_v.Base.Maybe.{>>=-eq-some}
use reconos_v.Mbox.{Mbox, mbox_put, mbox_get}
use reconos_v.Mbox.Holds.{Holds, put-inv, get-inv}
use reconos_v.Vmtest.{
  Place, done, word, State, get_request, get_addr, mbox_put_word, Vm, read_step, thread_step, Side,
  software, hardware, step, run,
}
use reconos_v.Vmtest.Phases.{
  words, words-snoc, Phase, before, asked, heard, sent, told, reads, served, over, Inv, moved,
  opposite, nonzero, words-inv, first, get_none,
}
use mathlib.Core.Path.{subst}
use mathlib.Core.Option.{some-injective}

module _ (vaddr n : ℕ) (memory : List ℕ) where
  module _ (some_word : 0 < n) (fits : n < 2 ^ 22) where
    -- A word is taken from the box, or the loop is over.
    word_step :
        (i : ℕ) (s : Vm) {s' : Vm}
        → read_step vaddr n (word i) s ≡ some s'
        → ((i ≡ n) × (record s { place = done } ≡ s'))
          ⊎ ((x : ℕ) × (mb : Mbox) × (mbox_get s.hw2sw ≡ some (x, mb))
              × (record s { hw2sw = mb; dst = s.dst ++ (x ∷ []); place = word (i + 1) } ≡ s'))
    unfolding read_step
    word_step i s h = elim (if-cases (i == n) h) [
      | inl (e, last) ↦ inl ((==_iff i n).0 e, some-injective _ _ last)
      | inr (e, next) ↦
          let ((x, mb), got, h1) = >>=-eq-some (mbox_get s.hw2sw) _ next in
          inr (x, mb, got, some-injective _ _ h1)
    ]

    -- The next word that the software takes.
    word-Inv :
        (m i count : ℕ) {u : State} (s : Vm) {s' : Vm}
        → ((c : ℕ)
            → count ≡ c + 1
            → Phase vaddr n memory
                (m + 1)
                (word (i + 1))
                u
                []
                (words memory (vaddr / 4 + (i + 1)) c)
                (words memory (vaddr / 4) (i + 1)))
        → (i ≡ n → Phase vaddr n memory (m + 1) done u [] [] (words memory (vaddr / 4) i))
        → Holds 3 [] s.sw2hw
        → Holds 3 (words memory (vaddr / 4 + i) count) s.hw2sw
        → s.memory ≡ memory
        → s.state ≡ u
        → s.dst ≡ words memory (vaddr / 4) i
        → (i ≡ n → count ≡ 0)
        → read_step vaddr n (word i) s ≡ some s'
        → Inv vaddr n memory (m + 1) s'
    word-Inv m i count s next last hs hr em eu eg all h = elim (word_step i s h) [
      | inl (e, same) ↦ subst (Inv vaddr n memory _) same record {
        requests = [];
        answers = words memory (vaddr / 4 + i) count;
        phase =
            moved (omega arith) refl eu refl (ap (words memory (vaddr / 4 + i)) (all e)) eg
              (last e);
        to_thread = hs;
        to_software = hr;
        kept = em;
      }
      | inr (x, mb, got, same) ↦
          let (rest, e, holds) = get-inv x hr got in
          let (c, one, ex, er) = words-inv memory (vaddr / 4 + i) count x rest e in
          subst (Inv vaddr n memory _) same record {
            requests = [];
            answers = rest;
            phase =
                moved (omega arith) refl eu refl (er ∙ ap (λ k. words memory k c) (omega arith))
                  (ap (λ l. l ++ (x ∷ [])) eg
                    ∙ ap (λ y. words memory (vaddr / 4) i ++ (y ∷ [])) ex
                    ∙ words-snoc memory (vaddr / 4) i
                    ∙ ap (words memory (vaddr / 4)) {x = suc i} {y = i + 1} (omega arith))
                  (next c one);
            to_thread = hs;
            to_software = holds;
            kept = em;
          }
    ]

    -- There is no word in the box.
    blocked : (s : Vm) {s' : Vm} → Holds 3 [] s.hw2sw → read_step vaddr n (word 0) s ≡ some s' → ⊥
    blocked s hr h = elim (word_step 0 s h) [
      | inl (e, same) ↦ omega arith
      | inr (x, mb, got, same) ↦ get_none x hr got
    ]

    software-Inv :
        {m : ℕ} {p : Place} {u : State} {q r got : List ℕ} (s : Vm) {s' : Vm}
        → Phase vaddr n memory m p u q r got
        → Holds 3 q s.sw2hw
        → Holds 3 r s.hw2sw
        → s.memory ≡ memory
        → s.state ≡ u
        → s.dst ≡ got
        → read_step vaddr n p s ≡ some s'
        → Inv vaddr n memory (m + 1) s'
    unfolding read_step
    software-Inv s before hs hr em eu eg h =
        let (mb, put, h1) = >>=-eq-some (mbox_put s.sw2hw (n * 4 % 2 ^ 32)) _ h in
        let (room, holds) = put-inv (n * 4 % 2 ^ 32) hs put in
        subst (Inv vaddr n memory _) (some-injective _ _ h1) record {
          requests = (n * 4 % 2 ^ 32) ∷ [];
          answers = [];
          phase = moved (omega arith) refl eu refl refl eg asked;
          to_thread = holds;
          to_software = hr;
          kept = em;
        }
    software-Inv s asked hs hr em eu eg h =
        let (mb, put, h1) = >>=-eq-some (mbox_put s.sw2hw vaddr) _ h in
        let (room, holds) = put-inv vaddr hs put in
        subst (Inv vaddr n memory _) (some-injective _ _ h1) record {
          requests = (n * 4 % 2 ^ 32) ∷ vaddr ∷ [];
          answers = [];
          phase = moved (omega arith) refl eu refl refl eg sent;
          to_thread = holds;
          to_software = hr;
          kept = em;
        }
    software-Inv s heard hs hr em eu eg h =
        let (mb, put, h1) = >>=-eq-some (mbox_put s.sw2hw vaddr) _ h in
        let (room, holds) = put-inv vaddr hs put in
        subst (Inv vaddr n memory _) (some-injective _ _ h1) record {
          requests = vaddr ∷ [];
          answers = [];
          phase = moved (omega arith) refl eu refl refl eg told;
          to_thread = holds;
          to_software = hr;
          kept = em;
        }
    software-Inv s sent hs hr em eu eg h = absurd (blocked s hr h)
    software-Inv s told hs hr em eu eg h = absurd (blocked s hr h)
    software-Inv s (reads i count left e) hs hr em eu eg h =
        word-Inv (4 + i + (i + count)) i count s
          (λ c one.
            moved (omega arith) refl
              (ap (λ k. mbox_put_word (vaddr / 4) k (suc left)) (omega arith)) refl refl refl
              (reads (i + 1) c left (omega arith)))
          (λ end. absurd (omega arith)) hs hr em eu eg (λ end. absurd (omega arith)) h
    software-Inv s (served i count e) hs hr em eu eg h =
        word-Inv (4 + i + (i + count)) i count s
          (λ c one. moved (omega arith) refl refl refl refl refl (served (i + 1) c (omega arith)))
          (λ end. moved (omega arith) refl refl refl refl (ap (words memory (vaddr / 4)) end) over)
          hs hr em eu eg (λ end. omega arith) h
    software-Inv s over hs hr em eu eg h = cc

    -- What the request says to the thread
    request-reads : (n * 4 % 2 ^ 32 / 2 ^ 24 == 0) ≡ true
    request-reads = ground arith

    request-words : n * 4 % 2 ^ 32 / 4 % 2 ^ 22 ≡ n
    request-words = omega arith

    next_word :
        (i count left : ℕ)
        → i + count + suc left ≡ n
        → Phase vaddr n memory
            (4 + i + (i + suc count))
            (word i)
            (if left == 0 then get_request else mbox_put_word (vaddr / 4) (i + count + 1) left)
            []
            (words memory (vaddr / 4 + i) (suc count))
            (words memory (vaddr / 4) i)
    next_word i count zero e = served i (suc count) (omega arith)
    next_word i count (suc left) e =
        moved (omega arith) refl
          (rw (nonzero left) (
            ap (λ k. mbox_put_word (vaddr / 4) k (suc left)) {x = i + count + 1} {y = i + suc count}
              (omega arith)))
          refl refl refl (reads i (suc count) left (omega arith))

    hardware-Inv :
        {m : ℕ} {p : Place} {u : State} {q r got : List ℕ} (s : Vm) {s' : Vm}
        → Phase vaddr n memory m p u q r got
        → Holds 3 q s.sw2hw
        → Holds 3 r s.hw2sw
        → s.memory ≡ memory
        → s.place ≡ p
        → s.dst ≡ got
        → thread_step u s ≡ some s'
        → Inv vaddr n memory (m + 1) s'
    unfolding thread_step
    hardware-Inv s before hs hr em ep eg h =
        let ((x, mb), got, h1) = >>=-eq-some (mbox_get s.sw2hw) _ h in absurd (get_none x hs got)
    hardware-Inv s asked hs hr em ep eg h =
        let ((x, mb), got, h1) = >>=-eq-some (mbox_get s.sw2hw) _ h in
        let (rest, e, holds) = get-inv x hs got in
        subst (Inv vaddr n memory _) (some-injective _ _ h1) record {
          requests = rest;
          answers = [];
          phase =
              moved (omega arith) ep (ap get_addr (first e)) (ap (drop 1) (sym e)) refl eg heard;
          to_thread = holds;
          to_software = hr;
          kept = em;
        }
    hardware-Inv s heard hs hr em ep eg h =
        let ((x, mb), got, h1) = >>=-eq-some (mbox_get s.sw2hw) _ h in absurd (get_none x hs got)
    hardware-Inv s sent hs hr em ep eg h =
        let ((x, mb), got, h1) = >>=-eq-some (mbox_get s.sw2hw) _ h in
        let (rest, e, holds) = get-inv x hs got in
        subst (Inv vaddr n memory _) (some-injective _ _ h1) record {
          requests = rest;
          answers = [];
          phase = moved (omega arith) ep (ap get_addr (first e)) (ap (drop 1) (sym e)) refl eg told;
          to_thread = holds;
          to_software = hr;
          kept = em;
        }
    hardware-Inv s told hs hr em ep eg h =
        let ((x, mb), got, h1) = >>=-eq-some (mbox_get s.sw2hw) _ h in
        let (rest, e, holds) = get-inv x hs got in
        elim (if-cases (n * 4 % 2 ^ 32 / 2 ^ 24 == 0) (some-injective _ _ h1)) [
          | inl (b, same) ↦ subst (Inv vaddr n memory _) same record {
            requests = rest;
            answers = [];
            phase =
                moved (omega arith) ep
                  (ap (λ a. mbox_put_word (a / 4) 0 (n * 4 % 2 ^ 32 / 4 % 2 ^ 22)) (first e)
                    ∙ ap (mbox_put_word (vaddr / 4) 0) {x = n * 4 % 2 ^ 32 / 4 % 2 ^ 22}
                        {y = suc (n - 1)} (omega arith))
                  (ap (drop 1) (sym e)) refl eg (reads 0 0 (n - 1) (omega arith));
            to_thread = holds;
            to_software = hr;
            kept = em;
          }
          | inr (b, same) ↦ absurd (opposite b request-reads)
        ]
    hardware-Inv s (reads i count left e) hs hr em ep eg h =
        let x = get_or s.memory (vaddr / 4 + (i + count)) 0 in
        let (mb, put, h1) = >>=-eq-some (mbox_put s.hw2sw x) _ h in
        let (room, holds) = put-inv x hr put in
        subst (Inv vaddr n memory _) (some-injective _ _ h1) record {
          requests = [];
          answers = words memory (vaddr / 4 + i) count ++ (x ∷ []);
          phase =
              moved (omega arith) ep refl refl
                (ap
                    (λ m.
                      words memory (vaddr / 4 + i) count
                      ++ (get_or m (vaddr / 4 + (i + count)) 0 ∷ []))
                    em
                  ∙ ap (λ k. words memory (vaddr / 4 + i) count ++ (get_or memory k 0 ∷ []))
                      {x = vaddr / 4 + (i + count)} {y = vaddr / 4 + i + count} (omega arith)
                  ∙ words-snoc memory (vaddr / 4 + i) count)
                eg (next_word i count left e);
          to_thread = hs;
          to_software = holds;
          kept = em;
        }
    hardware-Inv s (served i count e) hs hr em ep eg h =
        let ((x, mb), got, h1) = >>=-eq-some (mbox_get s.sw2hw) _ h in absurd (get_none x hs got)
    hardware-Inv s over hs hr em ep eg h =
        let ((x, mb), got, h1) = >>=-eq-some (mbox_get s.sw2hw) _ h in absurd (get_none x hs got)

    step-Inv :
        (side : Side) {m : ℕ} {s s' : Vm}
        → Inv vaddr n memory m s
        → step (read_step vaddr n) side s ≡ some s'
        → Inv vaddr n memory (m + 1) s'
    unfolding step
    step-Inv software {s = s} v h =
        software-Inv s v.phase v.to_thread v.to_software v.kept refl refl h
    step-Inv hardware {s = s} v h =
        hardware-Inv s v.phase v.to_thread v.to_software v.kept refl refl h

    pub run-Inv :
        (sides : List Side) (m : ℕ) {s s' : Vm}
        → Inv vaddr n memory m s
        → run (read_step vaddr n) sides s ≡ some s'
        → Inv vaddr n memory (m + length sides) s'
    unfolding run
    run-Inv [] m {s} v h =
        subst (Inv vaddr n memory _) (some-injective _ _ h)
          (subst (λ k. Inv vaddr n memory k s) {x = m} {y = m + 0} (omega arith) v)
    run-Inv (side ∷ sides) m {s} {s'} v h =
        let (next, one, h1) = >>=-eq-some (step (read_step vaddr n) side s) _ h in
        subst (λ k. Inv vaddr n memory k s') {x = m + 1 + length sides} {y = m + suc (length sides)}
          (omega arith) (run-Inv sides (m + 1) (step-Inv side v one) h1)
