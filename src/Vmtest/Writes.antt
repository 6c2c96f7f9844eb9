-- ===== src/Vmtest/Writes.antt =====
-- Every step of `hwt_write` leads from one phase to the next.
use reconos_v.Base.{ℕ, suc, ◌+◌, ◌≤◌, ◌⊎◌, some, List, [], ◌∷◌, ◌++◌}
use reconos_v.Base.{
  ◌≡◌, refl, ◌∙◌, sym, ap, arith, inl, inr, false, ◌==◌, ==_iff, if-cases, get_or, drop,
}
use reconos_v.Base.Maybe.{>>=-eq-some}
use reconos_v.Mbox.{Mbox, mbox_put, mbox_get}
use reconos_v.Mbox.Holds.{Holds, put-inv, get-inv}
use reconos_v.Vmtest.{Place, done, word, State, Vm, write_step}
use reconos_v.Vmtest.Phases.{words, words-snoc, get_none}
use reconos_v.Vmtest.Written.{
  write_request, Phase, before, asked, heard, sent, told, writes, acks, acked, over, Inv, moved,
}
use mathlib.Core.Path.{subst}
use mathlib.Core.Option.{some-injective}

different : (i k : ℕ) → (i == k) ≡ false → i ≡ k → ⊥
different i k e h = ground arith

less : (i k : ℕ) → i ≤ k → (i ≡ k → ⊥) → i + 1 ≤ k
less i k le h = elim (cases i k le) [ inl e ↦ absurd (h e) | inr lt ↦ lt ]
  where
    cases : (i k : ℕ) → i ≤ k → (i ≡ k) ⊎ (i + 1 ≤ k)
    cases i k le = ground arith

module _ (src : List ℕ) (vaddr n : ℕ) (memory : List ℕ) where
  -- A word is put into the box, or the answer is taken.
  pub word_step :
      (i : ℕ) (s : Vm) {s' : Vm}
      → write_step src vaddr n (word i) s ≡ some s'
      → ((i ≡ n)
          × (x : ℕ) × (mb : Mbox) × (mbox_get s.hw2sw ≡ some (x, mb))
          × (record s { hw2sw = mb; place = done } ≡ s'))
        ⊎ ((i ≡ n → ⊥)
            × (mb : Mbox) × (mbox_put s.sw2hw (get_or src i 0) ≡ some mb)
            × (record s { sw2hw = mb; place = word (i + 1) } ≡ s'))
  unfolding write_step
  word_step i s h = elim (if-cases (i == n) h) [
    | inl (e, last) ↦
        let ((x, mb), got, h1) = >>=-eq-some (mbox_get s.hw2sw) _ last in
        inl ((==_iff i n).0 e, x, mb, got, some-injective _ _ h1)
    | inr (e, next) ↦
        let (mb, put, h1) = >>=-eq-some (mbox_put s.sw2hw (get_or src i 0)) _ next in
        inr (different i n e, mb, put, some-injective _ _ h1)
  ]

  -- The next word that the software puts, while there is no answer.
  word-Inv :
      (m i : ℕ) {u : State} (q : List ℕ) (s : Vm) {s' : Vm} {now : List ℕ}
      → ((i ≡ n → ⊥)
          → Phase src vaddr n memory (m + 1) (word (i + 1)) u (q ++ (get_or src i 0 ∷ [])) [] now)
      → Holds 3 q s.sw2hw
      → Holds 3 [] s.hw2sw
      → s.state ≡ u
      → s.memory ≡ now
      → write_step src vaddr n (word i) s ≡ some s'
      → Inv src vaddr n memory (m + 1) s'
  word-Inv m i q s next hs hr eu en h = elim (word_step i s h) [
    | inl (e, x, mb, got, same) ↦ absurd (get_none x hr got)
    | inr (e, mb, put, same) ↦
        let (room, holds) = put-inv (get_or src i 0) hs put in
        subst (Inv src vaddr n memory _) same record {
          requests = q ++ (get_or src i 0 ∷ []);
          answers = [];
          phase = moved refl refl eu refl refl en (next e);
          to_thread = holds;
          to_software = hr;
        }
  ]

  one_more : (i : ℕ) → words src 0 i ++ (get_or src i 0 ∷ []) ≡ words src 0 (i + 1)
  one_more i =
      ap (λ k. words src 0 i ++ (get_or src k 0 ∷ [])) {x = i} {y = 0 + i} (omega arith)
      ∙ words-snoc src 0 i
      ∙ ap (words src 0) {x = suc i} {y = i + 1} (omega arith)

  pub software-Inv :
      {m : ℕ} {p : Place} {u : State} {q r now : List ℕ} (s : Vm) {s' : Vm}
      → Phase src vaddr n memory m p u q r now
      → Holds 3 q s.sw2hw
      → Holds 3 r s.hw2sw
      → s.state ≡ u
      → s.memory ≡ now
      → write_step src vaddr n p s ≡ some s'
      → Inv src vaddr n memory (m + 1) s'
  unfolding write_step
  software-Inv s before hs hr eu en h =
      let (mb, put, h1) = >>=-eq-some (mbox_put s.sw2hw (write_request n)) _ h in
      let (room, holds) = put-inv (write_request n) hs put in
      subst (Inv src vaddr n memory _) (some-injective _ _ h1) record {
        requests = write_request n ∷ [];
        answers = [];
        phase = moved (omega arith) refl eu refl refl en asked;
        to_thread = holds;
        to_software = hr;
      }
  software-Inv s asked hs hr eu en h =
      let (mb, put, h1) = >>=-eq-some (mbox_put s.sw2hw vaddr) _ h in
      let (room, holds) = put-inv vaddr hs put in
      subst (Inv src vaddr n memory _) (some-injective _ _ h1) record {
        requests = write_request n ∷ vaddr ∷ [];
        answers = [];
        phase = moved (omega arith) refl eu refl refl en (sent 0 (omega arith));
        to_thread = holds;
        to_software = hr;
      }
  software-Inv s heard hs hr eu en h =
      let (mb, put, h1) = >>=-eq-some (mbox_put s.sw2hw vaddr) _ h in
      let (room, holds) = put-inv vaddr hs put in
      subst (Inv src vaddr n memory _) (some-injective _ _ h1) record {
        requests = vaddr ∷ [];
        answers = [];
        phase = moved (omega arith) refl eu refl refl en (told 0 (omega arith));
        to_thread = holds;
        to_software = hr;
      }
  software-Inv s (sent i le) hs hr eu en h =
      word-Inv (2 + i) i (write_request n ∷ vaddr ∷ words src 0 i) s
        (λ e.
          moved (omega arith) refl refl (ap (λ l. write_request n ∷ vaddr ∷ l) (one_more i)) refl
            refl (sent (i + 1) (less i n le e)))
        hs hr eu en h
  software-Inv s (told i le) hs hr eu en h =
      word-Inv (3 + i) i (vaddr ∷ words src 0 i) s
        (λ e.
          moved (omega arith) refl refl (ap (λ l. vaddr ∷ l) (one_more i)) refl refl
            (told (i + 1) (less i n le e)))
        hs hr eu en h
  software-Inv s (writes k count left e le) hs hr eu en h =
      word-Inv (4 + k + (k + count)) (k + count) (words src k count) s
        (λ d.
          moved (omega arith) (ap word (omega arith)) refl (words-snoc src k count) refl refl
            (writes k (suc count) left e (omega (arith, less (k + count) n le d))))
        hs hr eu en h
  software-Inv s acks hs hr eu en h =
      word-Inv (4 + n + n) n [] s (λ d. absurd (d refl)) hs hr eu en h
  software-Inv s acked hs hr eu en h = elim (word_step n s h) [
    | inl (e, x, mb, got, same) ↦
        let (rest, q, holds) = get-inv x hr got in
        subst (Inv src vaddr n memory _) same record {
          requests = [];
          answers = rest;
          phase = moved (omega arith) refl eu refl (sym (ap (drop 1) q)) en over;
          to_thread = hs;
          to_software = holds;
        }
    | inr (e, mb, put, same) ↦ absurd (e refl)
  ]
  software-Inv s over hs hr eu en h = cc
