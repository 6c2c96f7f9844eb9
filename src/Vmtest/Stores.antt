-- ===== src/Vmtest/Stores.antt =====
-- Every step of the hardware thread that serves `hwt_write` leads from one phase to the next.
use reconos_v.Base.{ℕ, zero, suc, ◌+◌, ◌*◌, ◌-◌, ◌/◌, ◌%◌, ◌^◌, ◌≤◌, ◌<◌, some, List, [], ◌∷◌}
use reconos_v.Base.{
  ◌≡◌, refl, ◌∙◌, sym, ap, length, arith, inl, inr, false, if◌then◌else◌, ◌==◌, if-cases, set, drop,
}
use reconos_v.Base.Maybe.{>>=-eq-some}
use reconos_v.Mbox.{mbox_put, mbox_get}
use reconos_v.Mbox.Holds.{Holds, put-inv, get-inv}
use reconos_v.Vmtest.{
  Place, word, State, get_addr, mbox_get_word, ack, Vm, write_step, thread_step, Side, software,
  hardware, step, run,
}
use reconos_v.Vmtest.Phases.{words, opposite, nonzero, first, get_none}
use reconos_v.Vmtest.Written.{
  written, write_request, Phase, before, asked, heard, sent, told, writes, acks, acked, over, Inv,
  moved,
}
use reconos_v.Vmtest.Writes.{software-Inv}
use mathlib.Core.Path.{subst}
use mathlib.Core.Option.{some-injective}

module _ (src : List ℕ) (vaddr n : ℕ) (memory : List ℕ) (some_word : 0 < n)
    (fits : n < 2 ^ 22) where
  -- What the request says to the thread
  request-writes : (write_request n / 2 ^ 24 == 0) ≡ false
  request-writes = ground arith

  request-words : write_request n / 4 % 2 ^ 22 ≡ n
  request-words = ground arith

  next_word :
      (k count left : ℕ)
      → k + suc left ≡ n
      → k + suc count ≤ n
      → Phase src vaddr n memory
          (5 + k + (k + suc count))
          (word (k + suc count))
          (if left == 0 then ack (vaddr / 4) else mbox_get_word (vaddr / 4) (k + 1) left)
          (words src (k + 1) count)
          []
          (written memory (vaddr / 4) src (suc k))
  next_word k count zero e le =
      moved (omega arith) (ap word (omega arith)) refl (nothing count (omega arith)) refl
        (ap (written memory (vaddr / 4) src) {x = suc k} {y = n} (omega arith)) acks
    where
      nothing : (count : ℕ) → count ≡ 0 → words src (k + 1) count ≡ []
      nothing count e = ap (words src (k + 1)) e
  next_word k count (suc left) e le =
      moved (omega arith) (ap word (omega arith))
        (rw (nonzero left)
          (ap (λ i. mbox_get_word (vaddr / 4) i (suc left)) {x = k + 1} {y = suc k} (omega arith)))
        (ap (λ i. words src i count) {x = k + 1} {y = suc k} (omega arith)) refl refl
        (writes (suc k) count left (omega arith) (omega arith))

  hardware-Inv :
      {m : ℕ} {p : Place} {u : State} {q r now : List ℕ} (s : Vm) {s' : Vm}
      → Phase src vaddr n memory m p u q r now
      → Holds 3 q s.sw2hw
      → Holds 3 r s.hw2sw
      → s.place ≡ p
      → s.memory ≡ now
      → thread_step u s ≡ some s'
      → Inv src vaddr n memory (m + 1) s'
  unfolding thread_step
  hardware-Inv s before hs hr ep en h =
      let ((x, mb), got, h1) = >>=-eq-some (mbox_get s.sw2hw) _ h in absurd (get_none x hs got)
  hardware-Inv s asked hs hr ep en h =
      let ((x, mb), got, h1) = >>=-eq-some (mbox_get s.sw2hw) _ h in
      let (rest, e, holds) = get-inv x hs got in
      subst (Inv src vaddr n memory _) (some-injective _ _ h1) record {
        requests = rest;
        answers = [];
        phase = moved (omega arith) ep (ap get_addr (first e)) (ap (drop 1) (sym e)) refl en heard;
        to_thread = holds;
        to_software = hr;
      }
  hardware-Inv s heard hs hr ep en h =
      let ((x, mb), got, h1) = >>=-eq-some (mbox_get s.sw2hw) _ h in absurd (get_none x hs got)
  hardware-Inv s (sent i le) hs hr ep en h =
      let ((x, mb), got, h1) = >>=-eq-some (mbox_get s.sw2hw) _ h in
      let (rest, e, holds) = get-inv x hs got in
      subst (Inv src vaddr n memory _) (some-injective _ _ h1) record {
        requests = rest;
        answers = [];
        phase =
            moved (omega arith) ep (ap get_addr (first e)) (ap (drop 1) (sym e)) refl en
              (told i le);
        to_thread = holds;
        to_software = hr;
      }
  hardware-Inv s (told i le) hs hr ep en h =
      let ((x, mb), got, h1) = >>=-eq-some (mbox_get s.sw2hw) _ h in
      let (rest, e, holds) = get-inv x hs got in
      elim (if-cases (write_request n / 2 ^ 24 == 0) (some-injective _ _ h1)) [
        | inl (b, same) ↦ absurd (opposite request-writes b)
        | inr (b, same) ↦ subst (Inv src vaddr n memory _) same record {
          requests = rest;
          answers = [];
          phase =
              moved (omega arith) (ep ∙ ap word (omega arith))
                (ap (λ a. mbox_get_word (a / 4) 0 (write_request n / 4 % 2 ^ 22)) (first e)
                  ∙ ap (mbox_get_word (vaddr / 4) 0) (request-words ∙ pred n some_word))
                (ap (drop 1) (sym e)) refl en (writes 0 i (n - 1) (omega arith) (omega arith));
          to_thread = holds;
          to_software = hr;
        }
      ]
    where
      pred : (n : ℕ) → 0 < n → n ≡ suc (n - 1)
      pred n h = omega arith
  hardware-Inv s (writes k zero left e le) hs hr ep en h =
      let ((x, mb), got, h1) = >>=-eq-some (mbox_get s.sw2hw) _ h in absurd (get_none x hs got)
  hardware-Inv s (writes k (suc count) left e le) hs hr ep en h =
      let ((x, mb), got, h1) = >>=-eq-some (mbox_get s.sw2hw) _ h in
      let (rest, q, holds) = get-inv x hs got in
      subst (Inv src vaddr n memory _) (some-injective _ _ h1) record {
        requests = rest;
        answers = [];
        phase =
            moved (omega arith) ep refl (ap (drop 1) (sym q)) refl
              (ap (λ m. set m (vaddr / 4 + k) x) en
                ∙ ap (set (written memory (vaddr / 4) src k) (vaddr / 4 + k)) (first q))
              (next_word k count left e le);
        to_thread = holds;
        to_software = hr;
      }
  hardware-Inv s acks hs hr ep en h =
      let (mb, put, h1) = >>=-eq-some (mbox_put s.hw2sw (vaddr / 4 * 4)) _ h in
      let (room, holds) = put-inv (vaddr / 4 * 4) hr put in
      subst (Inv src vaddr n memory _) (some-injective _ _ h1) record {
        requests = [];
        answers = (vaddr / 4 * 4) ∷ [];
        phase = moved (omega arith) ep refl refl refl en acked;
        to_thread = hs;
        to_software = holds;
      }
  hardware-Inv s acked hs hr ep en h =
      let ((x, mb), got, h1) = >>=-eq-some (mbox_get s.sw2hw) _ h in absurd (get_none x hs got)
  hardware-Inv s over hs hr ep en h =
      let ((x, mb), got, h1) = >>=-eq-some (mbox_get s.sw2hw) _ h in absurd (get_none x hs got)

  step-Inv :
      (side : Side) {m : ℕ} {s s' : Vm}
      → Inv src vaddr n memory m s
      → step (write_step src vaddr n) side s ≡ some s'
      → Inv src vaddr n memory (m + 1) s'
  unfolding step
  step-Inv software {s = s} v h =
      software-Inv src vaddr n memory s v.phase v.to_thread v.to_software refl refl h
  step-Inv hardware {s = s} v h = hardware-Inv s v.phase v.to_thread v.to_software refl refl h

  pub run-Inv :
      (sides : List Side) (m : ℕ) {s s' : Vm}
      → Inv src vaddr n memory m s
      → run (write_step src vaddr n) sides s ≡ some s'
      → Inv src vaddr n memory (m + length sides) s'
  unfolding run
  run-Inv [] m {s} v h =
      subst (Inv src vaddr n memory _) (some-injective _ _ h)
        (subst (λ k. Inv src vaddr n memory k s) {x = m} {y = m + 0} (omega arith) v)
  run-Inv (side ∷ sides) m {s} {s'} v h =
      let (next, one, h1) = >>=-eq-some (step (write_step src vaddr n) side s) _ h in
      subst (λ k. Inv src vaddr n memory k s') {x = m + 1 + length sides}
        {y = m + suc (length sides)} (omega arith) (run-Inv sides (m + 1) (step-Inv side v one) h1)
