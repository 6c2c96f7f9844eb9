-- ===== src/Delegate/Boxes.antt =====
-- A hardware thread's commands on message boxes.
use reconos_v.Base.{
  ℕ, ◌≡◌, ◌≢◌, Bool, true, Option, none, some, List, [], ◌∷◌, ◌++◌, arith, inl, inr, Option-cases,
}
use reconos_v.Kind
use reconos_v.Machine.{Host, Machine, Hwt, Resource, Run, ok, blocked}
use reconos_v.Mbox.{mbox_put, mbox_get}
use reconos_v.Mbox.Refine.{
  IsValid, contents, enqueue, dequeue, mbox_put_refines, mbox_put-IsValid, mbox_get_refines,
  mbox_get-IsValid,
}
use reconos_v.Fsl.{fsl_read, fsl_write}
use reconos_v.Fsl.Link.{IsOpen, fsl_read-ok}
use reconos_v.Rq.{box_put, box_get}
use reconos_v.Delegate.{cmd_mbox_get, cmd_mbox_put, dispatch, delegate_step}
use reconos_v.Delegate.Sync.{Names}

-- The round leaves a valid box that holds `q` at `ptr` and answers `word`; the other boxes stay.
pub record Changed {K : Type 0} (m : Machine K) (slot ptr : ℕ) (rest q : List ℕ) (word : ℕ)
    (u : Machine K) : Type 0 where
  pub told : u.tx slot ≡ m.tx slot ++ (word ∷ [])
  pub left : u.rx slot ≡ rest
  pub valid : IsValid (u.boxes ptr)
  pub holds : contents (u.boxes ptr) ≡ q
  pub others : (k : ℕ) → k ≢ ptr → u.boxes k ≡ m.boxes k

-- the outcome of `MBOX_PUT`, by what the queue says
abbrev pub Appended :
    {K : Type 0}
    → Machine K
    → (slot ptr : ℕ) (rest : List ℕ) → Option (List ℕ)
    → Run K Bool
    → Type 0
Appended m slot ptr rest none (blocked u) = (u.tx ≡ m.tx) × (u.boxes ≡ m.boxes)
Appended m slot ptr rest (some q) (ok more u) = (more ≡ true) × Changed m slot ptr rest q 0 u
Appended m slot ptr rest q r = ⊥

abbrev pub Removed :
    {K : Type 0}
    → Machine K
    → (slot ptr : ℕ) (rest : List ℕ) → Option (ℕ × List ℕ)
    → Run K Bool
    → Type 0
Removed m slot ptr rest none (blocked u) = (u.tx ≡ m.tx) × (u.boxes ≡ m.boxes)
Removed m slot ptr rest (some (x, q)) (ok more u) = (more ≡ true) × Changed m slot ptr rest q x u
Removed m slot ptr rest q r = ⊥

module _ {K : Type 0} (host : Host K) (hwt : Hwt) (m : Machine K) (o : IsOpen hwt.slot m.fsl_fd)
    (h : ℕ) (rest : List ℕ) (r : Resource) (n : Names hwt h r Kind.mbox)
    (v : IsValid (m.boxes r.ptr)) where
  -- `MBOX_PUT` of a word on a valid box appends it and answers 0, or waits with no answer if the
  -- box is full.
  pub mbox_put_command :
      (word : ℕ)
      → m.rx hwt.slot ≡ 0xF1 ∷ h ∷ word ∷ rest
      → Appended m hwt.slot r.ptr rest
          (enqueue (m.boxes r.ptr).size (contents (m.boxes r.ptr)) word)
          (delegate_step host hwt m)
  unfolding delegate_step dispatch cmd_mbox_put box_put fsl_read fsl_write
  mbox_put_command word e =
      rw (fsl_read-ok host hwt.slot m 0xF1 (h ∷ word ∷ rest) o e, ← mbox_put_refines v word)
        (elim (Option-cases (mbox_put (m.boxes r.ptr) word)) [
          | inl p ↦ ground arith
          | inr (mb, p) ↦ ground (arith, mbox_put-IsValid v word p)
        ])

  -- `MBOX_GET` on a valid box takes its oldest word and answers it, or waits with no answer if the
  -- box is empty.
  pub mbox_get_command :
      m.rx hwt.slot ≡ 0xF0 ∷ h ∷ rest
      → Removed m hwt.slot r.ptr rest
          (dequeue (contents (m.boxes r.ptr)))
          (delegate_step host hwt m)
  unfolding delegate_step dispatch cmd_mbox_get box_get fsl_read fsl_write
  mbox_get_command e =
      rw (fsl_read-ok host hwt.slot m 0xF0 (h ∷ rest) o e, ← mbox_get_refines v)
        (elim (Option-cases (mbox_get (m.boxes r.ptr))) [
          | inl p ↦ ground arith
          | inr ((x, mb), p) ↦ ground (arith, mbox_get-IsValid v p)
        ])
