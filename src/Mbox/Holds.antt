-- ===== src/Mbox/Holds.antt =====
-- A valid box with the messages that it holds: how a client of the box sees its calls.
use reconos_v.Base.{ℕ, ◌<◌, ◌≡◌, refl, ◌∙◌, ap, some, List, [], ◌∷◌, ◌++◌, length, arith}
use reconos_v.Base.{
  lt→ltb, ltb, ltb→lt, Bool, true, false, Bool-cases, inl, inr, Option, none, sym, if◌then◌else◌,
}
use mathlib.Core.Option.{some-injective}
use mathlib.Core.Path.{ap₂}
use reconos_v.Mbox.{Mbox, mbox_put, mbox_get}
use reconos_v.Mbox.Refine.{
  IsValid, contents, enqueue, dequeue, put_seen, get_seen, mbox_put_refines, mbox_get_refines,
  mbox_put-IsValid, mbox_get-IsValid, seen_put, seen_get,
}

pub record Holds (size : ℕ) (messages : List ℕ) (mb : Mbox) : Type 0 where
  pub valid : IsValid mb
  pub sized : mb.size ≡ size
  pub holds : contents mb ≡ messages

mbox_put-size : (mb : Mbox) {mb' : Mbox} (x : ℕ) → mbox_put mb x ≡ some mb' → mb'.size ≡ mb.size
unfolding mbox_put
mbox_put-size mb x h = ground arith

mbox_get-size : (mb : Mbox) {mb' : Mbox} {x : ℕ} → mbox_get mb ≡ some (x, mb') → mb'.size ≡ mb.size
unfolding mbox_get
mbox_get-size mb h = ground arith

module _ {size : ℕ} {messages : List ℕ} {mb : Mbox} where
  -- With room, a put returns and appends its message.
  pub put-Holds :
      (x : ℕ)
      → Holds size messages mb
      → length messages < size
      → (mb' : Mbox) × (mbox_put mb x ≡ some mb') × Holds size (messages ++ (x ∷ [])) mb'
  unfolding enqueue
  put-Holds x h room =
      let fits : enqueue size messages x ≡ some (messages ++ (x ∷ [])) =
        rw (lt→ltb (length messages) size room) refl in
      let (mb', put, holds) =
        put_seen (mbox_put mb x)
          (mbox_put_refines h.valid x ∙ ap₂ (λ n q. enqueue n q x) h.sized h.holds ∙ fits) in
      (
        mb',
        put,
        record {
          valid = mbox_put-IsValid h.valid x put;
          sized = mbox_put-size mb x put ∙ h.sized;
          holds = holds;
        },
      )

  -- A get returns the oldest message.
  pub get-Holds :
      {x : ℕ}
      → Holds size (x ∷ messages) mb
      → (mb' : Mbox) × (mbox_get mb ≡ some (x, mb')) × Holds size messages mb'
  unfolding dequeue
  get-Holds h =
      let (mb', got, holds) =
        get_seen (mbox_get mb) (mbox_get_refines h.valid ∙ ap dequeue h.holds) in
      (
        mb',
        got,
        record {
          valid = mbox_get-IsValid h.valid got;
          sized = mbox_get-size mb got ∙ h.sized;
          holds = holds;
        },
      )

enqueue-inv :
    (size : ℕ) (q : List ℕ) (x : ℕ) {q' : List ℕ}
    → enqueue size q x ≡ some q'
    → (length q < size) × (q' ≡ q ++ (x ∷ []))
unfolding enqueue
enqueue-inv size q x h = elim (Bool-cases (ltb (length q) size)) [
  | inl e ↦ (ltb→lt _ _ e, sym (some-injective _ _ (fits e h)))
  | inr e ↦ absurd (full (q ++ (x ∷ [])) e h)
]
  where
    fits :
        {b : Bool} {m q' : List ℕ}
        → b ≡ true
        → (if b then some m else none) ≡ some q'
        → Path (Option (List ℕ)) (some m) (some q')
    fits e h = ground arith

    full :
        {b : Bool} (m : List ℕ) {q' : List ℕ}
        → b ≡ false
        → (if b then some m else none) ≡ some q'
        → ⊥
    full m e h = ground arith

dequeue-inv : (q : List ℕ) {q' : List ℕ} {x : ℕ} → dequeue q ≡ some (x, q') → q ≡ x ∷ q'
unfolding dequeue
dequeue-inv [] h = cc
dequeue-inv (y ∷ q) h = let e = some-injective _ _ h in λ i. (e i).0 ∷ (e i).1

module _ {size : ℕ} {messages : List ℕ} {mb mb' : Mbox} (x : ℕ) (h : Holds size messages mb) where
  -- A put that returned had room, and appended its message.
  pub put-inv :
      mbox_put mb x ≡ some mb' → (length messages < size) × Holds size (messages ++ (x ∷ [])) mb'
  put-inv put =
      let (room, appended) = enqueue-inv size messages x (
        sym (ap₂ (λ n q. enqueue n q x) h.sized h.holds)
        ∙ sym (mbox_put_refines h.valid x)
        ∙ ap seen_put put) in
      (
        room,
        record {
          valid = mbox_put-IsValid h.valid x put;
          sized = mbox_put-size mb x put ∙ h.sized;
          holds = appended;
        },
      )

  -- A get that returned took the oldest message.
  pub get-inv :
      mbox_get mb ≡ some (x, mb') → (rest : List ℕ) × (messages ≡ x ∷ rest) × Holds size rest mb'
  get-inv got = (
    contents mb',
    dequeue-inv messages
        (ap dequeue (sym h.holds) ∙ sym (mbox_get_refines h.valid) ∙ ap seen_get got),
    record {
      valid = mbox_get-IsValid h.valid got;
      sized = mbox_get-size mb got ∙ h.sized;
      holds = refl;
    },
  )
