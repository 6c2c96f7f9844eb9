-- ===== src/Sort/Threads/Invariant.antt =====
-- What holds of `main` and the sort threads between their steps.
use reconos_v.Base.{ℕ, zero, suc, ◌+◌, ◌*◌, ◌%◌, ◌^◌, ◌≤◌, ◌<◌, some, List, [], ◌∷◌, ◌++◌}
use reconos_v.Base.{
  ◌≡◌, refl, ◌∙◌, sym, ap, length, arith, take, drop, get_elem?, replicate, append_assoc,
}
use reconos_v.Base.{Bool, true, false, if◌then◌else◌, ◌==◌}
use reconos_v.Mbox.Holds.{Holds}
use reconos_v.Sort.Demo.{block_size, uint_max}
use reconos_v.Sort.Merge.Blocks.{join}
use reconos_v.Sort.Threads.{Main, putting, awaiting, ending, System, one_of}
use reconos_v.Sort.Threads.Tracks.{Tracks}
use mathlib.Core.Option.{some-injective}

-- The blocks' addresses from the `i`th on.
abbrev pub addresses : (address left i : ℕ) → List ℕ
addresses address zero i = []
addresses address (suc left) i =
    ((address + i * block_size) % 2 ^ 32) ∷ addresses address left (i + 1)

-- What the threads answer.
abbrev pub answers : ℕ → List ℕ
answers j = replicate j 23

pub answers-snoc : (j : ℕ) → answers j ++ (23 ∷ []) ≡ answers (suc j)
answers-snoc zero = refl
answers-snoc (suc j) = ap (λ l. 23 ∷ l) (answers-snoc j)

abbrev pub address_of : (address i : ℕ) → ℕ
address_of address i = (address + i * block_size) % 2 ^ 32

abbrev pub addresses_of : (address : ℕ) → List ℕ → List ℕ
addresses_of address [] = []
addresses_of address (i ∷ held) = address_of address i ∷ addresses_of address held

-- How many puts, waits and exit commands `main` has behind it, and its turns from one loop to the next.
abbrev pub Placed : (blocks threads : ℕ) → Main → (put got sent turns : ℕ) → Type 0
Placed blocks threads (putting i) put got sent turns =
    (put ≡ i) × (i ≤ blocks) × (got ≡ 0) × (sent ≡ 0) × (turns ≡ 0)
Placed blocks threads (awaiting k) put got sent turns =
    (put ≡ blocks) × (got ≡ k) × (k ≤ blocks) × (sent ≡ 0) × (turns ≡ 1)
Placed blocks threads (ending e) put got sent turns =
    (put ≡ blocks) × (got ≡ blocks) × (sent ≡ e) × (e ≤ threads) × (turns ≡ 2)

-- After `made` steps from blocks `old`.
pub record Inv (threads : ℕ) (old : List (List ℕ)) (made : ℕ) (s : System) : Type 0 where
  pub put : ℕ
  pub got : ℕ
  pub sent : ℕ
  pub turns : ℕ
  pub placed : Placed (length old) threads s.place put got sent turns
  pub taken : ℕ
  pub queued : ℕ
  pub exits : ℕ
  pub jobs : taken + queued ≡ put
  pub commands : s.ended + exits ≡ sent
  pub starts :
      Holds (length old) (addresses s.address queued taken ++ replicate exits uint_max) s.mb_start
  pub held : List ℕ
  pub new : List (List ℕ)
  pub sorted : ℕ
  pub tracks : Tracks taken 0 held old new sorted
  pub buffer : s.buffer ≡ join new
  pub sorting : s.sorting ≡ addresses_of s.address held
  pub unread : ℕ
  pub stops : Holds (length old) (answers unread) s.mb_stop
  pub answered : sorted ≡ got + unread + s.answering
  pub crew : s.waiting + length held + s.answering + s.ended ≡ threads
  pub mapped : s.address + length old * block_size < 2 ^ 32
  pub progress : made ≡ put + taken + sorted + (got + unread) + got + sent + s.ended + turns

pub addresses-snoc :
    (address q t : ℕ)
    → addresses address q t ++ (address_of address (t + q) ∷ []) ≡ addresses address (suc q) t
addresses-snoc address zero t = ap (λ n. address_of address n ∷ []) (omega arith)
addresses-snoc address (suc q) t =
    ap (λ l. address_of address t ∷ l)
      (ap (λ n. addresses address q (t + 1) ++ (address_of address n ∷ [])) (omega arith)
        ∙ addresses-snoc address q (t + 1))

pub replicate-snoc : (n x : ℕ) → replicate n x ++ (x ∷ []) ≡ replicate (suc n) x
replicate-snoc zero x = refl
replicate-snoc (suc n) x = ap (λ l. x ∷ l) (replicate-snoc n x)

pub addresses_of-snoc :
    (address : ℕ) (held : List ℕ) (i : ℕ)
    → addresses_of address held ++ (address_of address i ∷ [])
      ≡ addresses_of address (held ++ (i ∷ []))
addresses_of-snoc address [] i = refl
addresses_of-snoc address (h ∷ held) i =
    ap (λ l. address_of address h ∷ l) (addresses_of-snoc address held i)

-- The block whose address stands at a place, and the list without it.
pub record Picked (address : ℕ) (held : List ℕ) (j ret : ℕ) : Type 0 where
  pub before : List ℕ
  pub block : ℕ
  pub after : List ℕ
  pub parts : held ≡ before ++ (block ∷ after)
  pub found : ret ≡ address_of address block
  pub others :
      take j (addresses_of address held) ++ drop (suc j) (addresses_of address held)
      ≡ addresses_of address (before ++ after)

pub get_elem?-Picked :
    (address : ℕ) (held : List ℕ) (j : ℕ) {ret : ℕ}
    → get_elem? (addresses_of address held) j ≡ some ret
    → Picked address held j ret
get_elem?-Picked address [] j h = cc
get_elem?-Picked address (i ∷ held) zero h = record {
  before = [];
  block = i;
  after = held;
  parts = refl;
  found = sym (some-injective _ _ h);
  others = refl;
}
get_elem?-Picked address (i ∷ held) (suc j) h =
    let p = get_elem?-Picked address held j h in
    record {
      before = i ∷ p.before;
      block = p.block;
      after = p.after;
      parts = ap (λ l. i ∷ l) p.parts;
      found = p.found;
      others = ap (λ l. address_of address i ∷ l) p.others;
    }

pub join-append : (xs ys : List (List ℕ)) → join (xs ++ ys) ≡ join xs ++ join ys
join-append [] ys = refl
join-append (x ∷ xs) ys =
    ap (λ l. x ++ l) (join-append xs ys) ∙ sym (append_assoc x (join xs) (join ys))

pub if_true : {b : Bool} (x y z : System) → b ≡ true → some (if b then x else y) ≡ some z → x ≡ z
if_true {b = true} x y z e h = some-injective _ _ h
if_true {b = false} x y z e h = cc

pub if_false : {b : Bool} (x y z : System) → b ≡ false → some (if b then x else y) ≡ some z → y ≡ z
if_false {b = true} x y z e h = cc
if_false {b = false} x y z e h = some-injective _ _ h

pub one_of-some : (n : ℕ) {m : ℕ} → one_of n ≡ some m → n ≡ suc m
one_of-some zero h = cc
one_of-some (suc n) h = ap suc (some-injective _ _ h)

pub ==-same : (a b : ℕ) → a ≡ b → (a == b) ≡ true
==-same a b e = ground arith

pub ==-below : (a b : ℕ) → a < b → (a == b) ≡ false
==-below a b h = ground arith
