-- ===== src/Sort/Threads/Tracks.antt =====
-- The blocks of the buffer while threads sort them.
use reconos_v.Base.{ℕ, suc, ◌+◌, ◌*◌, ◌≤◌, ◌<◌, List, [], ◌∷◌, ◌++◌, ◌≡◌, refl, ap, length, arith}
use reconos_v.Base.{length-append, get_or, drop}
use reconos_v.Sort.Sorted.{IsSorted}
use reconos_v.Sort.Merge.Blocks.{join, IsRuns}
use reconos_v.Sort.Demo.{block_words}
use reconos_v.Sort.Demo.Sorted.{IsCut}
use mathlib.Core.List.{Perm}
use mathlib.Core.List.Perm
use mathlib.Core.Path.{subst}

-- The blocks from the `i`th on, as they were and as they are. The first `taken` blocks have been taken;
-- `held` are those of them that a thread still has, in ascending order, and `n` have been sorted.
pub data Tracks (taken : ℕ)
    : (i : ℕ) (held : List ℕ) (old new : List (List ℕ)) (n : ℕ) → Type 0 where
  stop : {i : ℕ} → Tracks taken i [] [] [] 0
  fresh :
      {i : ℕ} {old new : List (List ℕ)} (x : List ℕ)
      → taken ≤ i
      → length x ≡ block_words
      → Tracks taken (i + 1) [] old new 0
      → Tracks taken i [] (x ∷ old) (x ∷ new) 0
  busy :
      {i : ℕ} {held : List ℕ} {old new : List (List ℕ)} {n : ℕ} (x : List ℕ)
      → i < taken
      → length x ≡ block_words
      → Tracks taken (i + 1) held old new n
      → Tracks taken i (i ∷ held) (x ∷ old) (x ∷ new) n
  ready :
      {i : ℕ} {held : List ℕ} {old new : List (List ℕ)} {n : ℕ} (x y : List ℕ)
      → i < taken
      → length y ≡ block_words
      → IsSorted y
      → Perm x y
      → Tracks taken (i + 1) held old new n
      → Tracks taken i held (x ∷ old) (y ∷ new) (suc n)

pub Tracks-start : (i : ℕ) (blocks : List (List ℕ)) → IsCut blocks → Tracks 0 i [] blocks blocks 0
Tracks-start i [] cut = stop
Tracks-start i (x ∷ blocks) (e, cut) = fresh x (omega arith) e (Tracks-start (i + 1) blocks cut)

-- What no thread has taken is not counted either way.
Tracks-later :
    {taken i : ℕ} {old new : List (List ℕ)} (taken' : ℕ)
    → taken' ≤ i
    → Tracks taken i [] old new 0
    → Tracks taken' i [] old new 0
Tracks-later taken' le stop = stop
Tracks-later taken' le (fresh x h e rest) = fresh x le e (Tracks-later taken' (omega arith) rest)

-- A thread takes the next block.
pub Tracks-take :
    {taken i n : ℕ} {held : List ℕ} {old new : List (List ℕ)}
    → Tracks taken i held old new n
    → i ≤ taken
    → taken < i + length old
    → Tracks (taken + 1) i (held ++ (taken ∷ [])) old new n
Tracks-take stop le lt = absurd (omega arith)
Tracks-take {taken} {i} (fresh {old = old} {new = new} x h e rest) le lt =
    let here : i ≡ taken = omega arith in
    subst (λ j. Tracks (taken + 1) i (j ∷ []) (x ∷ old) (x ∷ new) 0) here
      (busy x (omega arith) e (Tracks-later (taken + 1) (omega arith) rest))
Tracks-take (busy x h e rest) le lt =
    busy x (omega arith) e (Tracks-take rest (omega arith) (omega arith))
Tracks-take (ready x y h e s p rest) le lt =
    ready x y (omega arith) e s p (Tracks-take rest (omega arith) (omega arith))

-- Every block that was taken is with a thread or sorted.
pub Tracks-count :
    {taken i n : ℕ} {held : List ℕ} {old new : List (List ℕ)}
    → Tracks taken i held old new n
    → i ≤ taken
    → taken ≤ i + length old
    → i + n + length held ≡ taken
Tracks-count stop le le' = omega arith
Tracks-count (fresh x h e rest) le le' = omega arith
Tracks-count (busy x h e rest) le le' = omega (arith, Tracks-count rest (omega arith) (omega arith))
Tracks-count (ready x y h e s p rest) le le' =
    omega (arith, Tracks-count rest (omega arith) (omega arith))

pub Tracks-le :
    {taken i n : ℕ} {held : List ℕ} {old new : List (List ℕ)}
    → Tracks taken i held old new n
    → n ≤ length old
Tracks-le stop = omega arith
Tracks-le (fresh x h e rest) = omega arith
Tracks-le (busy x h e rest) = omega (arith, Tracks-le rest)
Tracks-le (ready x y h e s p rest) = omega (arith, Tracks-le rest)

pub Tracks-length :
    {taken i n : ℕ} {held : List ℕ} {old new : List (List ℕ)}
    → Tracks taken i held old new n
    → length new ≡ length old
Tracks-length stop = refl
Tracks-length (fresh x h e rest) = ap suc (Tracks-length rest)
Tracks-length (busy x h e rest) = ap suc (Tracks-length rest)
Tracks-length (ready x y h e s p rest) = ap suc (Tracks-length rest)

-- When as many are sorted as there are, all are.
pub Tracks-all :
    {taken i n : ℕ} {held : List ℕ} {old new : List (List ℕ)}
    → Tracks taken i held old new n
    → n ≡ length old
    → IsRuns block_words new × Perm (join old) (join new) × (length new ≡ length old)
Tracks-all stop full = (tt, Perm.rfl, refl)
Tracks-all (fresh x h e rest) full = absurd (omega arith)
Tracks-all (busy x h e rest) full = absurd (omega (arith, Tracks-le rest))
Tracks-all (ready x y h e s p rest) full =
    let (runs, same, long) = Tracks-all rest (omega arith) in
    ((e, s, runs), Perm.append p same, ap suc long)

-- The block that a thread has, and the blocks round it; its sort may put a permutation in its place.
pub record Held (taken i n j : ℕ) (before after : List ℕ) (old new : List (List ℕ)) : Type 0 where
  pub left : List (List ℕ)
  pub block : List ℕ
  pub right : List (List ℕ)
  pub parts : new ≡ left ++ (block ∷ right)
  pub index : j ≡ i + length left
  pub cut : length block ≡ block_words
  pub lefts : length (join left) ≡ length left * block_words
  pub sorts :
      (y : List ℕ)
      → length y ≡ block_words
      → IsSorted y
      → Perm block y
      → Tracks taken i (before ++ after) old (left ++ (y ∷ right)) (suc n)

nothing_held : (j : ℕ) (before after : List ℕ) → Path (List ℕ) [] (before ++ (j ∷ after)) → ⊥
nothing_held j before after e = omega (arith, ap length e, length-append before (j ∷ after))

head_of : {a b : ℕ} {xs ys : List ℕ} → Path (List ℕ) (a ∷ xs) (b ∷ ys) → a ≡ b
head_of e = ap (λ l. get_or l 0 0) e

tail_of : (a b : ℕ) {xs ys : List ℕ} → Path (List ℕ) (a ∷ xs) (b ∷ ys) → xs ≡ ys
tail_of a b e = ap (drop 1) e

on_left :
    (x l : List ℕ) (k : ℕ)
    → length x ≡ block_words
    → length l ≡ k * block_words
    → length (x ++ l) ≡ suc k * block_words
on_left x l k e h = omega (arith, length-append x l)

pub Tracks-Held :
    {taken i n : ℕ} {held : List ℕ} {old new : List (List ℕ)} (j : ℕ) (before after : List ℕ)
    → Tracks taken i held old new n
    → held ≡ before ++ (j ∷ after)
    → Held taken i n j before after old new
Tracks-Held j before after stop e = absurd (nothing_held j before after e)
Tracks-Held j before after (fresh x h e' rest) e = absurd (nothing_held j before after e)
Tracks-Held {taken} {i} j [] after (busy {old = old} {new = new} {n = n} x h e' rest) e = record {
  left = [];
  block = x;
  right = new;
  parts = refl;
  index = omega (arith, head_of e);
  cut = e';
  lefts = omega arith;
  sorts = λ y ly s p.
      subst (λ hs. Tracks taken i hs (x ∷ old) (y ∷ new) (suc n)) (tail_of i j e)
        (ready x y h ly s p rest);
}
Tracks-Held {taken} {i} j (b ∷ before) after (busy {old = old} {n = n} x h e' rest) e =
    let r = Tracks-Held j before after rest (tail_of i b e) in
    record {
      left = x ∷ r.left;
      block = r.block;
      right = r.right;
      parts = ap (λ l. x ∷ l) r.parts;
      index = omega (arith, r.index);
      cut = r.cut;
      lefts = on_left x (join r.left) (length r.left) e' r.lefts;
      sorts = λ y ly s p.
          subst
            (λ k.
              Tracks taken i (k ∷ (before ++ after)) (x ∷ old) (x ∷ (r.left ++ (y ∷ r.right)))
                (suc n))
            (head_of e) (busy x h e' (r.sorts y ly s p));
    }
Tracks-Held j before after (ready x z h e' s' p' rest) e =
    let r = Tracks-Held j before after rest e in
    record {
      left = z ∷ r.left;
      block = r.block;
      right = r.right;
      parts = ap (λ l. z ∷ l) r.parts;
      index = omega (arith, r.index);
      cut = r.cut;
      lefts = on_left z (join r.left) (length r.left) e' r.lefts;
      sorts = λ y ly s p. ready x z h e' s' p' (r.sorts y ly s p);
    }
