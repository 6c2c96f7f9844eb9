-- ===== src/Webcam/Digits.antt =====
-- `itoa` of demos/webcam/gui/src/receiveSendVideo.c. `tmp_buf` has six cells; it is the list of what
-- has been stored, the last first, with the number of cells that are left. `none` is a write behind it.
use reconos_v.Base.{
  ℕ, zero, suc, ◌+◌, ◌*◌, ◌-◌, ◌/◌, ◌%◌, ◌^◌, ◌≤◌, ◌<◌, Option, none, some, Bool, true,
}
use reconos_v.Base.{
  List, [], ◌∷◌, ◌≡◌, refl, ◌∙◌, ap, length, arith, if◌then◌else◌, ◌==◌, false, Bool-cases,
}
use reconos_v.Base.{inl, inr}
use reconos_v.Base.Maybe.{◌>>=◌}
use native.Mathlib.Nat.{pow-suc}

-- The `for` loop over the digits, and the '0' of a number without digits.
unfoldable pub digits_loop : (room val : ℕ) (tmp_buf : List ℕ) → Option (ℕ × List ℕ)
digits_loop zero val tmp_buf = if val == 0 then some (0, tmp_buf) else none
digits_loop (suc room) val tmp_buf =
    let rest = digits_loop room (val / 10) ((val % 10 + 48) ∷ tmp_buf) in
    if val == 0 then some (suc room, tmp_buf) else rest

unfoldable pub zero_digit : ℕ × List ℕ → Option (ℕ × List ℕ)
zero_digit (room, c ∷ tmp_buf) = some (room, c ∷ tmp_buf)
zero_digit (zero, []) = none
zero_digit (suc room, []) = some (room, 48 ∷ [])

-- The loop that fills up to `pad`, `left` cells from its end.
unfoldable pub pad_loop : (left room c : ℕ) (tmp_buf : List ℕ) → Option (List ℕ)
pad_loop zero room c tmp_buf = some tmp_buf
pad_loop (suc left) zero c tmp_buf = none
pad_loop (suc left) (suc room) c tmp_buf = pad_loop left room c (c ∷ tmp_buf)

-- What is in front of the null character in `buf`.
unfoldable pub itoa : (val pad mode : ℕ) → Option (List ℕ)
itoa val pad mode = do
  digits ← digits_loop 6 val []
  (room, tmp_buf) ← zero_digit digits
  pad_loop (pad - length tmp_buf) room (if mode == 1 then 48 else 32) tmp_buf

-- The number that a text of digits behind spaces stands for, behind one that was read before it.
abbrev pub digit : ℕ → ℕ
digit c = if c == 32 then 0 else c - 48

abbrev pub number : List ℕ → ℕ → ℕ
number [] n = n
number (c ∷ text) n = number text (n * 10 + digit c)

digit-of : (d : ℕ) → digit (d + 48) ≡ d
digit-of d = ground arith

shorter : (room val : ℕ) → val < 10 ^ suc room → val / 10 < 10 ^ room
shorter room val h = omega (arith, pow-suc 10 room)

as_long : (room val : ℕ) → 10 ^ suc room ≤ val → 10 ^ room ≤ val / 10
as_long room val h = omega (arith, pow-suc 10 room)

pow-pos : (n : ℕ) → 0 < 10 ^ n
pow-pos zero = omega arith
pow-pos (suc n) = omega (arith, pow-suc 10 n, pow-pos n)

is_zero : (n : ℕ) → n < 1 → (n == 0) ≡ true
is_zero n h = ground arith

not_zero : (n : ℕ) → 0 < n → (n == 0) ≡ false
not_zero n h = ground arith

-- The digits of a number that fits, stored in front of what was there.
record Stored (room val : ℕ) (tmp_buf : List ℕ) (r : Option (ℕ × List ℕ)) : Type 0 where
  pub left : ℕ
  pub text : List ℕ
  pub result : r ≡ some (left, text)
  pub reads : number text 0 ≡ number tmp_buf val
  pub cells : left + length text ≡ room + length tmp_buf

digits_loop-Stored :
    (room val : ℕ) (tmp_buf : List ℕ)
    → val < 10 ^ room
    → Stored room val tmp_buf (digits_loop room val tmp_buf)
unfolding digits_loop
digits_loop-Stored zero val tmp_buf h = record {
  left = 0;
  text = tmp_buf;
  result = rw (is_zero val h) refl;
  reads = ap (number tmp_buf) (omega arith);
  cells = refl;
}
digits_loop-Stored (suc room) val tmp_buf h = elim (Bool-cases (val == 0)) [
  | inl e ↦ record {
    left = suc room;
    text = tmp_buf;
    result = rw e refl;
    reads = ap (number tmp_buf) (ground arith);
    cells = refl;
  }
  | inr e ↦
      let s = digits_loop-Stored room (val / 10) ((val % 10 + 48) ∷ tmp_buf) (shorter room val h) in
      record {
        left = s.left;
        text = s.text;
        result = rw e s.result;
        reads =
            s.reads
            ∙ ap (λ d. number tmp_buf (val / 10 * 10 + d)) (digit-of (val % 10))
            ∙ ap (number tmp_buf) (omega arith);
        cells = omega (arith, s.cells);
      }
]

digits_loop-overrun :
    (room val : ℕ) (tmp_buf : List ℕ) → 10 ^ room ≤ val → digits_loop room val tmp_buf ≡ none
unfolding digits_loop
digits_loop-overrun zero val tmp_buf h = rw (not_zero val h) refl
digits_loop-overrun (suc room) val tmp_buf h =
    rw (not_zero val (omega (arith, pow-pos (suc room))))
      (digits_loop-overrun room (val / 10) ((val % 10 + 48) ∷ tmp_buf) (as_long room val h))

pad_loop-reads :
    (left room c : ℕ) (tmp_buf : List ℕ)
    → left ≤ room
    → digit c ≡ 0
    → (text : List ℕ) × (pad_loop left room c tmp_buf ≡ some text)
      × (number text 0 ≡ number tmp_buf 0)
      × (length text ≡ left + length tmp_buf)
unfolding pad_loop
pad_loop-reads zero room c tmp_buf h e = (tmp_buf, refl, refl, omega arith)
pad_loop-reads (suc left) zero c tmp_buf h e = absurd (omega arith)
pad_loop-reads (suc left) (suc room) c tmp_buf h e =
    let (text, result, reads, long) = pad_loop-reads left room c (c ∷ tmp_buf) (omega arith) e in
    (text, result, reads ∙ ap (λ d. number tmp_buf d) (ground (arith, e)), omega (arith, long))

zero_digit-Stored :
    {val : ℕ} (s : Stored 6 val [] (digits_loop 6 val []))
    → Stored 6 val [] (zero_digit (s.left, s.text))
unfolding zero_digit
zero_digit-Stored s = at s.left s.text s.reads s.cells
  where
    at :
        {val : ℕ} (left : ℕ) (text : List ℕ)
        → number text 0 ≡ val
        → left + length text ≡ 6 + 0
        → Stored 6 val [] (zero_digit (left, text))
    at left (c ∷ text) reads cells = record {
      left = left;
      text = c ∷ text;
      result = refl;
      reads = reads;
      cells = cells;
    }
    at zero [] reads cells = absurd (omega arith)
    at (suc left) [] reads cells = record {
      left = left;
      text = 48 ∷ [];
      result = refl;
      reads = reads;
      cells = omega arith;
    }

-- A number below a million, with a `pad` of at most six, is written as its decimal digits, filled up
-- with spaces or zeros to at least `pad` and at most six characters.
pub itoa_lem :
    (val pad mode : ℕ)
    → val < 10 ^ 6
    → pad ≤ 6
    → (text : List ℕ) × (itoa val pad mode ≡ some text)
      × (number text 0 ≡ val)
      × (pad ≤ length text)
      × (length text ≤ 6)
unfolding itoa
itoa_lem val pad mode h h' =
    let s = digits_loop-Stored 6 val [] h in
    let z = zero_digit-Stored s in
    let (text, result, reads, long) =
      pad_loop-reads (pad - length z.text) z.left (if mode == 1 then 48 else 32) z.text
        (omega (arith, z.cells)) (blank (mode == 1)) in
    (
      text,
      rw (s.result, z.result) result,
      reads ∙ z.reads,
      omega (arith, z.cells),
      omega (arith, z.cells),
    )
  where
    blank : (b : Bool) → digit (if b then 48 else 32) ≡ 0
    blank true = refl
    blank false = refl

-- From a million on, `itoa` writes behind its buffer.
pub itoa-overrun : (val pad mode : ℕ) → 10 ^ 6 ≤ val → itoa val pad mode ≡ none
unfolding itoa
itoa-overrun val pad mode h = rw (digits_loop-overrun 6 val [] h) refl
