-- ===== src/Webcam/Socket.antt =====
-- A stream socket as the calls `read` and `write` see it: what the peer sends, in the pieces in which
-- it arrives, and how much each write takes.
use reconos_v.Base.{ℕ, zero, suc, ◌+◌, ◌≤◌, ◌<◌, Option, none, some, List, [], ◌∷◌, ◌++◌}
use reconos_v.Base.{◌≡◌, refl, ap, length, take, drop, arith, length-take, append_assoc}
use reconos_v.Base.{take-append-drop, sym, ◌∙◌}
use mathlib.Core.List.{cons≢nil}

-- An event of the connection: a piece that arrives, or an error. After the last one the peer has
-- closed the connection.
pub data Event : Type 0 where
  arrives : (byte : ℕ) → List ℕ → Event
  fails : Event

-- A piece of which something is left is still to come.
abbrev pub later : List ℕ → List Event → List Event
later [] events = events
later (c ∷ cs) events = arrives c cs ∷ events

-- `read` of at most `n` bytes: the bytes, or `none` for -1, and what is still to come.
unfoldable pub sock_read : (n : ℕ) → List Event → Option (List ℕ) × List Event
sock_read n [] = (some [], [])
sock_read n (fails ∷ events) = (none, events)
sock_read zero (arrives b bs ∷ events) = (some [], arrives b bs ∷ events)
sock_read (suc n) (arrives b bs ∷ events) = (some (b ∷ take n bs), later (drop n bs) events)

-- All that the peer sends before it closes the connection.
abbrev pub stream : List Event → List ℕ
stream [] = []
stream (arrives b bs ∷ events) = (b ∷ bs) ++ stream events
stream (fails ∷ events) = stream events

-- No read of the connection fails.
abbrev pub IsClean : List Event → Type 0
IsClean [] = Unit
IsClean (arrives b bs ∷ events) = IsClean events
IsClean (fails ∷ events) = ⊥

-- Bytes stored in a buffer from an index on.
abbrev pub store : (index : ℕ) (bytes buf : List ℕ) → List ℕ
store index bytes buf = take index buf ++ (bytes ++ drop (index + length bytes) buf)

-- A read of at most `n` bytes, `n` not 0, of a connection whose reads do not fail.
pub record Got (n : ℕ) (events : List Event) : Type 0 where
  pub bytes : List ℕ
  pub rest : List Event
  pub result : sock_read n events ≡ (some bytes, rest)
  pub clean : IsClean rest
  pub split : stream events ≡ bytes ++ stream rest
  pub bound : length bytes ≤ n
  pub closed : bytes ≡ [] → stream events ≡ []

IsClean-later : (bs : List ℕ) (events : List Event) → IsClean events → IsClean (later bs events)
IsClean-later [] events clean = clean
IsClean-later (b ∷ bs) events clean = clean

stream-later : (bs : List ℕ) (events : List Event) → stream (later bs events) ≡ bs ++ stream events
stream-later [] events = refl
stream-later (b ∷ bs) events = refl

pub sock_read-Got : (n : ℕ) (events : List Event) → 0 < n → IsClean events → Got n events
unfolding sock_read
sock_read-Got n [] pos clean = record {
  bytes = [];
  rest = [];
  result = refl;
  clean = clean;
  split = refl;
  bound = omega arith;
  closed = λ e. refl;
}
sock_read-Got zero (arrives b bs ∷ events) pos clean = absurd (omega arith)
sock_read-Got n (fails ∷ events) pos clean = absurd clean
sock_read-Got (suc n) (arrives b bs ∷ events) pos clean = record {
  bytes = b ∷ take n bs;
  rest = later (drop n bs) events;
  result = refl;
  clean = IsClean-later (drop n bs) events clean;
  split =
      ap (λ l. b ∷ l)
        (ap (λ l. l ++ stream events) (sym (take-append-drop n bs))
          ∙ append_assoc (take n bs) (drop n bs) (stream events)
          ∙ ap (λ l. take n bs ++ l) (sym (stream-later (drop n bs) events)));
  bound = omega (arith, length-take n bs);
  closed = λ e. absurd (cons≢nil e);
}
