-- ===== src/Driver/Transfer.antt =====
-- How many words a write or a non-blocking read transfers.
use reconos_v.Base.{
  ℕ, zero, suc, ◌+◌, ◌*◌, ◌-◌, ◌/◌, ◌%◌, ◌≤◌, ◌<◌, ◌≡◌, refl, Bool, some, List, [], ◌∷◌, ◌++◌,
}
use reconos_v.Base.{
  length, take, drop, arith, get_elem?, get_elem?-eq-get_or, get_or, drop_of_lt, sym, ap, ◌∙◌,
  append-nil, length-append, append_assoc,
}
use Prim.Native.Nat.{min}
use native.Mathlib.Nat.{zero-add}
use native.Mathlib.Decide.{dec_lt}
use reconos_v.Machine.{update, update_self}
use reconos_v.Driver.{
  Fifos, Dev, Reader, bytes, fsl_max, nputfsl, ngetfsl, write_words, fsl_write, read_words,
}

-- The loop of a write stores words while the FIFO has room.
write_words-ok :
    (n i id : ℕ) (buf : List ℕ) (f : Fifos)
    → id < fsl_max
    → n + i ≤ length buf
    → (k : ℕ) × (g : Fifos) × (write_words n i id buf f ≡ (bytes (4 * (i + k)), g))
      × (k ≡ min n (f.depth - length (f.master id)))
      × (g.master id ≡ f.master id ++ take k (drop i buf))
      × (g.slave ≡ f.slave)
unfolding write_words nputfsl
write_words-ok zero i id buf f lt le =
    (0, f, ground arith, omega arith, sym (append-nil (f.master id)), refl)
write_words-ok (suc n) i id buf f lt le = elim (dec_lt (length (f.master id)) f.depth) [
  | yes room ↦
      let v = get_or buf i 0 in
      let here : get_elem? buf i ≡ some v = get_elem?-eq-get_or buf i 0 (omega arith) in
      let u = record f { master = update f.master id (f.master id ++ (v ∷ [])) } in
      let mid : u.master id ≡ f.master id ++ (v ∷ []) =
        update_self f.master id (f.master id ++ (v ∷ [])) in
      let (k, g, run, most, out, same) = write_words-ok n (suc i) id buf u lt (omega arith) in
      (
        suc k,
        g,
        ground (arith, here, run),
        omega (arith, most, ap length mid, length-append (f.master id) (v ∷ [])),
        out
            ∙ rw (mid, drop_of_lt i buf 0 (omega arith))
                (append_assoc (f.master id) (v ∷ []) (take k (drop (suc i) buf))),
        same,
      )
  | no full ↦
      let here : get_elem? buf i ≡ some (get_or buf i 0) =
        get_elem?-eq-get_or buf i 0 (omega arith) in
      (0, f, ground (arith, here), omega arith, sym (append-nil (f.master id)), refl)
]

fsl_write-whole :
    (dev : Dev) (buf : List ℕ) (count : ℕ) (f : Fifos)
    → count % 4 ≡ 0
    → fsl_write dev buf count f ≡ write_words (count / 4) 0 dev.fsl_num buf f
unfolding fsl_write
fsl_write-whole dev buf count f whole = rw whole

-- A write of whole words from memory that can be read stores as many of them, from the first on and
-- in order, as the FIFO has room for, and returns how many bytes that is: a short write if it is full.
pub fsl_write_lem :
    (dev : Dev) (buf : List ℕ) (count : ℕ) (f : Fifos)
    → dev.fsl_num < fsl_max
    → count % 4 ≡ 0
    → count / 4 ≤ length buf
    → let k = min (count / 4) (f.depth - length (f.master dev.fsl_num)) in
      (g : Fifos) × (fsl_write dev buf count f ≡ (bytes (4 * k), g))
      × (g.master dev.fsl_num ≡ f.master dev.fsl_num ++ take k buf)
      × (g.slave ≡ f.slave)
fsl_write_lem dev buf count f lt whole le =
    let (k, g, run, most, out, same) =
      write_words-ok (count / 4) 0 dev.fsl_num buf f lt (omega arith) in
    let e : 0 + k ≡ min (count / 4) (f.depth - length (f.master dev.fsl_num)) =
      omega (arith, most) in
    (
      g,
      fsl_write-whole dev buf count f whole ∙ run ∙ ap (λ j. (bytes (4 * j), g)) e,
      out ∙ ap (λ j. f.master dev.fsl_num ++ take j buf) most,
      same,
    )

module _ (room count : ℕ) (nonblock : Bool) where
  -- The words that wait in the FIFO are copied in order.
  pub read_words-prefix :
      (xs ys : List ℕ) (left : ℕ) (r : Reader)
      → r.dev.fsl_num < fsl_max
      → r.fifos.slave r.dev.fsl_num ≡ xs ++ ys
      → length r.copied + length xs ≤ room
      → (g : Fifos) × (read_words (length xs + left) room count nonblock r
          ≡ read_words left room count nonblock (record r { fifos = g; copied = r.copied ++ xs }))
        × (g.slave r.dev.fsl_num ≡ ys)
        × (g.master ≡ r.fifos.master)
  unfolding read_words ngetfsl
  read_words-prefix [] ys left r lt e le = (
    r.fifos,
    rw (zero-add left) (
        ap (λ c. read_words left room count nonblock (record r { copied = c }))
          (sym (append-nil r.copied))),
    e,
    refl,
  )
  read_words-prefix (x ∷ xs) ys left r lt e le =
      let f = record r.fifos { slave = update r.fifos.slave r.dev.fsl_num (xs ++ ys) } in
      let u = record r { fifos = f; copied = r.copied ++ (x ∷ []) } in
      let (g, run, rest, same) =
        read_words-prefix xs ys left u lt (update_self r.fifos.slave r.dev.fsl_num (xs ++ ys))
          (omega (arith, length-append r.copied (x ∷ []))) in
      let e1 : length (x ∷ xs) + left ≡ suc (length xs + left) = omega arith in
      (
        g,
        rw e1 (ground (arith, run))
            ∙ ap (λ c. read_words left room count nonblock (record r { fifos = g; copied = c }))
                (append_assoc r.copied (x ∷ []) xs),
        rest,
        same,
      )
