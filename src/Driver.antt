-- ===== src/Driver.antt =====
-- The kernel driver of the links, linux/fsl_driver/fsl.c: words go to and come from the sixteen
-- FIFOs of the processor.
pub mod Transfer
pub mod Blocking
pub mod Devices
use reconos_v.Base.{
  ℕ, zero, suc, ◌+◌, ◌*◌, ◌/◌, ◌%◌, ◌^◌, Bool, true, false, Option, none, some, List, [], ◌∷◌, ◌++◌,
}
use reconos_v.Base.{◌==◌, ltb, not, if◌then◌else◌, length, get_elem?}
use reconos_v.Machine.{update}

abbrev pub fsl_max : ℕ
fsl_max = 16

-- `slave n` holds the words that the hardware has sent, `master n` those that it has not taken yet,
-- both oldest first; a master FIFO has room for `depth` words.
pub record Fifos : Type 0 where
  pub slave : ℕ → List ℕ
  pub master : ℕ → List ℕ
  pub depth : ℕ

-- `struct fsl_dev`: the interrupt number is `none` for -1. The offsets are not used.
pub record Dev : Type 0 where
  pub fsl_num : ℕ
  pub irq : Option ℕ
  pub irq_enabled : Bool
  pub irq_count : ℕ

-- 0, and the word is in the FIFO; 1 if that is full; 2 for a number that is no link
unfoldable pub nputfsl : ℕ → ℕ → Fifos → ℕ × Fifos
nputfsl id val f =
    if ltb id fsl_max
    then (if ltb (length (f.master id)) f.depth
        then (0, record f { master = update f.master id (f.master id ++ (val ∷ [])) })
        else (1, f))
    else (2, f)

abbrev pub get_word : List ℕ → ℕ → Fifos → ℕ × ℕ × Fifos
get_word [] id f = (1, 0, f)
get_word (w ∷ ws) id f = (0, w, record f { slave = update f.slave id ws })

-- 0, a word and the FIFO without it; 1 if there is none; 2 for a number that is no link
unfoldable pub ngetfsl : ℕ → Fifos → ℕ × ℕ × Fifos
ngetfsl id f = if ltb id fsl_max then get_word (f.slave id) id f else (2, 0, f)

-- what a call gives to the process: a number of bytes, or a negated error number
pub data Outcome : Type 0 where
  bytes error : ℕ → Outcome

abbrev pub einval : ℕ
einval = 22

abbrev pub efault : ℕ
efault = 14

abbrev pub erestartsys : ℕ
erestartsys = 512

abbrev pub enotty : ℕ
enotty = 25

-- The loop of `fsl_write` from word `i` on, for `n` words more. `buf` is the part of the process's
-- memory that can be read; a word behind it is a fault.
unfoldable pub write_words : (n i id : ℕ) → List ℕ → Fifos → Outcome × Fifos
unfolding nputfsl
write_words zero i id buf f = (bytes (4 * i), f)
write_words (suc n) i id buf f = elim (get_elem? buf i) [
  | none ↦ (error efault, f)
  | some val ↦
      let (invalid, g) = nputfsl id val f in
      let rest = write_words n (suc i) id buf g in if invalid == 0 then rest else (bytes (4 * i), g)
]

unfoldable pub fsl_write : Dev → (buf : List ℕ) (count : ℕ) → Fifos → Outcome × Fifos
unfolding write_words
fsl_write dev buf count f =
    if count % 4 == 0 then write_words (count / 4) 0 dev.fsl_num buf f else (error einval, f)

-- A read that has not returned sleeps on the queue of the device until it is woken.
pub data Read : Type 0 where
  returned : Outcome → Read
  sleeping : (left : ℕ) → Read

-- the state of a read: the device, the FIFOs and the words that were copied to the process
pub record Reader : Type 0 where
  pub dev : Dev
  pub fifos : Fifos
  pub copied : List ℕ

-- `if(invalid)`: a read without a word returns what it has, or enables the interrupt and sleeps.
abbrev pub no_data : (nonblock : Bool) (left : ℕ) → Reader → Read × Reader
no_data nonblock left r =
    let cleared = record r.dev { irq_count = 0 } in
    if nonblock
    then (returned (bytes (4 * length r.copied)), record r { dev = cleared })
    else (sleeping left, record r { dev = record cleared { irq_enabled = true } })

-- The loop of `fsl_read` for `left` words more. `room` is how many words the process's buffer can
-- take; a word behind it is a fault, and has left the FIFO.
unfoldable pub read_words : (left room count : ℕ) (nonblock : Bool) → Reader → Read × Reader
unfolding ngetfsl
read_words zero room count nonblock r = (returned (bytes count), r)
read_words (suc left) room count nonblock r =
    let (invalid, word, g) = ngetfsl r.dev.fsl_num r.fifos in
    let rest =
      read_words left room count nonblock
        (record r { fifos = g; copied = r.copied ++ (word ∷ []) }) in
    if invalid == 0
    then (if ltb (length r.copied) room
        then rest
        else (returned (error efault), record r { fifos = g }))
    else no_data nonblock (suc left) r

unfoldable pub fsl_read : (room count : ℕ) (nonblock : Bool) → Reader → Read × Reader
unfolding read_words
fsl_read room count nonblock r =
    if count % 4 == 0
    then read_words (count / 4) room count nonblock r
    else (returned (error einval), r)

-- A sleeping read goes on once the count of interrupts is positive; a signal ends it.
unfoldable pub wake : (left room count : ℕ) (signal : Bool) → Reader → Read × Reader
wake left room count signal r =
    if signal
    then (returned (error erestartsys), r)
    else (if ltb 0 r.dev.irq_count then read_words left room count false r else (sleeping left, r))

-- The interrupt handler; the count is an `unsigned short`.
unfoldable pub fsl_interrupt : Dev → Dev
fsl_interrupt dev = record dev { irq_count = (dev.irq_count + 1) % 2 ^ 16; irq_enabled = false }

pub data Ioctl : Type 0 where
  ioc_write : ℕ → Ioctl
  ioc_read other : Ioctl

-- A word that is not there is read as 0, and a word that does not fit is dropped.
unfoldable pub fsl_ioctl : Dev → Ioctl → Fifos → Outcome × Fifos
fsl_ioctl dev (ioc_write arg) f = (bytes 0, (nputfsl dev.fsl_num arg f).1)
fsl_ioctl dev ioc_read f = let (invalid, word, g) = ngetfsl dev.fsl_num f in (bytes word, g)
fsl_ioctl dev other f = (error enotty, f)
