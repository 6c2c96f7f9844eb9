-- ===== src/Pvr.antt =====
-- linux/readpvr/readpvr.c: the fields of the processor version registers. Bits are counted from the
-- highest, bit 0, to the lowest, bit 31.
pub mod Fields
use Prim.Native.String.{String}
use text.Mathlib.Text as Text
use reconos_v.Base.{ℕ, ◌+◌, ◌*◌, ◌-◌, ◌/◌, ◌%◌, ◌^◌, List, [], ◌∷◌, Bool, true, false}
use reconos_v.Base.{get_elem?, if◌then◌else◌, Option, some}
use reconos_v.Base.Maybe.{◌>>=◌}

pub record Field : Type 0 where
  pub name : String
  pub reg : ℕ
  pub msb : ℕ
  pub lsb : ℕ

abbrev row : String × ℕ × ℕ × ℕ → Field
row (name, reg, msb, lsb) = record { name = name; reg = reg; msb = msb; lsb = lsb }

abbrev rows : List (String × ℕ × ℕ × ℕ) → List Field
rows [] = []
rows (r ∷ rs) = row r ∷ rows rs

-- The table, without the entry that ends it.
unfoldable pub fields : List Field
fields = rows (
    ("CFG", 0, 0, 0)
    ∷ ("BS", 0, 1, 1)
    ∷ ("DIV", 0, 2, 2)
    ∷ ("MUL", 0, 3, 3)
    ∷ ("FPU", 0, 4, 4)
    ∷ ("EXC", 0, 5, 5)
    ∷ ("ICU", 0, 6, 6)
    ∷ ("DCU", 0, 7, 7)
    ∷ ("MMU", 0, 8, 8)
    ∷ ("BTC", 0, 9, 9)
    ∷ ("ENDI", 0, 10, 10)
    ∷ ("FT", 0, 11, 11)
    ∷ ("MBV", 0, 16, 23)
    ∷ ("USR1", 0, 24, 31)
    ∷ ("USR2", 1, 0, 31)
    ∷ ("DAXI", 2, 0, 0)
    ∷ ("DLMB", 2, 1, 1)
    ∷ ("IAXI", 2, 2, 2)
    ∷ ("ILMB", 2, 3, 3)
    ∷ ("IRQEDGE", 2, 4, 4)
    ∷ ("IRQPOS", 2, 5, 5)
    ∷ ("DPLB", 2, 6, 6)
    ∷ ("IPLB", 2, 7, 7)
    ∷ ("INTERCON", 2, 8, 8)
    ∷ ("STREAM", 2, 9, 9)
    ∷ ("FSL", 2, 12, 12)
    ∷ ("FSLEXC", 2, 13, 13)
    ∷ ("MSR", 2, 14, 14)
    ∷ ("PCMP", 2, 15, 15)
    ∷ ("AREA", 2, 16, 16)
    ∷ ("BS", 2, 17, 17)
    ∷ ("DIV", 2, 18, 18)
    ∷ ("MUL", 2, 19, 19)
    ∷ ("FPU", 2, 20, 20)
    ∷ ("MUL64", 2, 21, 21)
    ∷ ("FPU2", 2, 22, 22)
    ∷ ("IPLBEXC", 2, 23, 23)
    ∷ ("DPLBEXC", 2, 24, 24)
    ∷ ("OP0EXC", 2, 25, 25)
    ∷ ("UNEXC", 2, 26, 26)
    ∷ ("OPEXC", 2, 27, 27)
    ∷ ("AXIIEXC", 2, 28, 28)
    ∷ ("AXIDEXC", 2, 29, 29)
    ∷ ("DIVEXC", 2, 30, 30)
    ∷ ("FPUEXC", 2, 31, 31)
    ∷ ("DEBUG", 3, 0, 0)
    ∷ ("PCBRK", 3, 3, 6)
    ∷ ("RDADDR", 3, 10, 12)
    ∷ ("WRADDR", 3, 16, 18)
    ∷ ("NUMFSL", 3, 20, 24)
    ∷ ("BTC_SIZE", 3, 29, 31)
    ∷ ("ICU", 4, 0, 0)
    ∷ ("ICTS", 4, 1, 5)
    ∷ ("ICW", 4, 7, 7)
    ∷ ("ICLL", 4, 8, 10)
    ∷ ("ICBS", 4, 11, 15)
    ∷ ("IAU", 4, 16, 16)
    ∷ ("ICI", 4, 18, 18)
    ∷ ("ICV", 4, 19, 21)
    ∷ ("ICS", 4, 22, 23)
    ∷ ("IFTL", 4, 24, 24)
    ∷ ("ICDW", 4, 25, 25)
    ∷ ("DCU", 5, 0, 0)
    ∷ ("DCTS", 5, 1, 5)
    ∷ ("DCW", 5, 7, 7)
    ∷ ("DCLL", 5, 8, 10)
    ∷ ("DCBS", 5, 11, 15)
    ∷ ("DAU", 5, 16, 16)
    ∷ ("DWB", 5, 17, 17)
    ∷ ("DCI", 5, 18, 18)
    ∷ ("DCV", 5, 19, 21)
    ∷ ("DFTL", 5, 24, 24)
    ∷ ("DCDW", 5, 25, 25)
    ∷ ("ICBA", 6, 0, 31)
    ∷ ("ICHA", 7, 0, 31)
    ∷ ("DCBA", 8, 0, 31)
    ∷ ("DCHA", 9, 0, 31)
    ∷ ("ARCH", 10, 0, 7)
    ∷ ("MMU", 11, 0, 1)
    ∷ ("ITLB", 11, 2, 4)
    ∷ ("DTLB", 11, 5, 7)
    ∷ ("TLBACC", 11, 8, 9)
    ∷ ("ZONES", 11, 10, 14)
    ∷ ("RSTMSR", 11, 17, 31)
    ∷ [])

-- The three shifts of a register.
unfoldable pub shift_out : (msb lsb r : ℕ) → ℕ
shift_out msb lsb r = r * 2 ^ msb % 2 ^ 32 / 2 ^ msb / 2 ^ (31 - lsb)

-- The loop of `main` over the table: what it prints for a name, with `pvr` the sixteen registers. `none`
-- is an entry of that name whose register is outside `pvr`.
unfoldable pub lookup_loop : List Field → (pvr : List ℕ) → String → Option (List ℕ)
lookup_loop [] pvr wanted = some []
lookup_loop (f ∷ fs) pvr wanted =
    let rest = lookup_loop fs pvr wanted in
    let found =
      get_elem? pvr f.reg >>= λ r. (rest >>= λ values. some (shift_out f.msb f.lsb r ∷ values)) in
    if Text.◌==◌ wanted f.name then found else rest

unfoldable pub read_field : (pvr : List ℕ) → String → Option (List ℕ)
read_field pvr wanted = lookup_loop fields pvr wanted
