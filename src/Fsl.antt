-- ===== src/Fsl.antt =====
-- The links to the hardware as a process sees them, linux/libreconos/fsl.c.
pub mod Link
use reconos_v.Base.{ℕ, ◌+◌, ◌^◌, ◌≡◌, ◌<◌, refl, Option, none, some, List, [], ◌∷◌, ◌++◌, ◌&&◌}
use reconos_v.Base.{ltb, if◌then◌else◌, get_elem?, set, arith}
use reconos_v.Machine.{Host, Machine, Cmd, Run, ok, blocked, exited, fault, pure, exit}
use reconos_v.Machine.{◌>>=◌, ◌>>◌, update, and_then}

abbrev pub max_fsl_devices : ℕ
max_fsl_devices = 16

module _ {K : Type 0} (host : Host K) where
  -- A failed `open` leaves the process; the table then holds -1, as before.
  pub fsl_open : ℕ → Cmd K (Unit {0})
  fsl_open n m = elim (host.open_fsl n) [
    | none ↦ exited 1 m
    | some fd ↦ ok tt (record m { fsl_fd = set m.fsl_fd n (some fd) })
  ]

  -- the assertions, and `if(fsl_fd[n] == -1) fsl_open(n)`
  pub ready : ℕ → Cmd K (Unit {0})
  ready n m =
      if ltb n (2 ^ 31) && ltb n max_fsl_devices
      then elim (get_elem? m.fsl_fd n) [
        | none ↦ fault m
        | some none ↦ fsl_open n m
        | some (some fd) ↦ ok tt m
      ]
      else fault m

  -- `write` of one word. The link is taken to have room.
  abbrev pub send : ℕ → ℕ → Cmd K (Unit {0})
  send n value m = ok tt (record m { tx = update m.tx n (m.tx n ++ (value ∷ [])) })

  -- `read` of one word waits until the hardware has sent one.
  abbrev pub receive : List ℕ → ℕ → Cmd K ℕ
  receive [] n m = blocked m
  receive (w ∷ ws) n m = ok w (record m { rx = update m.rx n ws })

  unfoldable pub fsl_write : ℕ → ℕ → Cmd K (Unit {0})
  unfolding ready fsl_open
  fsl_write n value = ready n >> send n value

  unfoldable pub fsl_read : ℕ → Cmd K ℕ
  unfolding ready fsl_open
  fsl_read n = ready n >> λ m. receive (m.rx n) n m
