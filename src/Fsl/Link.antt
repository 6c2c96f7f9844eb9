-- ===== src/Fsl/Link.antt =====
-- What a read or a write of one word does on each branch of linux/libreconos/fsl.c.
use reconos_v.Base.{
  ℕ, ◌<◌, ◌≤◌, ◌≡◌, Option, none, some, List, [], ◌∷◌, ◌++◌, get_elem?, set, arith,
}
use reconos_v.Machine.{Host, Machine, ok, exited, fault, update}
use reconos_v.Fsl.{fsl_write, fsl_read, max_fsl_devices}

-- the link is one of the sixteen and has a descriptor
pub record IsOpen (n : ℕ) (fds : List (Option ℕ)) : Type 0 where
  pub in_range : n < max_fsl_devices
  pub fd : ℕ
  pub opened : get_elem? fds n ≡ some (some fd)

module _ {K : Type 0} (host : Host K) (n : ℕ) (m : Machine K) where
  pub fsl_write-ok :
      (value : ℕ)
      → IsOpen n m.fsl_fd
      → fsl_write host n value m ≡ ok tt (record m { tx = update m.tx n (m.tx n ++ (value ∷ [])) })
  unfolding fsl_write
  fsl_write-ok value o = ground arith

  pub fsl_read-ok :
      (w : ℕ) (ws : List ℕ)
      → IsOpen n m.fsl_fd
      → m.rx n ≡ w ∷ ws
      → fsl_read host n m ≡ ok w (record m { rx = update m.rx n ws })
  unfolding fsl_read
  fsl_read-ok w ws o e = ground arith

  -- A closed link is opened and keeps its descriptor; the word is then written.
  pub fsl_write-open :
      (value fd : ℕ)
      → n < max_fsl_devices
      → get_elem? m.fsl_fd n ≡ some none
      → host.open_fsl n ≡ some fd
      → fsl_write host n value m
        ≡ ok tt (record m {
          fsl_fd = set m.fsl_fd n (some fd);
          tx = update m.tx n (m.tx n ++ (value ∷ []));
        })
  unfolding fsl_write
  fsl_write-open value fd h e o = ground arith

  -- A link that cannot be opened ends the process, and nothing is written or read.
  pub fsl-exit :
      (value : ℕ)
      → n < max_fsl_devices
      → get_elem? m.fsl_fd n ≡ some none
      → host.open_fsl n ≡ none
      → (fsl_write host n value m ≡ exited 1 m) × (fsl_read host n m ≡ exited 1 m)
  unfolding fsl_write fsl_read
  fsl-exit value h e o = (ground arith, ground arith)

  -- A number that is no link, a negative one included, fails the assertions.
  pub fsl-fault :
      (value : ℕ)
      → max_fsl_devices ≤ n
      → (fsl_write host n value m ≡ fault m) × (fsl_read host n m ≡ fault m)
  unfolding fsl_write fsl_read
  fsl-fault value h = (ground arith, ground arith)
