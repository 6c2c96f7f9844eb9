-- ===== src/Kind.antt =====
-- The resource types RECONOS_TYPE_MBOX to RECONOS_TYPE_RQ of linux/libreconos/reconos.h.
use reconos_v.Base.{ℕ}

abbrev pub mbox : ℕ
mbox = 0x01

abbrev pub sem : ℕ
sem = 0x02

abbrev pub mutex : ℕ
mutex = 0x04

abbrev pub cond : ℕ
cond = 0x08

abbrev pub rq : ℕ
rq = 0x10
