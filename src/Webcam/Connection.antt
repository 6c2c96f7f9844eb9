-- ===== src/Webcam/Connection.antt =====
-- demos/webcam/gui/src/tcp_connection.c: what the functions that open and close connections do to the
-- process's open sockets and allocated blocks. The calls' results are arguments.
use reconos_v.Base.{ℕ, ◌+◌, ◌-◌, Bool, true, false, ◌≡◌, arith}
use reconos_v.Base.{if◌then◌else◌, ◌&&◌}

-- The results of the calls: whether `malloc` returns a block, and whether the other calls do not fail.
pub record Calls : Type 0 where
  pub malloc_ok : Bool
  pub socket_ok : Bool
  pub bind_ok : Bool
  pub accept_ok : Bool
  pub host_found : Bool
  pub connect_ok : Bool

-- How many sockets are open and how many blocks are allocated
pub record Resources : Type 0 where
  pub sockets : ℕ
  pub blocks : ℕ

abbrev pub alloc : Resources → Resources
alloc w = record w { blocks = w.blocks + 1 }

abbrev pub free : Resources → Resources
free w = record w { blocks = w.blocks - 1 }

abbrev pub open_socket : Resources → Resources
open_socket w = record w { sockets = w.sockets + 1 }

abbrev pub close_socket : Resources → Resources
close_socket w = record w { sockets = w.sockets - 1 }

abbrev pub one_if : Bool → ℕ
one_if b = if b then 1 else 0

-- A creation returns `true` for a pointer and `false` for NULL.
unfoldable pub tcp_server_create : Calls → Resources → Bool × Resources
tcp_server_create c w =
    let w1 = alloc w in
    let w2 = open_socket w1 in
    if c.malloc_ok
    then (if c.socket_ok
        then (if c.bind_ok then (true, w2) else (false, free w2))
        else (false, free w1))
    else (false, w)

unfoldable pub tcp_accept : Calls → Resources → Bool × Resources
tcp_accept c w =
    let w1 = alloc w in
    if c.malloc_ok
    then (if c.accept_ok then (true, open_socket w1) else (false, free w1))
    else (false, w)

unfoldable pub tcp_connection_create : Calls → Resources → Bool × Resources
tcp_connection_create c w =
    let w1 = alloc w in
    let w2 = open_socket w1 in
    let connected = if c.connect_ok then (true, w2) else (false, free w2) in
    if c.malloc_ok
    then (if c.socket_ok
        then (if c.host_found then connected else (false, free w2))
        else (false, free w1))
    else (false, w)

unfoldable pub tcp_connection_destroy : Resources → Resources
tcp_connection_destroy w = free (close_socket w)

unfoldable pub tcp_server_destroy : Resources → Resources
tcp_server_destroy w = free (close_socket w)

-- demos/webcam/linux/ethernet.c: the result is the accepted socket, and `false` is -1.
unfoldable pub accept_connection : Calls → Resources → Bool × Resources
accept_connection c w =
    let w1 = open_socket w in
    if c.socket_ok
    then (if c.bind_ok
        then (if c.accept_ok then (true, open_socket w1) else (false, w1))
        else (false, w1))
    else (false, w)

-- A server, an accepted connection or a connection that was created and is destroyed leaves the
-- sockets and the blocks as they were.
pub created_then_destroyed :
    (c : Calls) (w w' : Resources)
    → (tcp_server_create c w ≡ (true, w') → tcp_server_destroy w' ≡ w)
      × (tcp_accept c w ≡ (true, w') → tcp_connection_destroy w' ≡ w)
      × (tcp_connection_create c w ≡ (true, w') → tcp_connection_destroy w' ≡ w)
unfolding tcp_server_create tcp_accept tcp_connection_create tcp_connection_destroy
    tcp_server_destroy
created_then_destroyed c w w' = (λ h. ground arith, λ h. ground arith, λ h. ground arith)

-- The block of a creation is accounted for: it is allocated just when a pointer is returned. The socket
-- is not: `tcp_server_create` and `tcp_connection_create` leave one open whenever `socket` succeeded,
-- also when they return NULL, and `accept_connection` leaves its listening socket open in any case.
pub creation_accounts :
    (c : Calls) (w : Resources)
    → let server = tcp_server_create c w in
      let accepted = tcp_accept c w in
      let connection = tcp_connection_create c w in
      let listening = accept_connection c w in
      (server.1.blocks ≡ w.blocks + one_if server.0)
      × (server.1.sockets ≡ w.sockets + one_if (c.malloc_ok && c.socket_ok))
      × (accepted.1.blocks ≡ w.blocks + one_if accepted.0)
      × (accepted.1.sockets ≡ w.sockets + one_if accepted.0)
      × (connection.1.blocks ≡ w.blocks + one_if connection.0)
      × (connection.1.sockets ≡ w.sockets + one_if (c.malloc_ok && c.socket_ok))
      × (listening.1.sockets ≡ w.sockets + one_if c.socket_ok + one_if listening.0)
unfolding tcp_server_create tcp_accept tcp_connection_create accept_connection
creation_accounts c w = (
  ground arith,
  ground arith,
  ground arith,
  ground arith,
  ground arith,
  ground arith,
  ground arith,
)
