-- ===== src/TcpServerSocket.antt =====
-- Network/src/TcpServerSocket.cpp: the older server of the devices (`TcpServerSocket`) and the one
-- of the interface beside it (`TcpInterfaceSocket`), each with its listening socket and a vector of
-- the descriptors that it has accepted. The two classes have the same text for what is an operation
-- of `Endpoint` here. The calls of the operating system are kept, newest first, and `SocketEnv`
-- says what each returns.
pub mod Threads
pub mod Slots
pub mod Closing
pub mod Process
pub mod Image
mod Tests
use network_structure.Prelude.{ℕ, Bool, List, [], ◌∷◌, if◌then◌else◌, ◌==◌}
use network_structure.Prelude.Int.{ℤ, pos, minus_one, eq_ℤ, is_positive, is_negative, ltb_ℤ}
use network_structure.FdManager.{FdManager, new, insert, delete, find, clear_all, get_total_count}

-- `shuts fd how`, where 0, 1 and 2 are SHUT_RD, SHUT_WR and SHUT_RDWR.
pub data SocketCall : Type 0 where
  makes_socket waits : SocketCall
  sets_options binds listens accepts closes reads : ℤ → SocketCall
  adds_event deletes_event : ℤ → SocketCall
  shuts : ℤ → ℕ → SocketCall
  sends : ℤ → List ℕ → SocketCall

pub data ReadOutcome : Type 0 where
  read_bytes : List ℕ → ReadOutcome
  read_end read_reset read_error : ReadOutcome

-- The events of one descriptor that epoll_wait(2) returns.
pub record Ready : Type 0 where
  pub fd : ℤ
  pub epollin : Bool
  pub epollout : Bool

pub record SocketEnv : Type 0 where
  pub socket_result : List SocketCall → ℤ
  pub accept_result : List SocketCall → ℤ
  pub send_fails : List SocketCall → Bool
  pub read_outcome : List SocketCall → ReadOutcome
  pub ready : List SocketCall → List Ready

-- `fds` is `pDevFdVec_` and `pIfcFdVec_`.
pub record Endpoint : Type 0 where
  pub socket_fd : ℤ
  pub conn_fd : ℤ
  pub max_connections : ℤ
  pub fds : FdManager

pub record Net : Type 0 where
  pub endpoint : Endpoint
  pub calls : List SocketCall

abbrev pub on_endpoint : (Endpoint → Endpoint) → Net → Net
on_endpoint f n = record n { endpoint = f n.endpoint }

abbrev pub does : SocketCall → Net → Net
does c n = record n { calls = c ∷ n.calls }

-- The constructors of both classes, with `cSocket`'s, whose descriptor is -1.
unfoldable pub new_endpoint : ℤ → Endpoint
new_endpoint num = record {
  socket_fd = minus_one;
  conn_fd = minus_one;
  max_connections = num;
  fds = new num;
}

-- `Open`
unfoldable pub open_socket : SocketEnv → Net → Net
open_socket env n =
    if is_negative n.endpoint.socket_fd
    then on_endpoint (λ e. record e { socket_fd = env.socket_result (makes_socket ∷ n.calls) })
        (does makes_socket n)
    else n

-- `Close()`
unfoldable pub close_socket : Net → Net
close_socket n =
    let fd = n.endpoint.socket_fd in
    if is_positive fd
    then on_endpoint (λ e. record e { socket_fd = minus_one })
        (does (closes fd) (does (shuts fd 2) n))
    else n

-- `TcpServerSocket::Shutdown(int mode)`; every other mode is 2.
abbrev pub shut_mode : ℕ → ℕ
shut_mode mode = if mode == 0 then 0 else (if mode == 1 then 1 else 2)

unfoldable pub shutdown_socket : ℕ → Net → Net
shutdown_socket mode n =
    if is_positive n.endpoint.socket_fd
    then does (shuts n.endpoint.socket_fd (shut_mode mode)) n
    else n

-- `TcpServerSocket::Shutdown(int fd, int mode)`
unfoldable pub shutdown_fd : ℤ → ℕ → Net → Net
shutdown_fd fd mode n = does (shuts fd (shut_mode mode)) n

-- `Close(int fd)`
unfoldable pub close_fd : ℤ → Net → Net
close_fd fd n =
    if is_positive fd
    then on_endpoint (λ e. record e { fds = (delete e.fds fd).0 })
        (does (closes fd) (does (shuts fd 2) n))
    else n

-- `CheckConnections`
unfoldable pub check_connections : Endpoint → ℤ
check_connections e =
    if ltb_ℤ (pos (get_total_count e.fds)) e.max_connections then pos 1 else minus_one

-- `CheckFd`: what it returns, and the vector after it.
unfoldable pub check_fd : ℤ → Endpoint → Endpoint × ℤ
check_fd fd e =
    if is_positive (find e.fds fd)
    then (record e { fds = (delete e.fds fd).0 }, pos 1)
    else (e, minus_one)

-- What `Accept` does with a new descriptor.
unfoldable pub take_fd : ℤ → Net → Net
take_fd fd n =
    if is_positive (check_connections n.endpoint)
    then on_endpoint (λ e. record e { conn_fd = fd; fds = (insert e.fds fd).0 }) n
    else on_endpoint (λ e. record e { conn_fd = minus_one }) (close_fd fd n)

-- `Accept`, which returns the `connFd` that it leaves.
unfoldable pub accept_fd : SocketEnv → Net → Net
accept_fd env n =
    let n1 = does (accepts n.endpoint.socket_fd) n in
    let fd = env.accept_result n1.calls in
    if eq_ℤ fd minus_one
    then on_endpoint (λ e. record e { conn_fd = minus_one }) n1
    else take_fd fd n1

-- The loop of `CloseAllConnections`.
unfoldable pub close_each : List ℤ → List SocketCall → List SocketCall
close_each [] cs = cs
close_each (fd ∷ fds) cs = close_each fds (closes fd ∷ shuts fd 2 ∷ cs)

unfoldable pub close_all_connections : Net → Net
close_all_connections n = record {
  endpoint = record (n.endpoint) { fds = clear_all n.endpoint.fds };
  calls = close_each n.endpoint.fds.fd_vec n.calls;
}

-- The loop of `TcpInterfaceSocket::SendDataAll`, and whether it went through.
unfoldable pub send_each : SocketEnv → List ℕ → List ℤ → List SocketCall → List SocketCall × ℤ
send_each env bytes [] cs = (cs, pos 0)
send_each env bytes (fd ∷ fds) cs =
    let rest = send_each env bytes fds (sends fd bytes ∷ cs) in
    if env.send_fails (sends fd bytes ∷ cs) then (sends fd bytes ∷ cs, minus_one) else rest

unfoldable pub send_data_all : SocketEnv → List ℕ → Net → Net × ℤ
send_data_all env bytes n =
    let (cs, r) = send_each env bytes n.endpoint.fds.fd_vec n.calls in (record n { calls = cs }, r)
