-- ===== src/TcpServerSocket/Threads.antt =====
-- The two threads of the server: `NoneConcurrentThread` and `ConcurrentThread`, each a loop over
-- the events of one epoll descriptor. What is read is not used by the code.
use network_structure.Prelude.{Bool, true, false, List, [], ◌∷◌, if◌then◌else◌}
use network_structure.Prelude.Int.{ℤ, minus_one, eq_ℤ, is_positive, is_negative}
use network_structure.TcpServerSocket.{
  SocketCall, waits, sets_options, binds, listens, closes, reads, adds_event, deletes_event, shuts,
  ReadOutcome, read_bytes, read_end, read_reset, read_error, Ready, SocketEnv, Endpoint, Net,
  on_endpoint, does, open_socket, close_socket, close_fd, check_fd, accept_fd,
  close_all_connections,
}

-- `Open`, `SetSocketOpt`, `Bind` and `Listen`.
abbrev pub set_up : SocketEnv → Net → Net
set_up env n =
    let n1 = open_socket env n in
    let fd = n1.endpoint.socket_fd in
    does (listens fd) (does (binds fd) (does (sets_options fd) n1))

-- A connection that is waiting to be accepted.
abbrev pub on_accept : SocketEnv → Net → Net
on_accept env n =
    let n1 = accept_fd env n in
    if is_negative n1.endpoint.conn_fd then n1 else does (adds_event n1.endpoint.conn_fd) n1

-- The result of the read of `NoneConcurrentThread`.
unfoldable pub none_concurrent_read : ReadOutcome → ℤ → Net → Net
none_concurrent_read read_reset fd n = does (deletes_event fd) (does (closes fd) n)
none_concurrent_read read_error fd n = n
none_concurrent_read read_end fd n =
    let n1 = does (deletes_event fd) n in
    let n2 = on_endpoint (λ e. (check_fd fd e).0) n1 in does (closes fd) (does (shuts fd 2) n2)
none_concurrent_read (read_bytes bytes) fd n = n

unfoldable pub none_concurrent_event : SocketEnv → Ready → Net → Net
none_concurrent_event env r n =
    if eq_ℤ r.fd n.endpoint.socket_fd
    then on_accept env n
    else (if r.epollin
        then none_concurrent_read (env.read_outcome (reads r.fd ∷ n.calls)) r.fd
            (does (reads r.fd) n)
        else n)

unfoldable pub none_concurrent_events : SocketEnv → List Ready → Net → Net
none_concurrent_events env [] n = n
none_concurrent_events env (r ∷ rs) n =
    none_concurrent_events env rs (none_concurrent_event env r n)

-- `running` is what `isThreadRunning` is at each test, which another thread writes; the thread ends
-- at the first false.
unfoldable pub none_concurrent_loop : SocketEnv → List Bool → Net → Net
none_concurrent_loop env [] n = n
none_concurrent_loop env (false ∷ bs) n = n
none_concurrent_loop env (true ∷ bs) n =
    none_concurrent_loop env bs
      (none_concurrent_events env (env.ready (waits ∷ n.calls)) (does waits n))

unfoldable pub none_concurrent_thread : SocketEnv → List Bool → Net → Net
none_concurrent_thread env running n =
    let n1 = set_up env n in
    let n2 = none_concurrent_loop env running (does (adds_event n1.endpoint.socket_fd) n1) in
    close_socket (close_all_connections (does (deletes_event n2.endpoint.socket_fd) n2))

-- `ConcurrentThread` has the device server and the interface server.
pub record Servers : Type 0 where
  pub device : Endpoint
  pub interface : Endpoint
  pub calls : List SocketCall

abbrev pub by_device : (Net → Net) → Servers → Servers
by_device f s =
    let n = f (record { endpoint = s.device; calls = s.calls }) in
    record s { device = n.endpoint; calls = n.calls }

abbrev pub by_interface : (Net → Net) → Servers → Servers
by_interface f s =
    let n = f (record { endpoint = s.interface; calls = s.calls }) in
    record s { interface = n.endpoint; calls = n.calls }

-- The end of a connection: it is a device's, or an interface's, or nobody's.
unfoldable pub concurrent_end : ℤ → Servers → Servers
concurrent_end fd s =
    if is_positive (check_fd fd s.device).1
    then by_device (λ n. does (closes fd) (does (shuts fd 2) n))
        (record s { device = (check_fd fd s.device).0 })
    else (if is_positive (check_fd fd s.interface).1
        then by_interface (λ n. close_fd fd (does (shuts fd 2) n))
            (record s { interface = (check_fd fd s.interface).0 })
        else s)

unfoldable pub concurrent_read : ReadOutcome → ℤ → Servers → Servers
concurrent_read read_reset fd s = by_device (λ n. does (deletes_event fd) (does (closes fd) n)) s
concurrent_read read_error fd s = s
concurrent_read read_end fd s = concurrent_end fd (by_device (does (deletes_event fd)) s)
concurrent_read (read_bytes bytes) fd s = s

-- The device server's `connFd` is -1 after either kind of connection.
abbrev pub no_conn : Servers → Servers
no_conn s = record s { device = record (s.device) { conn_fd = minus_one } }

-- A writable descriptor is left alone.
unfoldable pub concurrent_event : SocketEnv → ℤ → Ready → Servers → Servers
concurrent_event env ifc_fd r s =
    if eq_ℤ r.fd s.device.socket_fd
    then no_conn (by_device (on_accept env) s)
    else (if eq_ℤ r.fd ifc_fd
        then no_conn (by_interface (on_accept env) s)
        else (if r.epollin
            then concurrent_read (env.read_outcome (reads r.fd ∷ s.calls)) r.fd
                (by_device (does (reads r.fd)) s)
            else s))

unfoldable pub concurrent_events : SocketEnv → ℤ → List Ready → Servers → Servers
concurrent_events env ifc_fd [] s = s
concurrent_events env ifc_fd (r ∷ rs) s =
    concurrent_events env ifc_fd rs (concurrent_event env ifc_fd r s)

unfoldable pub concurrent_loop : SocketEnv → ℤ → List Bool → Servers → Servers
concurrent_loop env ifc_fd [] s = s
concurrent_loop env ifc_fd (false ∷ bs) s = s
concurrent_loop env ifc_fd (true ∷ bs) s =
    concurrent_loop env ifc_fd bs
      (concurrent_events env ifc_fd (env.ready (waits ∷ s.calls)) (by_device (does waits) s))

-- Where a bind or listen of the interface server fails the process ends; here it succeeds.
unfoldable pub concurrent_thread : SocketEnv → List Bool → Servers → Servers
concurrent_thread env running s =
    let s1 = by_interface (set_up env) (by_device (set_up env) s) in
    let ifc_fd = s1.interface.socket_fd in
    let s2 =
      by_interface (does (adds_event ifc_fd))
        (by_device (does (adds_event s1.device.socket_fd)) s1) in
    let s3 = concurrent_loop env ifc_fd running s2 in
    let s4 =
      by_device (does (deletes_event s3.device.socket_fd))
        (by_interface (does (deletes_event ifc_fd)) s3) in
    by_device (λ n. close_socket (close_all_connections n))
      (by_interface (λ n. close_socket (close_all_connections n)) s4)
