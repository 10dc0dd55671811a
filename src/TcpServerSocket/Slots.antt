-- ===== src/TcpServerSocket/Slots.antt =====
-- The limit of each server, over every history of events, and what becomes of a slot.
use network_structure.Prelude.{
  ℕ, ◌≤◌, ◌≡◌, refl, inl, inr, Bool, true, false, List, [], ◌∷◌, arith, length, length-append,
  Bool-cases,
}
use network_structure.Prelude.Int.{ℤ, pos, minus_one, eq_ℤ, is_positive, is_negative}
use network_structure.FdManager.{new, insert, delete, get_total_count, clear_all}
use network_structure.FdManager.Capacity.{length-erase_first-le}
use network_structure.TcpServerSocket.{
  SocketCall, SocketEnv, Ready, ReadOutcome, read_bytes, read_end, read_reset, read_error, accepts,
  reads, waits, deletes_event, Endpoint, Net, new_endpoint, does, close_fd, check_fd,
  check_connections, take_fd, accept_fd, open_socket, adds_event, close_socket,
  close_all_connections,
}
use network_structure.TcpServerSocket.Threads.{
  by_device, Servers, on_accept, concurrent_end, concurrent_read, concurrent_event,
  concurrent_events, concurrent_loop, set_up, by_interface, concurrent_thread,
}

-- A server for `m` connections that has at most so many.
pub record Fits (m : ℕ) (e : Endpoint) : Type 0 where
  pub limit : e.max_connections ≡ pos m
  pub size : e.fds.max_size ≡ pos m
  pub few : length e.fds.fd_vec ≤ m

new_endpoint-Fits : (m : ℕ) → Fits m (new_endpoint (pos m))
unfolding new_endpoint new
new_endpoint-Fits m = record { limit = refl; size = refl; few = omega arith }

close_fd-Fits : (m : ℕ) (fd : ℤ) (n : Net) → Fits m n.endpoint → Fits m (close_fd fd n).endpoint
unfolding close_fd delete
close_fd-Fits m fd n f = record {
  limit = ground (arith, f.limit);
  size = ground (arith, f.size);
  few = ground (arith, f.few, length-erase_first-le fd n.endpoint.fds.fd_vec);
}

check_fd-Fits : (m : ℕ) (fd : ℤ) (e : Endpoint) → Fits m e → Fits m (check_fd fd e).0
unfolding check_fd delete
check_fd-Fits m fd e f = record {
  limit = ground (arith, f.limit);
  size = ground (arith, f.size);
  few = ground (arith, f.few, length-erase_first-le fd e.fds.fd_vec);
}

accept_fd-Fits :
    (m : ℕ) (env : SocketEnv) (n : Net) → Fits m n.endpoint → Fits m (accept_fd env n).endpoint
unfolding accept_fd take_fd check_connections get_total_count insert close_fd delete
accept_fd-Fits m env n f =
    let fd = env.accept_result (accepts n.endpoint.socket_fd ∷ n.calls) in
    record {
      limit = ground (arith, f.limit);
      size = ground (arith, f.size);
      few = ground (
        arith,
        f.few,
        f.limit,
        f.size,
        length-append n.endpoint.fds.fd_vec (fd ∷ []),
        length-erase_first-le fd n.endpoint.fds.fd_vec,
      );
    }

-- Both servers keep to their limits.
pub record Keeps (m k : ℕ) (s : Servers) : Type 0 where
  pub device : Fits m s.device
  pub interface : Fits k s.interface

on_accept-Fits :
    (m : ℕ) (env : SocketEnv) (n : Net) → Fits m n.endpoint → Fits m (on_accept env n).endpoint
on_accept-Fits m env n f =
    let g = accept_fd-Fits m env n f in
    elim (Bool-cases (is_negative (accept_fd env n).endpoint.conn_fd)) [
      | inl h ↦ rw h g
      | inr h ↦ rw h g
    ]

end-Keeps : (m k : ℕ) (fd : ℤ) (s : Servers) → Keeps m k s → Keeps m k (concurrent_end fd s)
unfolding concurrent_end
end-Keeps m k fd s f = elim (Bool-cases (is_positive (check_fd fd s.device).1)) [
  | inl h ↦ rw h (record { device = check_fd-Fits m fd s.device f.device; interface = f.interface })
  | inr h ↦ elim (Bool-cases (is_positive (check_fd fd s.interface).1)) [
    | inl i ↦ rw h (
        rw i (record {
          device = f.device;
          interface = close_fd-Fits k fd _ (check_fd-Fits k fd s.interface f.interface);
        }))
    | inr i ↦ rw h (rw i f)
  ]
]

read-Keeps :
    (m k : ℕ) (r : ReadOutcome) (fd : ℤ) (s : Servers)
    → Keeps m k s
    → Keeps m k (concurrent_read r fd s)
unfolding concurrent_read
read-Keeps m k (read_bytes bytes) fd s f = f
read-Keeps m k read_end fd s f =
    end-Keeps m k fd (by_device (does (deletes_event fd)) s)
      (record { device = f.device; interface = f.interface })
read-Keeps m k read_reset fd s f = record { device = f.device; interface = f.interface }
read-Keeps m k read_error fd s f = f

no_conn-Fits : (m : ℕ) (e : Endpoint) → Fits m e → Fits m (record e { conn_fd = minus_one })
no_conn-Fits m e f = record { limit = f.limit; size = f.size; few = f.few }

event-Keeps :
    (m k : ℕ) (env : SocketEnv) (ifc : ℤ) (r : Ready) (s : Servers)
    → Keeps m k s
    → Keeps m k (concurrent_event env ifc r s)
unfolding concurrent_event
event-Keeps m k env ifc r s f = elim (Bool-cases (eq_ℤ r.fd s.device.socket_fd)) [
  | inl a ↦ rw a (record {
    device =
        no_conn-Fits m _
          (on_accept-Fits m env (record { endpoint = s.device; calls = s.calls }) f.device);
    interface = f.interface;
  })
  | inr a ↦ elim (Bool-cases (eq_ℤ r.fd ifc)) [
    | inl b ↦ rw a (
        rw b (record {
          device = no_conn-Fits m s.device f.device;
          interface =
              on_accept-Fits k env (record { endpoint = s.interface; calls = s.calls }) f.interface;
        }))
    | inr b ↦ elim (Bool-cases r.epollin) [
      | inl c ↦ rw a (
          rw b (
            rw c (
              read-Keeps m k (env.read_outcome (reads r.fd ∷ s.calls)) r.fd
                (by_device (does (reads r.fd)) s)
                (record { device = f.device; interface = f.interface }))))
      | inr c ↦ rw a (rw b (rw c f))
    ]
  ]
]

events-Keeps :
    (m k : ℕ) (env : SocketEnv) (ifc : ℤ) (rs : List Ready) (s : Servers)
    → Keeps m k s
    → Keeps m k (concurrent_events env ifc rs s)
unfolding concurrent_events
events-Keeps m k env ifc [] s f = f
events-Keeps m k env ifc (r ∷ rs) s f =
    events-Keeps m k env ifc rs (concurrent_event env ifc r s) (event-Keeps m k env ifc r s f)

loop-Keeps :
    (m k : ℕ) (env : SocketEnv) (ifc : ℤ) (bs : List Bool) (s : Servers)
    → Keeps m k s
    → Keeps m k (concurrent_loop env ifc bs s)
unfolding concurrent_loop
loop-Keeps m k env ifc [] s f = f
loop-Keeps m k env ifc (false ∷ bs) s f = f
loop-Keeps m k env ifc (true ∷ bs) s f = loop-Keeps m k env ifc bs _ (
    events-Keeps m k env ifc (env.ready (waits ∷ s.calls)) (by_device (does waits) s)
      (record { device = f.device; interface = f.interface }))

set_up-Fits :
    (m : ℕ) (env : SocketEnv) (n : Net) → Fits m n.endpoint → Fits m (set_up env n).endpoint
unfolding open_socket
set_up-Fits m env n f = elim (Bool-cases (is_negative n.endpoint.socket_fd)) [
  | inl h ↦ rw h (record { limit = f.limit; size = f.size; few = f.few })
  | inr h ↦ rw h (record { limit = f.limit; size = f.size; few = f.few })
]

-- What the thread does to a server at its end.
closed-empty : (n : Net) → length (close_socket (close_all_connections n)).endpoint.fds.fd_vec ≡ 0
unfolding close_socket close_all_connections clear_all
closed-empty n = elim (Bool-cases (is_positive n.endpoint.socket_fd)) [
  | inl h ↦ rw h refl
  | inr h ↦ rw h refl
]

-- The servers when `ConcurrentThread` enters its loop, with both listening sockets open.
abbrev pub opened : SocketEnv → Servers → Servers
opened env s =
    let s1 = by_interface (set_up env) (by_device (set_up env) s) in
    by_interface (does (adds_event s1.interface.socket_fd))
      (by_device (does (adds_event s1.device.socket_fd)) s1)

-- Two new servers.
abbrev pub two_servers : ℕ → ℕ → List SocketCall → Servers
two_servers m k cs = record {
  device = new_endpoint (pos m);
  interface = new_endpoint (pos k);
  calls = cs;
}

opened-Keeps :
    (m k : ℕ) (env : SocketEnv) (cs : List SocketCall) → Keeps m k (opened env (two_servers m k cs))
opened-Keeps m k env cs =
    let d =
      set_up-Fits m env (record { endpoint = new_endpoint (pos m); calls = cs })
        (new_endpoint-Fits m) in
    let i = set_up-Fits k env _ (new_endpoint-Fits k) in record { device = d; interface = i }

-- The limit is the number of connections asked for, though the vector alone would take one more:
-- when `ConcurrentThread` has opened the sockets of two new servers for `m` and `k` connections,
-- whatever the operating system returns in any number of rounds of its loop, they hold at most `m`
-- and `k` descriptors; and at its end they hold none.
pub limits_kept :
    (m k : ℕ) (env : SocketEnv) (bs : List Bool) (cs : List SocketCall)
    → let s1 = opened env (two_servers m k cs) in
      let s = concurrent_loop env s1.interface.socket_fd bs s1 in
      let t = concurrent_thread env bs (two_servers m k cs) in
      (get_total_count s.device.fds ≤ m)
      × (get_total_count s.interface.fds ≤ k)
      × (get_total_count t.device.fds ≡ 0)
      × (get_total_count t.interface.fds ≡ 0)
unfolding get_total_count concurrent_thread
limits_kept m k env bs cs =
    let s1 = opened env (two_servers m k cs) in
    let f = loop-Keeps m k env s1.interface.socket_fd bs s1 (opened-Keeps m k env cs) in
    (f.device.few, f.interface.few, closed-empty _, closed-empty _)
