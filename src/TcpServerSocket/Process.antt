-- ===== src/TcpServerSocket/Process.antt =====
-- `ConcurrentProcess` of Network/src/TcpServerSocket.cpp: the loop of `ConcurrentThread` in a
-- process of its own, which talks to its parent over the local socket of Ipc. Its `isThreadRunning`
-- is written by nobody else. EPOLL_CTL_MOD with the events that a descriptor already has is left
-- out.
pub mod Stops
mod Tests
use network_structure.Prelude.{
  ℕ, zero, suc, Bool, false, ◌&&◌, ◌||◌, Option, none, some, List, [], ◌∷◌, ◌++◌, ◌==◌,
  if◌then◌else◌, ◌>>=◌, length, take, drop,
}
use network_structure.TcpServerSocket.{
  close_all_connections, close_socket, deletes_event, read_error, adds_event, read_reset, sends,
  does, read_end, reads, Ready, read_bytes, waits, ReadOutcome, SocketEnv,
}
use network_structure.Prelude.Int.{negsuc, eq_ℤ, minus_one, is_negative, pos, ℤ}
use network_structure.Ipc.{IpcCall, IpcEnv}
use network_structure.TcpServerSocket.Threads.{
  by_device, set_up, by_interface, Servers, concurrent_event,
}
use network_structure.Ipc.Client.{IpcClient, client_read, client_write, try_connect, try_disconnect}

pub record ProcessEnv : Type 0 where
  pub sockets : SocketEnv
  pub ipc : IpcEnv
  pub ipc_outcome : List IpcCall → ReadOutcome

-- `num`, `buff` and `IPCbuff` are variables of the function.
pub record Process : Type 0 where
  pub servers : Servers
  pub client : IpcClient
  pub running : Bool
  pub num : ℤ
  pub buff : List ℕ
  pub ipc_buff : List ℕ

unfoldable pub filled : ℕ → List ℕ
filled zero = []
filled (suc n) = 0 ∷ filled n

-- A read into the start of a buffer, and memset(3) of its first bytes to 0.
abbrev pub read_into : List ℕ → List ℕ → List ℕ
read_into bytes buf = bytes ++ drop (length bytes) buf

unfoldable pub zero_first : ℕ → List ℕ → List ℕ
unfolding filled
zero_first n buf = filled n ++ drop n buf

abbrev pub read_num : ReadOutcome → ℤ
read_num (read_bytes bytes) = pos (length bytes)
read_num read_end = pos 0
read_num read_reset = minus_one
read_num read_error = minus_one

abbrev pub filled_by : ReadOutcome → List ℕ → List ℕ
filled_by (read_bytes bytes) buf = read_into bytes buf
filled_by _ buf = buf

-- `(0x01 == IPCbuff[0])&&(0x02==IPCbuff[1])&&(0x03==IPCbuff[02])`
unfoldable pub is_stop : List ℕ → Bool
is_stop (a ∷ b ∷ c ∷ rest) = a == 1 && b == 2 && c == 3
is_stop _ = false

-- The parent has sent something. The test `num = 3` is an assignment.
unfoldable pub ipc_in : ProcessEnv → Process → Option Process
unfolding client_read is_stop zero_first
ipc_in env p = client_read env.ipc p.client >>= λ r.
    let buf = filled_by (env.ipc_outcome r.0.client_calls) p.ipc_buff in
    some (record p {
      client = r.0;
      num = pos 3;
      running = if is_stop buf then false else p.running;
      ipc_buff = zero_first 3 buf;
    })

-- What a connection has sent goes to the parent; the rest is as in `ConcurrentThread`.
unfoldable pub pass_on : ProcessEnv → ReadOutcome → Process → Option Process
unfolding client_write zero_first
pass_on env (read_bytes bytes) p = client_write env.ipc bytes p.client >>= λ r.
    some (record p { client = r.0; buff = zero_first (length bytes) (read_into bytes p.buff) })
pass_on env _ p = some p

unfoldable pub socket_in : ProcessEnv → ℤ → Ready → Process → Option Process
unfolding concurrent_event pass_on
socket_in env ifc_fd r p =
    let outcome = env.sockets.read_outcome (reads r.fd ∷ p.servers.calls) in
    pass_on env outcome (record p {
      servers = concurrent_event env.sockets ifc_fd r p.servers;
      num = read_num outcome;
    })

-- `memset(buff,0,num)` for a `num` that is not negative, after a write where the socket is not
-- Ipc's.
unfoldable pub write_out_num : ℤ → Bool → ℤ → Process → Option Process
unfolding zero_first
write_out_num (pos n) is_ipc fd p = some (record p {
  servers = if is_ipc then p.servers else by_device (does (sends fd (take n p.buff))) p.servers;
  buff = zero_first n p.buff;
})
write_out_num (negsuc n) is_ipc fd p = none

unfoldable pub write_out : Bool → ℤ → Process → Option Process
unfolding write_out_num
write_out is_ipc fd p = write_out_num p.num is_ipc fd p

unfoldable pub process_event : ProcessEnv → ℤ → ℤ → Ready → Process → Option Process
unfolding concurrent_event ipc_in socket_in write_out
process_event env ifc_fd ipc_fd r p =
    if eq_ℤ r.fd p.servers.device.socket_fd || eq_ℤ r.fd ifc_fd
    then some (record p { servers = concurrent_event env.sockets ifc_fd r p.servers })
    else (if r.epollin
        then (if eq_ℤ r.fd ipc_fd then ipc_in env p else socket_in env ifc_fd r p)
        else (if r.epollout then write_out (eq_ℤ r.fd ipc_fd) r.fd p else some p))

unfoldable pub process_events : ProcessEnv → ℤ → ℤ → List Ready → Process → Option Process
unfolding process_event
process_events env ifc_fd ipc_fd [] p = some p
process_events env ifc_fd ipc_fd (r ∷ rs) p =
    process_event env ifc_fd ipc_fd r p >>= process_events env ifc_fd ipc_fd rs

-- For at most so many rounds.
unfoldable pub process_loop : ProcessEnv → ℤ → ℤ → ℕ → Process → Option Process
unfolding process_events
process_loop env ifc_fd ipc_fd zero p = some p
process_loop env ifc_fd ipc_fd (suc fuel) p =
    if p.running
    then (process_events env ifc_fd ipc_fd (env.sockets.ready (waits ∷ p.servers.calls))
          (record p { servers = by_device (does waits) p.servers })
        >>= process_loop env ifc_fd ipc_fd fuel)
    else some p

-- What the child does once it has its connection to the parent.
unfoldable pub child_process : ProcessEnv → ℕ → Process → Option Process
unfolding process_loop try_disconnect
child_process env fuel p =
    let s1 = by_interface (set_up env.sockets) (by_device (set_up env.sockets) p.servers) in
    let ifc_fd = s1.interface.socket_fd in
    let ipc_fd = p.client.client_fd in
    let s2 = by_device (does (adds_event ipc_fd)) (
      by_interface (does (adds_event ifc_fd))
        (by_device (does (adds_event s1.device.socket_fd)) s1)) in
    process_loop env ifc_fd ipc_fd fuel (record p { servers = s2 }) >>= λ q.
    let s4 = by_device (does (deletes_event q.servers.device.socket_fd)) (
      by_interface (does (deletes_event ifc_fd))
        (by_device (does (deletes_event ipc_fd)) q.servers)) in
    some (record q {
      servers =
          by_device close_socket (by_interface (λ n. close_socket (close_all_connections n)) s4);
      client = (try_disconnect q.client).0;
    })

-- The result of fork(2): negative, 0 in the child, or the child in the parent.
unfoldable pub concurrent_process : ProcessEnv → ℤ → ℕ → Process → Option Process
unfolding child_process try_connect
concurrent_process env pid fuel p =
    if is_negative pid
    then none
    else (if eq_ℤ pid (pos 0)
        then (if is_negative (try_connect env.ipc p.client).1
            then some (record p { client = (try_connect env.ipc p.client).0 })
            else child_process env fuel (record p { client = (try_connect env.ipc p.client).0 }))
        else some p)
