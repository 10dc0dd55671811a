-- ===== src/Ipc.antt =====
-- Network/src/Ipc.cpp: the server of a local socket. The calls of the operating system are kept
-- with their results, newest first, and `IpcEnv` says what each gives. A method that ends without a
-- return statement has no result, which is `none`; so has a step where the process ends or is
-- undefined.
pub mod Client
pub mod Served
mod Tests
use network_structure.Prelude.{
  ℕ, Bool, true, false, Option, none, some, List, [], ◌∷◌, ◌++◌, leb, ◌==◌, if◌then◌else◌, ◌>>=◌,
  length, take, drop,
}
use network_structure.Prelude.Int.{is_negative, is_positive, pos, eq_ℤ, minus_one, ℤ}
use network_structure.TcpServerSocket.{Ready}

-- `accepted` and `socket_made` hold the result of the call.
pub data IpcCall : Type 0 where
  socket_made accepted : ℤ → IpcCall
  bound listened connected : ℤ → IpcCall
  added deleted shut closed : ℤ → IpcCall
  read_from : ℤ → IpcCall
  written : ℤ → List ℕ → IpcCall
  waited thread_started thread_joined : IpcCall
  unlinked : List ℕ → IpcCall

pub record IpcEnv : Type 0 where
  pub socket_result : List IpcCall → ℤ
  pub accept_result : List IpcCall → ℤ
  pub read_result : List IpcCall → ℤ
  pub write_result : List IpcCall → ℤ
  pub bind_fails : List IpcCall → Bool
  pub listen_fails : List IpcCall → Bool
  pub connect_fails : List IpcCall → Bool
  pub node_exists : List IpcCall → Bool
  pub ready : List IpcCall → List Ready

pub record Ipc : Type 0 where
  pub ipc_fd : ℤ
  pub socket_fd : ℤ
  pub is_thread_running : Bool
  pub path : List ℕ
  pub calls : List IpcCall

abbrev pub calling : IpcCall → Ipc → Ipc
calling c s = record s { calls = c ∷ s.calls }

-- The characters of a block before the first 0.
unfoldable pub string_in : List ℕ → Option (List ℕ)
string_in [] = none
string_in (c ∷ s) =
    let rest = string_in s in if c == 0 then some [] else (rest >>= λ t. some (c ∷ t))

-- The copy of a name into the block of 100 bytes that `new` has given, without the 0 at its end.
unfoldable pub path_of : List ℕ → List ℕ → Option (List ℕ)
unfolding string_in
path_of fresh name =
    if leb (length name) 100 then string_in (name ++ drop (length name) (take 100 fresh)) else none

unfoldable pub ipc_bind : IpcEnv → Ipc → Ipc × ℤ
ipc_bind env s =
    let s1 = calling (bound s.socket_fd) s in
    (s1, if env.bind_fails s1.calls then minus_one else pos 0)

unfoldable pub ipc_listen : IpcEnv → Ipc → Ipc × ℤ
ipc_listen env s =
    let s1 = calling (listened s.socket_fd) s in
    (s1, if env.listen_fails s1.calls then minus_one else pos 0)

unfoldable pub ipc_open : IpcEnv → Ipc → Ipc × ℤ
unfolding ipc_bind ipc_listen
ipc_open env s =
    let fd = env.socket_result s.calls in
    let s1 = calling (socket_made fd) (record s { socket_fd = fd }) in
    if is_negative s.socket_fd
    then (if is_negative fd
        then (s1, minus_one)
        else ((ipc_listen env (ipc_bind env s1).0).0, pos 0))
    else (s, pos 0)

-- `IPC::IPC`, with what `new` has given for the path.
unfoldable pub new_ipc : IpcEnv → List ℕ → List ℕ → Option Ipc
unfolding path_of ipc_open
new_ipc env fresh name = path_of fresh name >>= λ path.
    let s : Ipc = record {
      ipc_fd = minus_one;
      socket_fd = minus_one;
      is_thread_running = false;
      path = path;
      calls = [];
    } in
    some (ipc_open env (if env.node_exists [] then calling (unlinked path) s else s)).0

-- The tests of a descriptor are tests that it is not 0.
unfoldable pub ipc_close : Ipc → Ipc
ipc_close s =
    if eq_ℤ s.socket_fd (pos 0)
    then s
    else calling (closed s.socket_fd) (record s { socket_fd = minus_one })

unfoldable pub ipc_shutdown : Ipc → Ipc
ipc_shutdown s = if eq_ℤ s.socket_fd (pos 0) then s else calling (shut s.socket_fd) s

unfoldable pub ipc_accept : IpcEnv → Ipc → Ipc
ipc_accept env s =
    let fd = env.accept_result s.calls in calling (accepted fd) (record s { ipc_fd = fd })

unfoldable pub ipc_read : IpcEnv → Ipc → Option (Ipc × ℤ)
ipc_read env s =
    if is_positive s.ipc_fd
    then some (calling (read_from s.ipc_fd) s, env.read_result (read_from s.ipc_fd ∷ s.calls))
    else none

unfoldable pub ipc_write : IpcEnv → List ℕ → Ipc → Option (Ipc × ℤ)
ipc_write env buf s =
    if is_positive s.ipc_fd
    then some (calling (written s.ipc_fd buf) s, env.write_result (written s.ipc_fd buf ∷ s.calls))
    else none

-- `Starthread` and `StopThread`; the results, which they lack, are not used.
unfoldable pub starthread : Ipc → Ipc
starthread s =
    if s.is_thread_running
    then s
    else calling thread_started (record s { is_thread_running = true })

unfoldable pub ipc_stop_thread : Ipc → Ipc
ipc_stop_thread s =
    if s.is_thread_running
    then calling thread_joined (record s { is_thread_running = false })
    else s

-- `SetConnFd`
unfoldable pub set_conn_fd : ℤ → Ipc → Ipc
set_conn_fd val s = record s { ipc_fd = val }

-- The loop of `IPCThread` over the events, and what it does where nothing is left to read.
abbrev pub on_end : ℤ → Ipc → Ipc
on_end fd s = record (calling (closed fd) (calling (shut fd) (calling (deleted fd) s))) {
  ipc_fd = minus_one;
}

unfoldable pub ipc_event : IpcEnv → Ready → Ipc → Option Ipc
unfolding ipc_accept set_conn_fd
ipc_event env r s =
    if eq_ℤ r.fd s.socket_fd
    then (if is_negative (ipc_accept env s).ipc_fd
        then none
        else some (calling (added (ipc_accept env s).ipc_fd) (ipc_accept env s)))
    else (if r.epollin
        then some (
            if eq_ℤ (env.read_result (read_from r.fd ∷ s.calls)) (pos 0)
            then on_end r.fd (calling (read_from r.fd) s)
            else calling (read_from r.fd) s)
        else some s)

unfoldable pub ipc_events : IpcEnv → List Ready → Ipc → Option Ipc
unfolding ipc_event
ipc_events env [] s = some s
ipc_events env (r ∷ rs) s = ipc_event env r s >>= ipc_events env rs

-- The `while`; the list holds `exit_thread` at each test.
unfoldable pub ipc_loop : IpcEnv → List Bool → Ipc → Option Ipc
unfolding ipc_events
ipc_loop env [] s = some s
ipc_loop env (true ∷ exits) s = some s
ipc_loop env (false ∷ exits) s =
    ipc_events env (env.ready (waited ∷ s.calls)) (calling waited s) >>= ipc_loop env exits

unfoldable pub ipc_thread : IpcEnv → List Bool → Ipc → Option Ipc
unfolding ipc_loop
ipc_thread env exits s = ipc_loop env exits (calling (added s.socket_fd) s)
