-- ===== src/Ipc/Client.antt =====
-- `IpcClient` of Network/src/Ipc.cpp, the other end of the local socket.
use network_structure.Prelude.{
  ℕ, zero, suc, ◌+◌, ◌≡◌, refl, ap, ◌∙◌, false, Option, none, some, List, [], ◌∷◌, arith,
  if◌then◌else◌,
}
use network_structure.Prelude.Int.{decrement, increment, minus_one, is_negative, is_positive, ℤ}
use network_structure.Ipc.{
  shut, socket_made, closed, connected, pos, read_from, written, IpcCall, IpcEnv,
}

pub record IpcClient : Type 0 where
  pub client_fd : ℤ
  pub client_calls : List IpcCall

abbrev pub client_calling : IpcCall → IpcClient → IpcClient
client_calling c s = record s { client_calls = c ∷ s.client_calls }

unfoldable pub client_open : IpcEnv → IpcClient → IpcClient × ℤ
client_open env c =
    let fd = env.socket_result c.client_calls in
    if is_negative fd
    then (client_calling (socket_made fd) (record c { client_fd = minus_one }), minus_one)
    else (client_calling (socket_made fd) (record c { client_fd = fd }), pos 0)

unfoldable pub client_close : IpcClient → IpcClient
client_close c =
    if is_positive c.client_fd
    then record (client_calling (closed c.client_fd) (client_calling (shut c.client_fd) c)) {
      client_fd = minus_one;
    }
    else c

unfoldable pub client_read : IpcEnv → IpcClient → Option (IpcClient × ℤ)
client_read env c =
    if is_positive c.client_fd
    then some (
      client_calling (read_from c.client_fd) c,
      env.read_result (read_from c.client_fd ∷ c.client_calls),
    )
    else none

unfoldable pub client_write : IpcEnv → List ℕ → IpcClient → Option (IpcClient × ℤ)
client_write env buf c =
    if is_positive c.client_fd
    then some (
      client_calling (written c.client_fd buf) c,
      env.write_result (written c.client_fd buf ∷ c.client_calls),
    )
    else none

unfoldable pub try_connect : IpcEnv → IpcClient → IpcClient × ℤ
unfolding client_open
try_connect env c =
    let c1 = (client_open env c).0 in
    let c2 = client_calling (connected c1.client_fd) c1 in
    if env.node_exists c1.client_calls
    then (if env.connect_fails c2.client_calls then (c2, minus_one) else (c2, pos 0))
    else (c1, minus_one)

unfoldable pub try_disconnect : IpcClient → IpcClient × ℤ
unfolding client_close
try_disconnect c = (client_close c, pos 0)

-- A client that tries `n` times.
unfoldable pub try_connects : ℕ → IpcEnv → IpcClient → IpcClient
unfolding try_connect
try_connects zero env c = c
try_connects (suc n) env c = try_connects n env (try_connect env c).0

-- The sockets that a trace has made less those that it has closed.
unfoldable pub live_sockets : List IpcCall → ℤ
live_sockets [] = pos 0
live_sockets (socket_made fd ∷ cs) =
    let n = live_sockets cs in if is_negative fd then n else increment n
live_sockets (closed fd ∷ cs) = decrement (live_sockets cs)
live_sockets (_ ∷ cs) = live_sockets cs

try_connect-live_sockets :
    (env : IpcEnv) (c : IpcClient) (k : ℕ)
    → is_negative (env.socket_result c.client_calls) ≡ false
    → env.node_exists (socket_made (env.socket_result c.client_calls) ∷ c.client_calls) ≡ false
    → live_sockets c.client_calls ≡ pos k
    → live_sockets (try_connect env c).0.client_calls ≡ pos (suc k)
unfolding try_connect client_open live_sockets
try_connect-live_sockets env c k h f e = rw h (rw f (rw h (rw e refl)))

-- A `TryConnect` that fails closes nothing: while sockets can be made and the server's node is not
-- there, each of `n` attempts leaves one socket more, though the client keeps one descriptor.
pub try_connects-live_sockets :
    (n k : ℕ) (env : IpcEnv) (c : IpcClient)
    → ((cs : List IpcCall) → is_negative (env.socket_result cs) ≡ false)
    → ((cs : List IpcCall) → env.node_exists cs ≡ false)
    → live_sockets c.client_calls ≡ pos k
    → live_sockets (try_connects n env c).client_calls ≡ pos (n + k)
unfolding try_connects
try_connects-live_sockets zero k env c h f e = e ∙ ap pos (omega arith)
try_connects-live_sockets (suc n) k env c h f e =
    let c1 = (try_connect env c).0 in
    try_connects-live_sockets n (suc k) env c1 h f (
      try_connect-live_sockets env c k (h c.client_calls)
        (f (socket_made (env.socket_result c.client_calls) ∷ c.client_calls)) e)
    ∙ ap pos (omega arith)
