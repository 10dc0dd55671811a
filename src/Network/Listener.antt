-- ===== src/Network/Listener.antt =====
-- The thread of Network/src/Network.cpp that waits, and StartNetworkServer and StopNetworkServer,
-- which start and stop it together with the servers.
use network_structure.Prelude.{
  ap, ℕ, suc, ◌≡◌, refl, ◌∙◌, inl, inr, Bool, true, false, Option, none, some, List, [], ◌∷◌,
  if◌then◌else◌, Bool-cases, ◌>>=◌,
}
use network_structure.Network.{start_network, Network, stop_network}
use network_structure.TcpServerSocket.{SocketEnv}

-- `listenerT` is a thread where `listening` is set. A `Network` with its ports.
pub record Listener : Type 0 where
  pub network : Network
  pub tcp_server_port : ℕ
  pub is_listener_running : Bool
  pub listening : Bool

unfoldable pub get_server_port : Listener → ℕ
get_server_port l = l.tcp_server_port

unfoldable pub set_server_port : ℕ → Listener → Listener
set_server_port port l = record l { tcp_server_port = port }

-- `StarThread`: a new thread in place of one that has not been joined ends the process.
unfoldable pub star_thread : Listener → Option Listener
star_thread l =
    if l.is_listener_running
    then some l
    else (if l.listening
        then none
        else some (record l { is_listener_running = true; listening = true }))

-- `StopThread`: join throws where there is no thread.
unfoldable pub stop_listener : Listener → Option Listener
stop_listener l =
    if l.is_listener_running
    then (if l.listening
        then some (record l { is_listener_running = false; listening = false })
        else none)
    else some l

-- `NetworkListenerThread`: how often it waits, from the values of `isThreadRunning` at its tests.
unfoldable pub listener_waits : List Bool → ℕ → ℕ
listener_waits [] count = count
listener_waits (false ∷ tests) count = count
listener_waits (true ∷ tests) count = listener_waits tests (suc count)

-- Both do nothing where `gNetworkPtr` is null.
unfoldable pub start_network_server : Bool → SocketEnv → Option Listener → Option (Option Listener)
unfolding star_thread
start_network_server returns env none = some none
start_network_server returns env (some l) = do
  n ← start_network returns env l.network
  l1 ← star_thread (record l { network = n })
  some (some l1)

unfoldable pub stop_network_server : Bool → Option Listener → Option (Option Listener)
unfolding stop_listener
stop_network_server returns none = some none
stop_network_server returns (some l) = do
  l1 ← stop_listener l
  n ← stop_network returns l1.network
  some (some (record l1 { network = n }))

-- The calls of StarThread (`true`) and StopThread in any order.
unfoldable pub listener_calls : List Bool → Listener → Option Listener
unfolding star_thread stop_listener
listener_calls [] l = some l
listener_calls (true ∷ cs) l = star_thread l >>= listener_calls cs
listener_calls (false ∷ cs) l = stop_listener l >>= listener_calls cs

star_thread-running : (l : Listener) → l.is_listener_running ≡ true → star_thread l ≡ some l
unfolding star_thread
star_thread-running l r =
    ap
      (λ b.
        if b
        then some l
        else (if l.listening
            then none
            else some (record l { is_listener_running = true; listening = true })))
      r

stop_listener-stopped : (l : Listener) → l.is_listener_running ≡ false → stop_listener l ≡ some l
unfolding stop_listener
stop_listener-stopped l r =
    ap
      (λ b.
        if b
        then (if l.listening
            then some (record l { is_listener_running = false; listening = false })
            else none)
        else some l)
      r

-- Any sequence of StarThread and StopThread goes through and leaves a thread exactly where the flag
-- is set, from a state in which that is so.
pub listener_calls-paired :
    (cs : List Bool) (l : Listener)
    → l.listening ≡ l.is_listener_running
    → (v : Listener) × (listener_calls cs l ≡ some v)
      × (v.listening ≡ v.is_listener_running)
      × (v.network ≡ l.network)
unfolding listener_calls
listener_calls-paired [] l h = (l, refl, h, refl)
listener_calls-paired (true ∷ cs) l h = elim (Bool-cases l.is_listener_running) [
  | inl r ↦ rw (star_thread-running l r) (listener_calls-paired cs l h)
  | inr r ↦
      let u : Listener = record l { is_listener_running = true; listening = true } in
      rw (r, h ∙ r) (listener_calls-paired cs u refl)
]
listener_calls-paired (false ∷ cs) l h = elim (Bool-cases l.is_listener_running) [
  | inl r ↦
      let u : Listener = record l { is_listener_running = false; listening = false } in
      rw (r, h ∙ r) (listener_calls-paired cs u refl)
  | inr r ↦ rw (stop_listener-stopped l r) (listener_calls-paired cs l h)
]
