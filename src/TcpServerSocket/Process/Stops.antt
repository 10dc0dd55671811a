-- ===== src/TcpServerSocket/Process/Stops.antt =====
-- When `ConcurrentProcess` of Network/src/TcpServerSocket.cpp ends. Its buffer is not initialised.
use network_structure.TcpServerSocket.Process.{read_bytes, ProcessEnv, is_stop, Process}
use network_structure.TcpServerSocket.{ReadOutcome, Ready}
use network_structure.Prelude.{
  ℕ, ◌≡◌, Bool, true, false, not, ◌&&◌, ◌||◌, List, ◌∷◌, if◌then◌else◌, ◌⊎◌,
}
use network_structure.Prelude.Int.{eq_ℤ, ℤ}
use network_structure.Prelude.Gives.{Gives}
use network_structure.Ipc.{read_from}

-- The buffer starts with zeros, as it is after each message.
pub record Cleared (p : Process) : Type 0 where
  pub tail_bytes : List ℕ
  pub zeros : p.ipc_buff ≡ 0 ∷ 0 ∷ 0 ∷ tail_bytes

-- What was read starts with the bytes 1, 2 and 3.
unfoldable pub is_stop_message : ReadOutcome → Bool
unfolding is_stop
is_stop_message (read_bytes bytes) = is_stop bytes
is_stop_message _ = false

-- The read found three bytes or more.
pub data Fills : ReadOutcome → Type 0 where
  three : {a b d : ℕ} {bytes : List ℕ} → Fills (read_bytes (a ∷ b ∷ d ∷ bytes))

-- `running` after a step is what it was but for the stop, and the buffer stays cleared, or is
-- cleared where the step reads a message.
record Stopped (p v : Process) (stop reads_message : Bool) : Type 0 where
  running : v.running ≡ (p.running && not stop)
  cleared : Cleared p ⊎ (reads_message ≡ true) → Cleared v

-- The outcome of the read of the parent's message.
abbrev pub message : ProcessEnv → Process → ReadOutcome
message env p = env.ipc_outcome (read_from p.client.client_fd ∷ p.client.client_calls)

-- The event is a message of the parent: `asks_stop` says whether it starts with 1, 2 and 3.
unfoldable pub is_message : ℤ → ℤ → Ready → Process → Bool
is_message ifc_fd ipc_fd r p =
    if eq_ℤ r.fd p.servers.device.socket_fd || eq_ℤ r.fd ifc_fd
    then false
    else (if r.epollin then (if eq_ℤ r.fd ipc_fd then true else false) else false)

unfoldable pub asks_stop : ProcessEnv → ℤ → ℤ → Ready → Process → Bool
unfolding is_stop_message
asks_stop env ifc_fd ipc_fd r p =
    if eq_ℤ r.fd p.servers.device.socket_fd || eq_ℤ r.fd ifc_fd
    then false
    else (if r.epollin
        then (if eq_ℤ r.fd ipc_fd then is_stop_message (message env p) else false)
        else false)
