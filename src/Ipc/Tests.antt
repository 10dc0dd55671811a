-- ===== src/Ipc/Tests.antt =====
-- A server of Network/src/Ipc.cpp with one client after the other.
use network_structure.Prelude.{
  ℕ, zero, suc, ◌+◌, ◌≡◌, refl, true, false, Option, none, some, List, [], ◌∷◌, ◌>>=◌,
}
use network_structure.Ipc.{ipc_write, accepted, ipc_thread, pos, Ipc, IpcCall, IpcEnv, new_ipc}
use network_structure.Ipc.Client.{IpcClient, live_sockets, try_connects, try_connects-live_sockets}
use network_structure.Ipc.Served.{is_open, ipc_thread-Served, Served}
use network_structure.Prelude.Int.{minus_one}
use network_structure.TcpServerSocket.{Ready}

abbrev node : List ℕ
node = 47 ∷ 120 ∷ []

-- The block that `new` gives is all zeros.
abbrev zeros : List ℕ
zeros = 0 ∷ 0 ∷ 0 ∷ 0 ∷ []

-- How many connections a trace has accepted.
abbrev number_accepted : List IpcCall → ℕ
number_accepted [] = 0
number_accepted (accepted fd ∷ cs) = suc (number_accepted cs)
number_accepted (_ ∷ cs) = number_accepted cs

abbrev event_on : ℕ → Ready
event_on fd = record { fd = pos fd; epollin = true; epollout = false }

-- Two clients come, at 5 and 6, and then the first leaves.
abbrev ready_after : ℕ → List Ready
ready_after zero = event_on 3 ∷ event_on 3 ∷ []
ready_after (suc n) = event_on 5 ∷ []

abbrev ipc_env : IpcEnv
ipc_env = record {
  socket_result = λ cs. pos 3;
  accept_result = λ cs. pos (5 + number_accepted cs);
  read_result = λ cs. pos 0;
  write_result = λ cs. pos 1;
  bind_fails = λ cs. false;
  listen_fails = λ cs. false;
  connect_fails = λ cs. true;
  node_exists = λ cs. false;
  ready = λ cs. ready_after (number_accepted cs);
}

abbrev two_rounds : Option Ipc
two_rounds = new_ipc ipc_env zeros node >>= ipc_thread ipc_env (false ∷ false ∷ true ∷ [])

abbrev left_over : Ipc
left_over = elim two_rounds [
  | none ↦ record {
    ipc_fd = minus_one;
    socket_fd = minus_one;
    is_thread_running = false;
    path = [];
    calls = [];
  }
  | some s ↦ s
]

rounds_return : two_rounds ≡ some left_over
unfolding new_ipc ipc_thread
rounds_return = refl

-- The second client is still there, but nothing can be written to it any more.
second_client_lost :
    (is_open (pos 6) left_over.calls ≡ true) × (ipc_write ipc_env [] left_over ≡ none)
unfolding new_ipc ipc_thread is_open ipc_write
second_client_lost = (refl, refl)

ipc_thread-Served_example : Served left_over
ipc_thread-Served_example =
    ipc_thread-Served ipc_env zeros node (false ∷ false ∷ true ∷ []) left_over rounds_return

abbrev new_client : IpcClient
new_client = record { client_fd = minus_one; client_calls = [] }

no_sockets : live_sockets new_client.client_calls ≡ pos 0
unfolding live_sockets
no_sockets = refl

try_connects-live_sockets_example :
    live_sockets (try_connects 4 ipc_env new_client).client_calls ≡ pos (4 + 0)
try_connects-live_sockets_example =
    try_connects-live_sockets 4 0 ipc_env new_client (λ cs. refl) (λ cs. refl) no_sockets
