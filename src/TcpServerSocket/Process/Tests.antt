-- ===== src/TcpServerSocket/Process/Tests.antt =====
-- A message of four bytes to the process of `ConcurrentProcess` in Network/src/TcpServerSocket.cpp.
use network_structure.TcpServerSocket.{read_end, new_endpoint, pos, read_bytes, Ready, SocketEnv}
use network_structure.Prelude.Int.{minus_one}
use network_structure.Ipc.{IpcEnv}
use network_structure.TcpServerSocket.Process.{Process, ProcessEnv, filled, process_event}
use network_structure.Prelude.{◌≡◌, refl, true, false, none, some, [], ◌∷◌}

abbrev quiet_sockets : SocketEnv
quiet_sockets = record {
  socket_result = λ cs. pos 3;
  accept_result = λ cs. minus_one;
  send_fails = λ cs. false;
  read_outcome = λ cs. read_end;
  ready = λ cs. [];
}

abbrev quiet_ipc : IpcEnv
quiet_ipc = record {
  socket_result = λ cs. pos 3;
  accept_result = λ cs. minus_one;
  read_result = λ cs. pos 4;
  write_result = λ cs. pos 1;
  bind_fails = λ cs. false;
  listen_fails = λ cs. false;
  connect_fails = λ cs. false;
  node_exists = λ cs. true;
  ready = λ cs. [];
}

abbrev four_bytes : ProcessEnv
four_bytes = record {
  sockets = quiet_sockets;
  ipc = quiet_ipc;
  ipc_outcome = λ cs. read_bytes (1 ∷ 2 ∷ 3 ∷ 4 ∷ []);
}

abbrev waiting_process : Process
waiting_process = record {
  servers = record {
    device = record (new_endpoint (pos 2)) { socket_fd = pos 3 };
    interface = record (new_endpoint (pos 2)) { socket_fd = pos 4 };
    calls = [];
  };
  client = record { client_fd = pos 5; client_calls = [] };
  running = true;
  num = minus_one;
  buff = [];
  ipc_buff = 7 ∷ 7 ∷ 7 ∷ filled 1021;
}

abbrev from_parent : Ready
from_parent = record { fd = pos 5; epollin = true; epollout = false }

abbrev stopped_process : Process
stopped_process = elim (process_event four_bytes (pos 4) (pos 5) from_parent waiting_process) [
  | none ↦ waiting_process
  | some p ↦ p
]

process_stopped : stopped_process.running ≡ false
unfolding process_event filled new_endpoint
process_stopped = refl
