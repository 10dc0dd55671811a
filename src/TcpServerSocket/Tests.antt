-- ===== src/TcpServerSocket/Tests.antt =====
-- The theorems of the older server at concrete data: an operating system that accepts another
-- descriptor each time, and reports that the listening socket 3 is ready.
use network_structure.Prelude.{
  ℕ, ◌≤◌, ◌<◌, ◌≡◌, refl, true, false, some, List, [], ◌∷◌, ◌++◌, arith, length, ◌==◌,
  if◌then◌else◌,
}
use network_structure.TcpServerSocket.Image.{
  send_pgm_image, read_frame, pgm_body, pgm_text, read_frame-send_pgm_image,
}
use network_structure.TcpServerSocket.{
  close_all_connections, open_socket, accept_fd, take_fd, check_connections, close_fd, sends, does,
  Net, SocketEnv, read_reset, read_end, Endpoint, new_endpoint,
}
use network_structure.Prelude.Int.{pos, minus_one}
use network_structure.FdManager.{get_total_count, mem_fd, new, insert, delete}
use network_structure.TcpServerSocket.Threads.{
  Servers, concurrent_loop, concurrent_read, concurrent_events, concurrent_event,
}
use network_structure.TcpServerSocket.Slots.{limits_kept, opened, two_servers}
use network_structure.TcpServerSocket.Closing.{
  closings, close_all_connections-closings, reset_keeps_slot,
}

abbrev busy_env : SocketEnv
busy_env = record {
  socket_result = λ cs. if length cs == 1 then pos 3 else pos 4;
  accept_result = λ cs. pos (length cs);
  send_fails = λ cs. false;
  read_outcome = λ cs. read_end;
  ready = λ cs. record { fd = pos 3; epollin = true; epollout = false } ∷ [];
}

-- The server after two rounds, at its limit of 1.
abbrev two_rounds : Servers
two_rounds =
    let s = opened busy_env (two_servers 1 2 []) in
    concurrent_loop busy_env s.interface.socket_fd (true ∷ true ∷ []) s

limit_reached : get_total_count two_rounds.device.fds ≡ 1
unfolding concurrent_loop get_total_count concurrent_events concurrent_event open_socket
    new_endpoint accept_fd take_fd check_connections new insert close_fd delete
limit_reached = refl

limits_kept_example : get_total_count two_rounds.device.fds ≤ 1
limits_kept_example = (limits_kept 1 2 busy_env (true ∷ true ∷ []) []).0

-- A server that holds 7.
abbrev with_seven : Endpoint
with_seven = record {
  socket_fd = pos 3;
  conn_fd = minus_one;
  max_connections = pos 2;
  fds = record { max_size = pos 2; fd_vec = pos 7 ∷ [] };
}

abbrev servers : Servers
servers = record { device = with_seven; interface = new_endpoint (pos 2); calls = [] }

close_all_connections-closings_example :
    get_total_count
      (close_all_connections (record { endpoint = with_seven; calls = [] })).endpoint.fds
    ≡ 0
close_all_connections-closings_example =
    (close_all_connections-closings (record { endpoint = with_seven; calls = [] }) (pos 7)).1

holds_seven : mem_fd (pos 7) with_seven.fds.fd_vec ≡ true
unfolding mem_fd
holds_seven = refl

reset_keeps_slot_example : closings (pos 7) (concurrent_read read_reset (pos 7) servers).calls ≡ 1
reset_keeps_slot_example = (reset_keeps_slot (pos 7) servers holds_seven refl).2

abbrev one_char : ℕ → List ℕ
one_char i = i ∷ []

abbrev net_of_seven : Net
net_of_seven = record { endpoint = with_seven; calls = [] }

few : length (pgm_text one_char 2 1 []) < 2048
unfolding pgm_text
few = omega arith

read_frame-send_pgm_image_example :
    (hdr : List ℕ) × (send_pgm_image one_char busy_env 2 1 2 (9 ∷ 8 ∷ []) [] net_of_seven
      ≡ some (does (sends minus_one (9 ∷ 8 ∷ [])) (does (sends minus_one hdr) net_of_seven)))
    × (read_frame (hdr ++ (9 ∷ 8 ∷ []) ++ 5 ∷ [])
        ≡ some
            (pgm_body one_char busy_env 2 1 2 (9 ∷ 8 ∷ []) [] net_of_seven ++ 9 ∷ 8 ∷ [], 5 ∷ []))
read_frame-send_pgm_image_example =
    read_frame-send_pgm_image one_char busy_env 2 1 2 (9 ∷ 8 ∷ []) [] net_of_seven (5 ∷ []) few refl
      (omega arith)
