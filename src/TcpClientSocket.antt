-- ===== src/TcpClientSocket.antt =====
-- Network/src/TcpClientSocket.cpp: the client of a server of descriptors. The calls that it makes
-- are kept, newest first; `leftover` is what a caller gets where a method lacks its return.
pub mod Twice
use network_structure.Prelude.Int.{eq_ℤ, minus_one, pos, ℤ}
use network_structure.Prelude.{ℕ, Bool, true, false, List, [], ◌∷◌, ◌==◌, if◌then◌else◌}

pub data ClientCall : Type 0 where
  makes_client connects_client : ClientCall
  sets_client_options closes_client : ℤ → ClientCall
  shuts_client : ℤ → ℕ → ClientCall
  reads_client : ℤ → ℕ → ClientCall
  sends_client : ℤ → List ℕ → ClientCall

pub record Client : Type 0 where
  pub socket_fd : ℤ
  pub tcp_socket_is_valid : Bool
  pub client_calls : List ClientCall

abbrev pub client_does : ClientCall → Client → Client
client_does c k = record k { client_calls = c ∷ k.client_calls }

-- `TcpClientSocket::TcpClientSocket`, with what socket(2) returns: the last line sets the flag, also
-- where there is no socket.
unfoldable pub new_client_socket : ℤ → Client
new_client_socket result = record {
  socket_fd = result;
  tcp_socket_is_valid = true;
  client_calls = makes_client ∷ [];
}

unfoldable pub destroy_client : Client → Client
destroy_client k =
    if k.tcp_socket_is_valid
    then client_does (closes_client k.socket_fd) (record k { tcp_socket_is_valid = false })
    else k

unfoldable pub close_client : Client → Client
close_client k = client_does (closes_client k.socket_fd) k

unfoldable pub shutdown_client : ℕ → Client → Client
shutdown_client mode k =
    client_does (shuts_client k.socket_fd (if mode == 0 then 0 else (if mode == 1 then 1 else 2))) k

-- Both options, one after the other.
unfoldable pub set_client_options : Client → Client × ℤ
set_client_options k = (
  client_does (sets_client_options k.socket_fd) (client_does (sets_client_options k.socket_fd) k),
  pos 0,
)

-- `Connect` returns 0 in both branches.
unfoldable pub connect_client : Client → Client × ℤ
connect_client k = (client_does connects_client k, pos 0)

-- `result` is what read(2) returns.
unfoldable pub client_socket_read : ℤ → ℕ → Client → Client × ℤ
client_socket_read result len k =
    if k.tcp_socket_is_valid
    then (client_does (reads_client k.socket_fd len) k, result)
    else (k, minus_one)

-- `sent` is what send(2) returns.
unfoldable pub client_socket_write : ℤ → ℤ → List ℕ → Client → Client × ℤ
client_socket_write leftover sent bytes k =
    if k.tcp_socket_is_valid
    then (
      client_does (sends_client k.socket_fd bytes) k,
      if eq_ℤ sent minus_one then minus_one else leftover,
    )
    else (k, minus_one)
