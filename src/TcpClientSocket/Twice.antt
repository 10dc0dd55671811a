-- ===== src/TcpClientSocket/Twice.antt =====
-- The descriptor of a client that is closed and then destroyed.
use network_structure.TcpClientSocket.{
  sends_client, reads_client, makes_client, closes_client, client_socket_write, client_socket_read,
  new_client_socket, close_client, destroy_client,
}
use network_structure.Prelude.Int.{minus_one, ℤ}
use network_structure.Prelude.{ℕ, ◌≡◌, refl, List, [], ◌∷◌}

-- A client that is closed and then destroyed closes its descriptor twice, and one whose socket could
-- not be made is read and written to at descriptor -1 as if it had one.
pub close_client-twice :
    (result read leftover sent : ℤ) (len : ℕ) (bytes : List ℕ)
    → ((destroy_client (close_client (new_client_socket result))).client_calls
        ≡ closes_client result ∷ closes_client result ∷ makes_client ∷ [])
      × ((client_socket_read read len (new_client_socket minus_one)).0.client_calls
          ≡ reads_client minus_one len ∷ makes_client ∷ [])
      × ((client_socket_write leftover sent bytes (new_client_socket minus_one)).0.client_calls
          ≡ sends_client minus_one bytes ∷ makes_client ∷ [])
unfolding destroy_client close_client new_client_socket client_socket_read client_socket_write
close_client-twice result read leftover sent len bytes = (refl, refl, refl)
