-- ===== src/Network/Tests.antt =====
-- A server of Network/src/TcpServerSocket.cpp that is started and stopped, and the configuration at
-- 5.
use network_structure.Prelude.{
  ℕ, ◌≡◌, refl, Bool, true, false, none, some, [], ◌∷◌, ◌==◌, if◌then◌else◌,
}
use network_structure.Network.Threads.{starts_and_stops-Threaded, Threaded, starts_and_stops}
use network_structure.Network.Configuration.{unregister_twice}
use network_structure.Network.{
  network_unregister_configuration, none_concurrent, new_network, new_server,
  network_register_configuration, pos, NetServer, unregister_there,
}
use network_structure.TcpServerSocket.{read_end, SocketEnv}
use network_structure.Prelude.Int.{minus_one}

abbrev plain_env : SocketEnv
plain_env = record {
  socket_result = λ cs. pos 3;
  accept_result = λ cs. minus_one;
  send_fails = λ cs. false;
  read_outcome = λ cs. read_end;
  ready = λ cs. [];
}

starts_and_stops-Threaded_example :
    (v : NetServer) × (starts_and_stops true plain_env
        (true ∷ true ∷ false ∷ false ∷ true ∷ [])
        (new_server none_concurrent)
      ≡ some v)
    × Threaded v
starts_and_stops-Threaded_example =
    (starts_and_stops-Threaded plain_env none_concurrent).0
      (true ∷ true ∷ false ∷ false ∷ true ∷ [])

abbrev one_object : ℕ → Bool
one_object q = q == 5

unregister_twice_example :
    (unregister_there (network_register_configuration (some 5) new_network).tcp_socket one_object
      ≡ some (λ q. if q == 5 then false else one_object q))
    × (network_unregister_configuration
          (network_register_configuration (some 5) new_network)
          one_object
        ≡ none)
unregister_twice_example = unregister_twice 5 one_object refl
