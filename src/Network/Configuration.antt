-- ===== src/Network/Configuration.antt =====
-- The configuration that Network/src/Network.cpp registers with each of its servers.
use network_structure.Prelude.{
  ℕ, ◌≡◌, refl, Bool, true, false, none, some, arith, ◌==◌, if◌then◌else◌,
}
use network_structure.Network.{
  unregister_there, new_network, network_register_configuration, network_unregister_configuration,
}

-- A configuration in memory that a new `Network` is given is deleted by the UnRegisterConfiguration
-- of its first server, and again by that of its second, which is undefined.
pub unregister_twice :
    (p : ℕ) (memory : ℕ → Bool)
    → memory p ≡ true
    → (unregister_there (network_register_configuration (some p) new_network).tcp_socket memory
        ≡ some (λ q. if q == p then false else memory q))
      × (network_unregister_configuration
            (network_register_configuration (some p) new_network)
            memory
          ≡ none)
unfolding network_unregister_configuration network_register_configuration new_network
unregister_twice p memory h =
    let t : (p == p) ≡ true = ground arith in (rw h refl, rw h (rw t refl))
