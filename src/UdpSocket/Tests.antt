-- ===== src/UdpSocket/Tests.antt =====
-- The server of datagrams at concrete data: a datagram, a time out and an empty datagram.
use network_structure.UdpSocket.{
  hello_world, timed_out, datagram, run_udp, sends_to, receives, binds, sets_broadcast,
}
use network_structure.Prelude.Int.{pos}
use network_structure.Prelude.{◌≡◌, refl, none, some, [], ◌∷◌}

-- The caller of PollTest goes on.
answered :
    run_udp (λ cs. some (pos 5)) (datagram 7 (1 ∷ 2 ∷ []) ∷ timed_out ∷ datagram 8 [] ∷ []) []
    ≡ some (receives 1024 ∷ sends_to 7 hello_world ∷ receives 1024 ∷ binds ∷ sets_broadcast 0 ∷ [])
unfolding run_udp
answered = refl

-- It does not.
undefined_end : run_udp (λ cs. none) (timed_out ∷ []) [] ≡ none
unfolding run_udp
undefined_end = refl
