-- ===== src/Reactor/Tests.antt =====
-- The theorems of the reactor at concrete data.
mod Servers
mod Loop
mod Registry
use network_structure.Prelude.{ℕ, ◌≡◌, refl, ◌≢◌, List, [], ◌∷◌, ◌++◌, arith}
use network_structure.Reactor.TcpConnection.{conn_shutdown_in_loop}
use network_structure.Reactor.Fixtures.{list_buffer, test_env, test_env-WritesFit, test_world}
use network_structure.Reactor.World.{fd_of}
use network_structure.Reactor.TcpConnection.Interest.{Interest}
use network_structure.Reactor.TcpConnection.Transcript.{sends, writable, run, offered, run-stream}
use network_structure.Reactor.TcpConnection.Stream.{stream}
use network_structure.Reactor.TcpConnection.Shutdown.{half_closes, half_close_after_data}

-- Five bytes, three at a time.
abbrev five : List ℕ
five = 1 ∷ 2 ∷ 3 ∷ 4 ∷ 5 ∷ []

apart : test_world.loop.wakeup_fd ≢ fd_of test_world 0
apart = ground arith

idle : Interest list_buffer 0 test_world
idle = record { writing = refl; apart = apart }

run-stream_example :
    stream list_buffer test_env
      (run list_buffer test_env 0 (sends five ∷ writable ∷ []) test_world)
      0
    ≡ stream list_buffer test_env test_world 0
      ++ offered list_buffer test_env 0 (sends five ∷ writable ∷ []) test_world
run-stream_example =
    (run-stream list_buffer test_env 0 test_env-WritesFit (sends five ∷ writable ∷ []) test_world
      idle).0

half_close_after_data_example : half_closes (conn_shutdown_in_loop 0 test_world).poller.calls ≡ 1
half_close_after_data_example = (half_close_after_data 0 list_buffer test_env test_world idle).0
