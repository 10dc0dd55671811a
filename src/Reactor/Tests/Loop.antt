-- ===== src/Reactor/Tests/Loop.antt =====
-- `loopthread` of Network/src/EventLoop.cpp with a functor that ends it.
use network_structure.Reactor.EventLoop.Quit.{quit_discarded}
use network_structure.Reactor.EventLoop.{
  is_in_loop_thread, quit_loop, wakeup, queue_in_loop, loopthread,
}
use network_structure.Reactor.Fixtures.{test_world, test_env}
use network_structure.Prelude.{ℕ, ◌≡◌, Option, some, List, if◌then◌else◌}
use network_structure.Reactor.World.{write_complete, Functor, World}
use network_structure.Reactor.TcpServer.{Server}
use network_structure.Reactor.Channel.{Callback}

abbrev quits : Functor → World (List ℕ) Server → Option (World (List ℕ) Server)
quits f w = some (quit_loop w)

abbrev wake : Callback → World (List ℕ) Server → Option (World (List ℕ) Server)
wake cb w = some (wakeup w)

abbrev waiting : World (List ℕ) Server
waiting = queue_in_loop (write_complete 0) test_world

quit_discarded_example :
    loopthread test_env wake quits 3 (quit_loop waiting)
    ≡ loopthread test_env wake quits 3
        (if is_in_loop_thread waiting then waiting else wakeup waiting)
quit_discarded_example = quit_discarded test_env wake quits 3 waiting
