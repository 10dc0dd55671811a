-- ===== src/Reactor/Tests/Servers.antt =====
-- The theorems of the server, the loop and the poller at concrete data.
use network_structure.Prelude.{insert}
use network_structure.Prelude.{lookup}
use network_structure.Reactor.EventLoop.{run_in_loop}
use network_structure.Reactor.TcpServer.{accepted_conn, new_connection}
use network_structure.Reactor.TcpConnection.{conn_established, construct, shutdown}
use network_structure.Reactor.MyServer.{admit}
use network_structure.Prelude.{ℕ, ◌≤◌, ◌≡◌, refl, none, some, List, [], ◌∷◌, arith, lookup, insert}
use network_structure.Prelude.Int.{pos}
use network_structure.Reactor.Fixtures.{
  list_buffer, test_env, function_epoll, test_heap, test_world, test_gone,
}
use network_structure.Reactor.World.{World}
use network_structure.Reactor.Channel.{with_read, acceptor_handle_read, c_added}
use network_structure.Reactor.TcpServer.{Server, acceptor_handle_read as accept_ready}
use network_structure.Reactor.TcpConnection.{state_of, force_close, handle_close}
use network_structure.Reactor.TcpConnection.Lifecycle.{rank}
use network_structure.Reactor.TcpConnection.Lifecycle.Closed.{
  forces, hung_up, make, make_all, states_go_forward,
}
use network_structure.Reactor.MyServer.{my_user, on_connection, run_callback}
use network_structure.Reactor.MyServer.Forward.{my_user-Forward}
use network_structure.Reactor.MyServer.Limit.{limit_kept, Refused}
use network_structure.Reactor.MyServer.Counted.{ups}
use network_structure.Reactor.MyServer.Counted.Histories.{
  calls, happen, starts, goes, Reaches-Counted,
}
use network_structure.Reactor.Poller.{
  Poller, apply, set_events, run, new_poller, reading_on, all_off, removed, disable_all,
}
use network_structure.Reactor.Poller.Synced.{Synced, OwnsFd}
use network_structure.Reactor.Poller.Histories.{HasDistinctFds, run-new_poller-Synced}
use network_structure.Reactor.Poller.Deleted.{set_events_all, reenable_ignored}

distinct : HasDistinctFds test_heap
distinct p q e = e

run-new_poller-Synced_example :
    Synced function_epoll (run (reading_on 3 ∷ all_off 3 ∷ removed 3 ∷ []) (new_poller test_heap))
run-new_poller-Synced_example =
    run-new_poller-Synced function_epoll test_heap (λ p. refl) distinct
      (reading_on 3 ∷ all_off 3 ∷ removed 3 ∷ [])

-- A poller with one channel that reads.
abbrev reading_three : Poller
reading_three = run (reading_on 3 ∷ []) (new_poller test_heap)

three-OwnsFd : OwnsFd reading_three 3
unfolding run apply new_poller set_events lookup insert
three-OwnsFd q e = ground (arith, e)

three_added : (reading_three.heap 3).index ≡ c_added
unfolding run apply new_poller set_events lookup
three_added = refl

reenable_ignored_example :
    (set_events_all 3 (with_read ∷ []) (disable_all 3 reading_three)).calls
    ≡ (disable_all 3 reading_three).calls
reenable_ignored_example =
    (reenable_ignored function_epoll 3 reading_three
      (run-new_poller-Synced function_epoll test_heap (λ p. refl) distinct (reading_on 3 ∷ []))
      three-OwnsFd three_added (with_read ∷ [])).0

gone_returns :
    make_all list_buffer test_env
      (my_user list_buffer test_env)
      ((forces, 0) ∷ (hung_up, 0) ∷ [])
      test_gone
    ≡ some test_gone
unfolding make_all make force_close handle_close
gone_returns = refl

-- The connections after the forced close of the one at 0.
abbrev forced : World (List ℕ) Server
forced = force_close 0 test_world

forced_returns :
    make_all list_buffer test_env (my_user list_buffer test_env) ((forces, 0) ∷ []) test_world
    ≡ some forced
unfolding make_all make
forced_returns = refl

states_go_forward_example : rank (state_of test_world 0) ≤ rank (state_of forced 0)
states_go_forward_example =
    states_go_forward list_buffer test_env (my_user list_buffer test_env)
      (my_user-Forward list_buffer test_env) ((forces, 0) ∷ []) test_world forced forced_returns 0

limit_kept_example :
    (v : World (List ℕ) Server) × (on_connection 0 test_world ≡ some v)
    × (v.server.num_connected ≡ pos 1)
    × Refused 0 test_world v
limit_kept_example = limit_kept 0 test_world refl

-- A connection is accepted.
abbrev no_digits : ℕ → List ℕ
no_digits n = []

abbrev one_more : World (List ℕ) Server
one_more = elim (run_callback list_buffer test_env no_digits acceptor_handle_read test_world) [
  | none ↦ test_world
  | some v ↦ v
]

accepts :
    happen list_buffer test_env no_digits (calls acceptor_handle_read) test_world ≡ some one_more
unfolding happen run_callback accept_ready accepted_conn new_connection run_in_loop conn_established
    on_connection admit shutdown construct
accepts = refl

Reaches-Counted_example :
    one_more.server.num_connected ≡ pos (ups one_more.server.fresh (state_of one_more))
Reaches-Counted_example =
    Reaches-Counted list_buffer test_env no_digits test_world one_more (record { count = refl })
      (goes test_world one_more (calls acceptor_handle_read) starts (ground arith) accepts)
