-- ===== src/Reactor/Tests/Registry.antt =====
-- The theorems of the registry at concrete data: a server that takes up two clients in two rounds.
use network_structure.Prelude.{
  ℕ, ◌≡◌, refl, ap, ◌⊎◌, inl, inr, true, false, none, some, List, [], ◌∷◌, arith, ◌==◌,
  if◌then◌else◌, Bool-cases, lookup, insert,
}
use network_structure.Reactor.TcpServer.{
  remove_connection, acceptor_handle_read as accept_ready, accepted_conn, new_connection,
  acceptor_listens, Server,
}
use network_structure.Reactor.TcpConnection.{
  conn_force_close_in_loop, conn_shutdown_in_loop, shutdown, force_close, handle_close,
  conn_established, state_of,
}
use network_structure.Reactor.EventLoop.{is_in_loop_thread, handle_event, run_in_loop, loopthread}
use network_structure.Prelude.Int.{ℤ, pos}
use network_structure.Reactor.MyServer.Registry.Kept.{
  erased_when_closed, Starts-Right, happen-Step, registered_while_open, Starts,
}
use network_structure.Reactor.MyServer.Registry.{removals, is_among, Step, registry, is_open}
use network_structure.Reactor.MyServer.Counted.Histories.{calls, happen}
use network_structure.Reactor.Poller.{poll, set_events}
use network_structure.Reactor.MyServer.{admit, on_connection, run_functor, run_callback}
use network_structure.Reactor.Channel.{Callback, none_event, new_channel, Channel}
use network_structure.Reactor.MyServer.Registry.Table.{find_conn}
use network_structure.Reactor.Fixtures.{test_server, test_loop, test_gone, list_buffer, test_env}
use network_structure.Reactor.World.{acceptor_listen, Env, World}
use network_structure.Reactor.MyServer.Registry.Text.{PrintsIds}

-- The listening channel has something to read in every round.
abbrev busy_env : Env
busy_env = record test_env {
  wait_result = λ cs. some ((5, record none_event { epollin = true }) ∷ []);
}

abbrev listening : ℕ → Channel
listening p =
    if p == 5
    then record (new_channel 5) { read_callback = some Callback.acceptor_handle_read }
    else new_channel p

abbrev one_digit : ℕ → List ℕ
one_digit i = i ∷ []

-- The next connection is made at 200, and the loop runs in thread 2.
abbrev at_start : ℤ → World (List ℕ) Server
at_start max = record test_gone {
  loop = record test_loop { pending_functors = acceptor_listen ∷ [] };
  poller = record { heap = listening; channel_map = []; events_size = 16; calls = [] };
  server = record test_server { fresh = 200; max_connections = max };
  current = 2;
}

at_start-Starts : (max : ℤ) → Starts one_digit 200 (at_start max)
at_start-Starts max = record {
  vacant = refl;
  at_base = refl;
  zero_connected = refl;
  idle = λ d l. refl;
  wires = λ p. elim (Bool-cases (p == 5)) [
    | inl h ↦ rw h (omega arith, (omega arith, (omega arith, (omega arith, tt))))
    | inr h ↦ rw h (omega arith, (omega arith, (omega arith, (omega arith, tt))))
  ];
  waits = (omega arith, tt);
}

one_digit-PrintsIds : PrintsIds one_digit (49 ∷ []) 9
one_digit-PrintsIds = record {
  differ = λ i j a b e. ap (λ l. elim l [ [] ↦ 0 | (x ∷ xs) ↦ x ]) e;
  fits = λ i l. omega arith;
}

abbrev after_rounds : ℤ → ℕ → World (List ℕ) Server
after_rounds max n =
    elim (loopthread busy_env (run_callback list_buffer busy_env one_digit)
      (run_functor list_buffer busy_env one_digit) n (at_start max)) [
        | none ↦ at_start max
        | some v ↦ v
      ]

-- Two clients are taken up, and both fit.
abbrev with_two : World (List ℕ) Server
with_two = after_rounds (pos 2) 2

two_rounds_return :
    loopthread busy_env
      (run_callback list_buffer busy_env one_digit)
      (run_functor list_buffer busy_env one_digit)
      2
      (at_start (pos 2))
    ≡ some with_two
unfolding loopthread run_callback run_functor poll handle_event accept_ready accepted_conn
    new_connection run_in_loop conn_established on_connection admit set_events lookup
    acceptor_listens insert
two_rounds_return = refl

two_made :
    (with_two.server.next_conn_id ≡ 3)
    × (with_two.server.fresh ≡ 202)
    × (is_open (state_of with_two 201) ≡ true)
unfolding loopthread run_callback run_functor poll handle_event accept_ready accepted_conn
    new_connection run_in_loop conn_established on_connection admit set_events lookup
    acceptor_listens insert
two_made = (refl, refl, refl)

registered_while_open_example :
    find_conn (with_two.conns 201).name with_two.server.connections ≡ some 201
registered_while_open_example =
    registered_while_open list_buffer busy_env one_digit 200 9 (at_start (pos 2)) with_two 2
      (at_start-Starts (pos 2)) one_digit-PrintsIds two_rounds_return 201 (omega (arith, two_made))
      (omega arith) (omega (arith, two_made)) two_made.2

-- No client is allowed: each is forced to close in the next round.
abbrev refused : World (List ℕ) Server
refused = after_rounds (pos 0) 2

refused_return :
    loopthread busy_env
      (run_callback list_buffer busy_env one_digit)
      (run_functor list_buffer busy_env one_digit)
      2
      (at_start (pos 0))
    ≡ some refused
unfolding loopthread run_callback run_functor poll handle_event accept_ready accepted_conn
    new_connection run_in_loop conn_established on_connection admit set_events lookup
    acceptor_listens insert shutdown force_close conn_force_close_in_loop conn_shutdown_in_loop
    handle_close remove_connection
refused_return = refl

one_closed :
    (refused.server.next_conn_id ≡ 3)
    × (refused.server.fresh ≡ 202)
    × (is_open (state_of refused 200) ≡ false)
unfolding loopthread run_callback run_functor poll handle_event accept_ready accepted_conn
    new_connection run_in_loop conn_established on_connection admit set_events lookup
    acceptor_listens insert shutdown force_close conn_force_close_in_loop conn_shutdown_in_loop
    handle_close remove_connection
one_closed = (refl, refl, refl)

erased_when_closed_example :
    (find_conn (refused.conns 200).name refused.server.connections ≡ none)
    ⊎ ((is_among 200 (removals refused.loop.pending_functors) ≡ true)
        × (is_in_loop_thread refused ≡ false))
erased_when_closed_example =
    erased_when_closed list_buffer busy_env one_digit 200 9 (at_start (pos 0)) refused 2
      (at_start-Starts (pos 0)) one_digit-PrintsIds refused_return 200 (omega (arith, one_closed))
      (omega arith) (omega (arith, one_closed)) one_closed.2

-- One client is taken up.
abbrev with_one : World (List ℕ) Server
with_one =
    elim (happen list_buffer busy_env one_digit (calls Callback.acceptor_handle_read)
      (at_start (pos 2))) [ none ↦ at_start (pos 2) | some v ↦ v ]

client_returns :
    happen list_buffer busy_env one_digit (calls Callback.acceptor_handle_read) (at_start (pos 2))
    ≡ some with_one
unfolding happen loopthread run_callback run_functor poll handle_event accept_ready accepted_conn
    new_connection run_in_loop conn_established on_connection admit set_events lookup
    acceptor_listens insert
client_returns = refl

happen-Step_example :
    Step 200 (registry one_digit (at_start (pos 2))) [] (registry one_digit with_one)
happen-Step_example =
    happen-Step list_buffer busy_env one_digit 200 9 (at_start (pos 2)) with_one
      (calls Callback.acceptor_handle_read) []
      (Starts-Right list_buffer busy_env one_digit 200 9 (at_start (pos 2)) (at_start (pos 2))
        (at_start-Starts (pos 2)) one_digit-PrintsIds)
      (omega arith) client_returns
