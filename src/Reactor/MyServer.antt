-- ===== src/Reactor/MyServer.antt =====
-- Network/src/MyServer.cpp, and the program that the reactor's classes make together: which method
-- each bound callback and functor runs.
pub mod Counted
pub mod Forward
pub mod Limit
pub mod Registry
pub mod Startup
use network_structure.Prelude.{ℕ, false, List, [], ◌∷◌, Option, none, some, if◌then◌else◌, ◌>>=◌}
use network_structure.Prelude.Int.{increment, decrement, ltb_ℤ}
use network_structure.Reactor.Channel.{
  Callback, loop_handle_read, acceptor_handle_read, conn_handle_read, conn_handle_write,
  conn_handle_close, conn_handle_error,
}
use network_structure.Reactor.Buffer.{BufferOps}
use network_structure.Reactor.World.{
  World, Env, k_connected, Functor, acceptor_listen, connect_established, connect_destroyed,
  force_close_in_loop, shutdown_in_loop, remove_connection_in_loop, write_complete, high_water_mark,
}
use network_structure.Reactor.EventLoop.{loop_handle_read as drain_wakeup}
use network_structure.Reactor.TcpConnection.{
  User, eq_state, state_of, shutdown, force_close, send, handle_close, conn_force_close_in_loop,
  conn_shutdown_in_loop, conn_established, conn_destroyed, handle_read, handle_write, handle_error,
}
use network_structure.Reactor.TcpServer.{
  Server, on_server, acceptor_listens, remove_connection, remove_connection_now,
  acceptor_handle_read as accept_ready,
}

-- "hello world!"
abbrev pub hello : List ℕ
hello = 104 ∷ 101 ∷ 108 ∷ 108 ∷ 111 ∷ 32 ∷ 119 ∷ 111 ∷ 114 ∷ 108 ∷ 100 ∷ 33 ∷ []

module _ {B : Type 0} where
  -- What `onConnection` does of a connection that is up, once it is counted.
  unfoldable pub admit : ℕ → World B Server → Option (World B Server)
  admit c w =
      if ltb_ℤ w.server.max_connections w.server.num_connected
      then (shutdown c w >>= λ v. some (force_close c v))
      else some
          (if w.server.flag then on_server (λ s. record s { flag = false; host = some c }) w else w)

  unfoldable pub on_connection : ℕ → World B Server → Option (World B Server)
  on_connection c w =
      if eq_state (state_of w c) k_connected
      then admit c (on_server (λ s. record s { num_connected = increment s.num_connected }) w)
      else some (on_server (λ s. record s { num_connected = decrement s.num_connected }) w)

module _ {B : Type 0} (ops : BufferOps B) (env : Env) where
  -- `guard->send(...)`, where `guard` is null if there is no host or the host is gone.
  unfoldable pub send_hello : Option ℕ → World B Server → Option (World B Server)
  send_hello none w = none
  send_hello (some h) w = if w.expired h then none else some (send ops env h hello w)

  unfoldable pub on_message : ℕ → List ℕ → World B Server → Option (World B Server)
  unfolding send_hello
  on_message c bytes w = send_hello w.server.host w

  -- The callbacks that `MyServer` and `TcpServer` set.
  abbrev pub my_user : User B Server
  my_user = record {
    connection_callback = on_connection;
    message_callback = on_message;
    close_callback = remove_connection;
  }

  module _ (digits : ℕ → List ℕ) where
    -- A callback of a channel.
    unfoldable pub run_callback : Callback → World B Server → Option (World B Server)
    run_callback loop_handle_read w = some (drain_wakeup w)
    run_callback acceptor_handle_read w = accept_ready ops digits my_user env w
    run_callback (conn_handle_read c) w = handle_read env my_user c w
    run_callback (conn_handle_write c) w = some (handle_write ops env c w)
    run_callback (conn_handle_close c) w = handle_close my_user c w
    run_callback (conn_handle_error c) w = some (handle_error c w)

    -- A functor. The server sets no callback of the last two kinds, so neither is queued.
    unfoldable pub run_functor : Functor → World B Server → Option (World B Server)
    run_functor acceptor_listen w = some (acceptor_listens w)
    run_functor (connect_established c) w = conn_established my_user c w
    run_functor (connect_destroyed c) w = conn_destroyed my_user c w
    run_functor (force_close_in_loop c) w = conn_force_close_in_loop my_user c w
    run_functor (shutdown_in_loop c) w = some (conn_shutdown_in_loop c w)
    run_functor (remove_connection_in_loop c) w = some (remove_connection_now c w)
    run_functor (write_complete c) w = none
    run_functor (high_water_mark c n) w = none
