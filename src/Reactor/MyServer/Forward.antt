-- ===== src/Reactor/MyServer/Forward.antt =====
-- The callbacks of the server meet what a connection asks of its callbacks.
use network_structure.Prelude.{ℕ, ◌≡◌, inl, inr, Option, some, none, Bool-cases, arith}
use network_structure.Prelude.Int.{increment}
use network_structure.Reactor.Buffer.{BufferOps}
use network_structure.Reactor.World.{World, Env, k_connected}
use network_structure.Reactor.EventLoop.{run_in_loop, queue_in_loop}
use network_structure.Reactor.TcpConnection.{
  shutdown, force_close, conn_shutdown_in_loop, state_of, eq_state,
}
use network_structure.Reactor.TcpConnection.Lifecycle.{
  Leads, Leads-some, Leads-none, Forward, UserForward, send-state,
}
use network_structure.Reactor.TcpServer.{
  Server, on_server, remove_connection, remove_connection_now,
}
use network_structure.Reactor.MyServer.{
  hello, admit, on_connection, on_message, send_hello, my_user,
}

module _ {B : Type 0} where
  admit-Forward : (c : ℕ) (w v : World B Server) → admit c w ≡ some v → Forward w v
  unfolding admit shutdown run_in_loop force_close queue_in_loop conn_shutdown_in_loop
  admit-Forward c w v e = record { ranks = λ d. ground (arith, e) }

  on_connection-Leads : (c : ℕ) (w : World B Server) → Leads w (on_connection c w)
  unfolding on_connection
  on_connection-Leads c w = elim (Bool-cases (eq_state (state_of w c) k_connected)) [
    | inl h ↦ rw h (
        let u = on_server (λ s. record s { num_connected = increment s.num_connected }) w in
        record { goes = λ v e. record { ranks = (admit-Forward c u v e).ranks } })
    | inr h ↦ rw h (Leads-some (record { ranks = λ d. ground arith }))
  ]

  remove_connection-Leads : (c : ℕ) (w : World B Server) → Leads w (remove_connection c w)
  unfolding remove_connection run_in_loop remove_connection_now queue_in_loop
  remove_connection-Leads c w = record { goes = λ v e. record { ranks = λ d. ground (arith, e) } }

  module _ (ops : BufferOps B) (env : Env) where
    send_hello-Leads : (h : Option ℕ) (w : World B Server) → Leads w (send_hello ops env h w)
    unfolding send_hello
    send_hello-Leads none w = Leads-none
    send_hello-Leads (some h) w = elim (Bool-cases (w.expired h)) [
      | inl gone ↦ rw gone Leads-none
      | inr here ↦
          rw here
            (Leads-some (record { ranks = λ d. ground (arith, send-state ops env h d hello w) }))
    ]

    pub my_user-Forward : UserForward (my_user ops env)
    unfolding on_message
    my_user-Forward = record {
      connection = on_connection-Leads;
      message = λ c bytes w. send_hello-Leads w.server.host w;
      close = remove_connection-Leads;
    }
