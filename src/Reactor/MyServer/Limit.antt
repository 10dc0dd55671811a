-- ===== src/Reactor/MyServer/Limit.antt =====
-- The limit on the number of connections.
use network_structure.Prelude.Int.{increment, ltb_ℤ}
use network_structure.Reactor.MyServer.{admit, on_connection}
use network_structure.Reactor.EventLoop.{run_in_loop, queue_in_loop}
use network_structure.Reactor.TcpServer.{Server, on_server}
use network_structure.Reactor.EventLoop.{is_in_loop_thread}
use network_structure.Reactor.World.{Functor}
use network_structure.Reactor.TcpConnection.{
  set_state, shutdown, force_close, conn_shutdown_in_loop, state_of,
}
use network_structure.Reactor.World.{
  World, k_connected, k_disconnecting, force_close_in_loop, shutdown_in_loop,
}
use network_structure.Prelude.{
  ◌≡◌, ℕ, some, true, false, List, [], ◌∷◌, ◌++◌, if◌then◌else◌, Bool, inl, inr, Bool-cases, arith,
  refl,
}

module _ {B : Type 0} where
  -- A connection that comes up beyond the limit.
  pub record Refused (c : ℕ) (w v : World B Server) : Type 0 where
    pub state : state_of v c ≡ k_disconnecting
    pub queued :
        (rest : List Functor) × (v.loop.pending_functors ≡ rest ++ force_close_in_loop c ∷ [])
    pub host : v.server.host ≡ w.server.host
    pub flag : v.server.flag ≡ w.server.flag

  -- One within it: the first of all becomes the host.
  pub record Admitted (c : ℕ) (w v : World B Server) : Type 0 where
    pub state : state_of v c ≡ k_connected
    pub loop : v.loop ≡ w.loop
    pub host : v.server.host ≡ (if w.server.flag then some c else w.server.host)
    pub flag : v.server.flag ≡ false

  abbrev pub Outcome : Bool → ℕ → World B Server → World B Server → Type 0
  Outcome true c w v = Refused c w v
  Outcome false c w v = Admitted c w v

  -- `shutdown` returns, with the connection disconnecting and the server's state as it was.
  shutdown-some :
      (c : ℕ) (w : World B Server)
      → state_of w c ≡ k_connected
      → (v : World B Server) × (shutdown c w ≡ some v)
        × (state_of v c ≡ k_disconnecting)
        × (v.server ≡ w.server)
  unfolding shutdown run_in_loop queue_in_loop conn_shutdown_in_loop
  shutdown-some c w s =
      let u = set_state c k_disconnecting w in
      elim (Bool-cases (is_in_loop_thread u)) [
        | inl h ↦ (conn_shutdown_in_loop c u, rw s (rw h refl), ground arith, ground arith)
        | inr h ↦
            (queue_in_loop (shutdown_in_loop c) u, rw s (rw h refl), ground arith, ground arith)
      ]

  -- `onConnection` of a connection that has come up counts it. Where the count is then beyond
  -- `kMaxConnections_`, the connection is disconnecting and its forced close is the newest functor
  -- that waits, and it does not become the host; otherwise it stays connected, nothing is queued,
  -- and it becomes the host if no connection was before. It never fails.
  pub limit_kept :
      (c : ℕ) (w : World B Server)
      → state_of w c ≡ k_connected
      → (v : World B Server) × (on_connection c w ≡ some v)
        × (v.server.num_connected ≡ increment w.server.num_connected)
        × Outcome (ltb_ℤ w.server.max_connections (increment w.server.num_connected)) c w v
  unfolding on_connection admit force_close queue_in_loop
  limit_kept c w s =
      let u = on_server (λ t. record t { num_connected = increment t.num_connected }) w in
      elim (Bool-cases (ltb_ℤ w.server.max_connections (increment w.server.num_connected))) [
        | inl over ↦
            let (x, e, d, same) = shutdown-some c u s in
            (
              force_close c x,
              rw s (rw over (rw e refl)),
              ground (arith, same),
              rw over (record {
                state = ground (arith, d);
                queued = (x.loop.pending_functors, ground (arith, d));
                host = ground (arith, same);
                flag = ground (arith, same);
              }),
            )
        | inr within ↦ elim (Bool-cases w.server.flag) [
          | inl first ↦ (
            on_server (λ t. record t { flag = false; host = some c }) u,
            rw s (rw within (rw first refl)),
            refl,
            rw within (record { state = s; loop = refl; host = rw first refl; flag = refl }),
          )
          | inr later ↦ (
            u,
            rw s (rw within (rw later refl)),
            refl,
            rw within (record { state = s; loop = refl; host = rw later refl; flag = later }),
          )
        ]
      ]
