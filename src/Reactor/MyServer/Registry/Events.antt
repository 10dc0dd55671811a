-- ===== src/Reactor/MyServer/Registry/Events.antt =====
-- Each callback and each functor of the program makes one step of the registry.
use network_structure.Reactor.EventLoop.{
  queue_in_loop, run_in_loop, is_in_loop_thread, loop_handle_read as drain_wakeup,
}
use network_structure.Reactor.MyServer.Registry.Moves.{
  removal-Move, Move, Move-Quiet, Quiet-Move, step-Move, established-Quiet, handle_close-Move,
}
use network_structure.Reactor.MyServer.Registry.Quiet.{
  queue-Quiet, Quiet-trans, Quiet-refl, Quiet, send-Quiet, handle_write-Quiet, call-Quiet,
  remove-Quiet, events-Quiet, conn_shutdown-Quiet, Registry-ext,
}
use network_structure.Reactor.MyServer.Registry.{
  removal, opens, registry, opened, IsConn, Ready, Names,
}
use network_structure.Reactor.Channel.{
  Callback, loop_handle_read, acceptor_handle_read, conn_handle_read, conn_handle_write,
  conn_handle_close, conn_handle_error, with_read,
}
use network_structure.Reactor.Poller.{Syscall, close, read, accept, listen, remove}
use network_structure.Reactor.TcpServer.{
  Server, make_connection, new_connection, accepted_conn, acceptor_listens,
  acceptor_handle_read as accept_ready,
}
use network_structure.Reactor.MyServer.{
  my_user, hello, send_hello, on_message, run_callback, run_functor, accept_ready, drain_wakeup,
}
use network_structure.Reactor.TcpConnection.{
  construct, after_read, handle_read, handle_error, send, state_of, is_up, conn_force_close_in_loop,
  conn_destroyed,
}
use network_structure.Reactor.World.{
  acceptor_listen, connect_established, connect_destroyed, force_close_in_loop, shutdown_in_loop,
  remove_connection_in_loop, write_complete, high_water_mark, on_poller, World, Env, Functor, call,
  fd_of, ReadResult, received, read_failed,
}
use network_structure.Reactor.Buffer.{BufferOps}
use network_structure.Prelude.{
  ℕ, ◌≤◌, ◌≡◌, refl, subst, inl, inr, Option, none, some, List, [], ◌∷◌, arith, Bool-cases,
  from_some,
}

module _ {B : Type 0} (base : ℕ) (ops : BufferOps B) (env : Env) (digits : ℕ → List ℕ) where
  make_connection-Move :
      (fd : ℕ) (w : World B Server)
      → Move base digits [] w (make_connection ops digits (my_user ops env) fd w)
  unfolding make_connection construct
  make_connection-Move fd w =
      let u = make_connection ops digits (my_user ops env) fd w in
      let same : registry digits u ≡ opened (registry digits w) =
        Registry-ext _ _ (λ d. ground arith) (λ d. ground arith) refl refl (λ i. refl) refl refl
          refl (λ p. ground arith) in
      step-Move base digits (opened (registry digits w)) opens same refl

  new_connection-Move :
      (fd : ℕ) (w v : World B Server)
      → base ≤ w.server.fresh
      → new_connection ops digits (my_user ops env) fd w ≡ some v
      → Move base digits [] w v
  unfolding new_connection make_connection construct run_in_loop
  new_connection-Move fd w v b e =
      let u = make_connection ops digits (my_user ops env) fd w in
      let i : IsConn base (registry digits u) w.server.fresh = (b, ground arith) in
      elim (Bool-cases (is_in_loop_thread w)) [
        | inl l ↦
            Move-Quiet base digits (make_connection-Move fd w)
              (established-Quiet base digits ops env w.server.fresh u v i (ground (arith, l, e)))
        | inr l ↦
            let f = connect_established w.server.fresh in
            let eq : some (queue_in_loop f u) ≡ some v = ground (arith, l, e) in
            subst (Move base digits [] w) (from_some eq) (
              Move-Quiet base digits (make_connection-Move fd w)
                (queue-Quiet base digits f u refl i))
      ]

  accepted-Move :
      (r : Option ℕ) (w v : World B Server)
      → base ≤ w.server.fresh
      → accepted_conn ops digits (my_user ops env) r w ≡ some v
      → Move base digits [] w v
  unfolding accepted_conn
  accepted-Move none w v b e =
      subst (Move base digits [] w) (from_some e)
        (Quiet-Move base digits (Quiet-refl base digits w))
  accepted-Move (some fd) w v b e = elim (Bool-cases w.server.has_new_connection_callback) [
    | inl h ↦ new_connection-Move fd w v b (ground (arith, h, e))
    | inr h ↦
        let eq : some (call (close fd) w) ≡ some v = ground (arith, h, e) in
        subst (Move base digits [] w) (from_some eq)
          (Quiet-Move base digits (call-Quiet base digits (close fd) w))
  ]

  send_hello-Quiet :
      (h : Option ℕ) (w v : World B Server)
      → send_hello ops env h w ≡ some v
      → Quiet base digits w v
  unfolding send_hello
  send_hello-Quiet none w v e = ground (arith, e)
  send_hello-Quiet (some h) w v e = elim (Bool-cases (w.expired h)) [
    | inl gone ↦ ground (arith, gone, e)
    | inr here ↦
        let eq : some (send ops env h hello w) ≡ some v = ground (arith, here, e) in
        subst (Quiet base digits w) (from_some eq) (send-Quiet base digits ops env h hello w)
  ]

  read-Move :
      (c : ℕ) (r : ReadResult) (w v : World B Server)
      → IsConn base (registry digits w) c
      → after_read env (my_user ops env) c r w ≡ some v
      → Move base digits [] w v
  unfolding after_read handle_error on_message
  read-Move c (received []) w v i e = handle_close-Move base digits ops env c w v i e
  read-Move c (received (x ∷ xs)) w v i e =
      Quiet-Move base digits (send_hello-Quiet w.server.host w v e)
  read-Move c (read_failed r) w v i e =
      subst (Move base digits [] w) (from_some e)
        (Quiet-Move base digits (Quiet-refl base digits w))

  module _ (w v : World B Server) (b : base ≤ w.server.fresh) where
    -- What a move does from a world that has the same registry and functors as `w`.
    after_call : (s : Syscall) → Move base digits [] (call s w) v → Move base digits [] w v
    after_call s m = record { step = m.step; waits = m.waits }

    pub callback-Move :
        (cb : Callback)
        → Names base (registry digits w) cb
        → run_callback ops env digits cb w ≡ some v
        → Move base digits [] w v
    unfolding run_callback drain_wakeup accept_ready handle_read handle_error
    callback-Move loop_handle_read n e =
        subst (Move base digits [] w) (from_some e)
          (Quiet-Move base digits (call-Quiet base digits (read w.loop.wakeup_fd 8) w))
    callback-Move acceptor_handle_read n e =
        let s = accept w.server.accept_socket in
        let u = call s w in after_call s (accepted-Move (env.accept_result u.poller.calls) u v b e)
    callback-Move (conn_handle_read c) n e =
        let s = read (fd_of w c) 1024 in
        let u = call s w in after_call s (read-Move c (env.read_result u.poller.calls) u v n e)
    callback-Move (conn_handle_write c) n e =
        subst (Move base digits [] w) (from_some e)
          (Quiet-Move base digits (handle_write-Quiet base digits ops env c w))
    callback-Move (conn_handle_close c) n e = handle_close-Move base digits ops env c w v n e
    callback-Move (conn_handle_error c) n e =
        subst (Move base digits [] w) (from_some e)
          (Quiet-Move base digits (Quiet-refl base digits w))

    pub functor-Move :
        (f : Functor)
        → Ready base (registry digits w) f
        → run_functor ops env digits f w ≡ some v
        → Move base digits (removal f) w v
    unfolding run_functor acceptor_listens conn_force_close_in_loop conn_destroyed
    functor-Move acceptor_listen n e =
        let s = listen w.server.accept_socket in
        subst (Move base digits [] w) (from_some e) (
          Quiet-Move base digits (
            Quiet-trans base digits (call-Quiet base digits s w)
              (events-Quiet base digits w.server.accept_channel with_read (call s w))))
    functor-Move (connect_established c) n e =
        Quiet-Move base digits (established-Quiet base digits ops env c w v n e)
    functor-Move (connect_destroyed c) n e =
        let p = (w.conns c).channel in
        let eq : some (on_poller (remove p) w) ≡ some v = ground (arith, n.1, e) in
        subst (Move base digits [] w) (from_some eq)
          (Quiet-Move base digits (remove-Quiet base digits p w))
    functor-Move (force_close_in_loop c) n e = elim (Bool-cases (is_up (state_of w c))) [
      | inl h ↦ handle_close-Move base digits ops env c w v n (ground (arith, h, e))
      | inr h ↦
          let eq : some w ≡ some v = ground (arith, h, e) in
          subst (Move base digits [] w) (from_some eq)
            (Quiet-Move base digits (Quiet-refl base digits w))
    ]
    functor-Move (shutdown_in_loop c) n e =
        subst (Move base digits [] w) (from_some e)
          (Quiet-Move base digits (conn_shutdown-Quiet base digits c w))
    functor-Move (remove_connection_in_loop c) (i, a, l) e =
        subst (Move base digits (c ∷ []) w) (from_some e) (removal-Move base digits c w i a)
    functor-Move (write_complete c) n e = ground (arith, e)
    functor-Move (high_water_mark c n) h e = ground (arith, e)
