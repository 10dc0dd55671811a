-- ===== src/Reactor/MyServer/Counted/Histories.antt =====
-- The count over every history of the program.
use network_structure.Prelude.{
  ℕ, ◌≤◌, ◌<◌, ◌≡◌, refl, ap, ◌∙◌, subst, inl, inr, Option, none, some, List, [], ◌∷◌, arith,
  Bool-cases, from_some,
}
use network_structure.Prelude.Int.{pos}
use network_structure.Reactor.Channel.{
  Callback, loop_handle_read, acceptor_handle_read, conn_handle_read, conn_handle_write,
  conn_handle_close, conn_handle_error,
}
use network_structure.Reactor.MyServer.{
  hello, send_hello, on_message, my_user, run_callback, run_functor,
}
use network_structure.Reactor.EventLoop.{
  is_in_loop_thread, run_in_loop, queue_in_loop, loop_handle_read as drain_wakeup,
}
use network_structure.Reactor.TcpServer.{
  Server, remove_connection_now, acceptor_listens, make_connection, new_connection, accepted_conn,
  acceptor_handle_read as accept_ready,
}
use network_structure.Reactor.TcpConnection.{
  construct, conn_shutdown_in_loop, handle_read, after_read, handle_error, handle_write, send,
  state_of, is_up,
}
use network_structure.Reactor.TcpConnection.Lifecycle.{send-state, handle_write-state}
use network_structure.Reactor.TcpConnection.Lifecycle.Server.{send-server, handle_write-server}
use network_structure.Reactor.MyServer.Counted.{ups, ups-cong, Counted, Same, Same-Counted}
use network_structure.Reactor.MyServer.Counted.Moves.{
  established-Counted, handle_close-Counted, force_close-Counted, destroyed-Counted,
}
use network_structure.Reactor.Poller.{Syscall, accept, read, close}
use network_structure.Reactor.World.{
  World, Env, call, fd_of, ReadResult, received, read_failed, Functor, acceptor_listen,
  connect_established, connect_destroyed, force_close_in_loop, shutdown_in_loop,
  remove_connection_in_loop, write_complete, high_water_mark,
}
use network_structure.Reactor.Buffer.{BufferOps}

-- One callback of a channel or one functor.
pub data Event : Type 0 where
  calls : Callback → Event
  takes : Functor → Event

-- The event's connection, if it has one, has been made.
abbrev pub IsMade : ℕ → Event → Type 0
IsMade n (calls (conn_handle_read c)) = c < n
IsMade n (calls (conn_handle_write c)) = c < n
IsMade n (calls (conn_handle_close c)) = c < n
IsMade n (calls (conn_handle_error c)) = c < n
IsMade n (takes (connect_established c)) = c < n
IsMade n (takes (connect_destroyed c)) = c < n
IsMade n (takes (force_close_in_loop c)) = c < n
IsMade n (takes (shutdown_in_loop c)) = c < n
IsMade n (takes (remove_connection_in_loop c)) = c < n
IsMade n _ = 0 ≤ n

module _ {B : Type 0} (ops : BufferOps B) (env : Env) (digits : ℕ → List ℕ) where
  send-Same : (c : ℕ) (bytes : List ℕ) (w : World B Server) → Same w (send ops env c bytes w)
  send-Same c bytes w = record {
    states = λ d. ap is_up (send-state ops env c d bytes w);
    fresh = ap (λ s. s.fresh) (send-server ops env c bytes w);
    num = ap (λ s. s.num_connected) (send-server ops env c bytes w);
  }

  handle_write-Same : (c : ℕ) (w : World B Server) → Same w (handle_write ops env c w)
  handle_write-Same c w = record {
    states = λ d. ap is_up (handle_write-state ops env c d w);
    fresh = ap (λ s. s.fresh) (handle_write-server ops env c w);
    num = ap (λ s. s.num_connected) (handle_write-server ops env c w);
  }

  call-Same : (s : Syscall) (w : World B Server) → Same w (call s w)
  call-Same s w = record { states = λ d. refl; fresh = refl; num = refl }

  send_hello-Same :
      (h : Option ℕ) (w v : World B Server) → send_hello ops env h w ≡ some v → Same w v
  unfolding send_hello
  send_hello-Same none w v e = ground (arith, e)
  send_hello-Same (some h) w v e = elim (Bool-cases (w.expired h)) [
    | inl gone ↦ ground (arith, gone, e)
    | inr here ↦ subst (Same w) (from_some (ground (arith, here, e))) (send-Same h hello w)
  ]

  read-Counted :
      (c : ℕ) (r : ReadResult) (w v : World B Server)
      → Counted w
      → c < w.server.fresh
      → after_read env (my_user ops env) c r w ≡ some v
      → Counted v
  unfolding after_read handle_error on_message
  read-Counted c (received []) w v i l e = handle_close-Counted ops env c w v i l e
  read-Counted c (received (x ∷ xs)) w v i l e =
      Same-Counted (send_hello-Same w.server.host w v e) i
  read-Counted c (read_failed r) w v i l e = subst Counted (from_some e) i

  new_connection-Counted :
      (fd : ℕ) (w v : World B Server)
      → Counted w
      → new_connection ops digits (my_user ops env) fd w ≡ some v
      → Counted v
  unfolding new_connection make_connection construct run_in_loop queue_in_loop
  new_connection-Counted fd w v i e =
      let c = w.server.fresh in
      let u = make_connection ops digits (my_user ops env) fd w in
      let same = ups-cong c (state_of w) (state_of u) (λ d l. ground (arith, l)) in
      let made : Counted u = record { count = i.count ∙ ap pos (ground (arith, same)) } in
      elim (Bool-cases (is_in_loop_thread u)) [
        | inl h ↦ established-Counted ops env c u v made (ground arith) (ground (arith, h, e))
        | inr h ↦
            let q = queue_in_loop (connect_established c) u in
            let eq : some q ≡ some v = ground (arith, h, e) in
            subst Counted (from_some eq) (
              Same-Counted {w = u}
                (record { states = λ d. ground arith; fresh = ground arith; num = ground arith })
                made)
      ]

  accepted-Counted :
      (r : Option ℕ) (w v : World B Server)
      → Counted w
      → accepted_conn ops digits (my_user ops env) r w ≡ some v
      → Counted v
  unfolding accepted_conn
  accepted-Counted none w v i e = subst Counted (from_some e) i
  accepted-Counted (some fd) w v i e = elim (Bool-cases w.server.has_new_connection_callback) [
    | inl h ↦ new_connection-Counted fd w v i (ground (arith, h, e))
    | inr h ↦
        let eq : some (call (close fd) w) ≡ some v = ground (arith, h, e) in
        subst Counted (from_some eq) (Same-Counted (call-Same (close fd) w) i)
  ]

  module _ (w v : World B Server) (i : Counted w) where
    pub calls-Counted :
        (cb : Callback)
        → IsMade w.server.fresh (calls cb)
        → run_callback ops env digits cb w ≡ some v
        → Counted v
    unfolding run_callback drain_wakeup accept_ready handle_read handle_error
    calls-Counted loop_handle_read l e =
        subst Counted (from_some e) (Same-Counted (call-Same _ w) i)
    calls-Counted acceptor_handle_read l e =
        let u = call (accept w.server.accept_socket) w in
        accepted-Counted (env.accept_result u.poller.calls) u v (Same-Counted (call-Same _ w) i) e
    calls-Counted (conn_handle_read c) l e =
        let u = call (read (fd_of w c) 1024) w in
        read-Counted c (env.read_result u.poller.calls) u v (Same-Counted (call-Same _ w) i) l e
    calls-Counted (conn_handle_write c) l e =
        subst Counted (from_some e) (Same-Counted (handle_write-Same c w) i)
    calls-Counted (conn_handle_close c) l e = handle_close-Counted ops env c w v i l e
    calls-Counted (conn_handle_error c) l e = subst Counted (from_some e) i

    pub takes-Counted :
        (f : Functor)
        → IsMade w.server.fresh (takes f)
        → run_functor ops env digits f w ≡ some v
        → Counted v
    unfolding run_functor acceptor_listens conn_shutdown_in_loop remove_connection_now queue_in_loop
    takes-Counted acceptor_listen l e =
        subst Counted (from_some e)
          (Same-Counted {w = w} (record { states = λ d. refl; fresh = refl; num = refl }) i)
    takes-Counted (connect_established c) l e = established-Counted ops env c w v i l e
    takes-Counted (connect_destroyed c) l e = destroyed-Counted ops env c w v i l e
    takes-Counted (force_close_in_loop c) l e = force_close-Counted ops env c w v i l e
    takes-Counted (shutdown_in_loop c) l e = subst Counted (from_some e) (
        Same-Counted {w = w}
          (record { states = λ d. ground arith; fresh = ground arith; num = ground arith }) i)
    takes-Counted (remove_connection_in_loop c) l e = subst Counted (from_some e) (
        Same-Counted {w = w}
          (record { states = λ d. ground arith; fresh = ground arith; num = ground arith }) i)
    takes-Counted (write_complete c) l e = ground (arith, e)
    takes-Counted (high_water_mark c n) l e = ground (arith, e)

  unfoldable pub happen : Event → World B Server → Option (World B Server)
  happen (calls cb) w = run_callback ops env digits cb w
  happen (takes f) w = run_functor ops env digits f w

  -- The worlds that events lead to, each event about a connection that is there by then.
  pub data Reaches (w : World B Server) : World B Server → Type 0 where
    starts : Reaches w w
    goes :
        (v u : World B Server) (e : Event)
        → Reaches w v
        → IsMade v.server.fresh e
        → happen e v ≡ some u
        → Reaches w u

  Reaches-invariant : (w v : World B Server) → Counted w → Reaches w v → Counted v
  unfolding happen
  Reaches-invariant w _ i starts = i
  Reaches-invariant w _ i (goes u t (calls cb) r m e) =
      calls-Counted u t (Reaches-invariant w u i r) cb m e
  Reaches-invariant w _ i (goes u t (takes f) r m e) =
      takes-Counted u t (Reaches-invariant w u i r) f m e

  -- `numConnected_` is always the number of the connections that are up: it stays so over every
  -- sequence of callbacks of the channels and of functors, in any order and in any thread, whatever
  -- the operating system returns, each about a connection that has been made.
  pub Reaches-Counted :
      (w v : World B Server)
      → Counted w
      → Reaches w v
      → v.server.num_connected ≡ pos (ups v.server.fresh (state_of v))
  Reaches-Counted w v i r = (Reaches-invariant w v i r).count
