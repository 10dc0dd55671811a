-- ===== src/Reactor/MyServer/Counted/Moves.antt =====
-- The operations that take a connection up or down keep the count.
use network_structure.Reactor.Buffer.{BufferOps}
use network_structure.Reactor.World.{
  Env, World, on_poller, on_channel, k_connected, k_disconnected, k_connecting,
}
use network_structure.Prelude.{
  ℕ, ◌<◌, ◌≡◌, refl, sym, ap, ◌∙◌, subst, inl, inr, true, false, some, arith, ◌==◌, Bool-cases,
  from_some,
}
use network_structure.Prelude.Int.{pos, increment, decrement}
use network_structure.Reactor.MyServer.{on_connection, my_user}
use network_structure.Reactor.EventLoop.{run_in_loop, queue_in_loop}
use network_structure.Reactor.TcpServer.{
  Server, on_server, remove_connection, remove_connection_now,
}
use network_structure.Reactor.TcpConnection.{
  handle_close, conn_force_close_in_loop, conn_established, conn_destroyed, state_of, is_up,
  eq_state, set_state,
}
use network_structure.Reactor.MyServer.Counted.{
  ups, ups-rise, Counted, Same, Same-Counted, admit-Same,
}
use network_structure.Reactor.Poller.{disable_all, enable_reading}

module _ {B : Type 0} where
  -- A connection that was not up is connected and counted.
  Counted-up :
      (c : ℕ) (w u : World B Server)
      → Counted w
      → c < w.server.fresh
      → is_up (state_of w c) ≡ false
      → is_up (state_of u c) ≡ true
      → ((d : ℕ) → (c == d) ≡ false → is_up (state_of w d) ≡ is_up (state_of u d))
      → u.server.fresh ≡ w.server.fresh
      → u.server.num_connected ≡ increment w.server.num_connected
      → Counted u
  Counted-up c w u i l a b h f n = record {
    count =
        let r = ups-rise w.server.fresh c (state_of w) (state_of u) l a b h in
        n ∙ ap increment i.count ∙ ap pos (sym r ∙ ap (λ k. ups k (state_of u)) (sym f));
  }

  -- A connection that was up is disconnected and no longer counted.
  Counted-down :
      (c : ℕ) (w u : World B Server)
      → Counted w
      → c < w.server.fresh
      → is_up (state_of w c) ≡ true
      → is_up (state_of u c) ≡ false
      → ((d : ℕ) → (c == d) ≡ false → is_up (state_of w d) ≡ is_up (state_of u d))
      → u.server.fresh ≡ w.server.fresh
      → u.server.num_connected ≡ decrement w.server.num_connected
      → Counted u
  Counted-down c w u i l a b h f n = record {
    count =
        let r = ups-rise w.server.fresh c (state_of u) (state_of w) l b a (λ d e. sym (h d e)) in
        n ∙ ap decrement (i.count ∙ ap pos r) ∙ ap (λ k. pos (ups k (state_of u))) (sym f);
  }

  remove-Same : (c : ℕ) (w v : World B Server) → remove_connection c w ≡ some v → Same w v
  unfolding remove_connection run_in_loop remove_connection_now queue_in_loop
  remove-Same c w v e = record {
    states = λ d. ground (arith, e);
    fresh = ground (arith, e);
    num = ground (arith, e);
  }

  module _ (ops : BufferOps B) (env : Env) (c : ℕ) (w v : World B Server) (i : Counted w)
      (l : c < w.server.fresh) where
    pub established-Counted : conn_established (my_user ops env) c w ≡ some v → Counted v
    unfolding conn_established on_connection
    established-Counted e = elim (Bool-cases (eq_state (state_of w c) k_connecting)) [
      | inr h ↦ ground (arith, h, e)
      | inl h ↦
          let w1 = set_state c k_connected w in
          let w2 =
            on_channel (w1.conns c).channel (λ ch. record ch { tie = some c; tied = true }) w1 in
          let w3 = on_poller (enable_reading (w2.conns c).channel) w2 in
          let w4 = on_server (λ s. record s { num_connected = increment s.num_connected }) w3 in
          Same-Counted (admit-Same c w4 v (ground (arith, h, e))) (
            Counted-up c w w4 i l (ground (arith, h)) (ground arith) (λ d n. ground (arith, n)) refl
              refl)
    ]

    pub handle_close-Counted : handle_close (my_user ops env) c w ≡ some v → Counted v
    unfolding handle_close on_connection
    handle_close-Counted e = elim (Bool-cases (is_up (state_of w c))) [
      | inr h ↦ subst Counted (from_some (ground (arith, h, e))) i
      | inl h ↦
          let w2 = on_poller (disable_all (w.conns c).channel) (set_state c k_disconnected w) in
          let w3 = on_server (λ s. record s { num_connected = decrement s.num_connected }) w2 in
          Same-Counted (remove-Same c w3 v (ground (arith, h, e)))
            (Counted-down c w w3 i l h (ground arith) (λ d n. ground (arith, n)) refl refl)
    ]

    pub force_close-Counted : conn_force_close_in_loop (my_user ops env) c w ≡ some v → Counted v
    unfolding conn_force_close_in_loop
    force_close-Counted e = elim (Bool-cases (is_up (state_of w c))) [
      | inr h ↦ subst Counted (from_some (ground (arith, h, e))) i
      | inl h ↦ handle_close-Counted (ground (arith, h, e))
    ]

    pub destroyed-Counted : conn_destroyed (my_user ops env) c w ≡ some v → Counted v
    unfolding conn_destroyed on_connection
    destroyed-Counted e = elim (Bool-cases (eq_state (state_of w c) k_connected)) [
      | inr h ↦
          Same-Counted {w = w}
            (record {
              states = λ d. ground (arith, h, e);
              fresh = ground (arith, h, e);
              num = ground (arith, h, e);
            })
            i
      | inl h ↦
          let w2 = on_poller (disable_all (w.conns c).channel) (set_state c k_disconnected w) in
          let w3 = on_server (λ s. record s { num_connected = decrement s.num_connected }) w2 in
          Same-Counted {w = w3}
            (record {
              states = λ d. ground (arith, h, e);
              fresh = ground (arith, h, e);
              num = ground (arith, h, e);
            })
            (Counted-down c w w3 i l (ground (arith, h)) (ground arith) (λ d n. ground (arith, n))
              refl refl)
    ]
