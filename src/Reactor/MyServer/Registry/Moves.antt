-- ===== src/Reactor/MyServer/Registry/Moves.antt =====
-- The steps of the registry that the operations of a connection make, in the loop's thread.
use network_structure.Prelude.{
  ap, ◌∙◌, List, [], ◌∷◌, ◌++◌, All-append, All-map, ℕ, ◌≡◌, refl, sym, subst, inl, inr, true,
  false, some, arith, if◌then◌else◌, Bool-cases, Option-cases, from_some, All,
}
use network_structure.Reactor.MyServer.Registry.Quiet.{
  queue-pending, queue-registry, Quiet-trans, Quiet-refl, Quiet, if-Quiet, queue-Quiet, state-Quiet,
  channel-Quiet, events-Quiet, conn_shutdown-Quiet, Registry-ext, set_events-callbacks,
}
use network_structure.Reactor.MyServer.Registry.{
  hung, erased, hangs, erases, removal, removals, stays, opens, closes, Step, Registry, registry,
  closed, IsConn, Ready,
}
use network_structure.Prelude.Int.{increment, decrement, ltb_ℤ}
use network_structure.Reactor.Channel.{Channel, with_read, none_event}
use network_structure.Reactor.Poller.{disable_all, enable_reading}
use network_structure.Reactor.TcpServer.{
  Server, on_server, remove_connection, remove_connection_now, erase_conn,
}
use network_structure.Reactor.MyServer.{my_user, admit, on_connection}
use network_structure.Reactor.TcpConnection.{
  state_of, set_state, eq_state, is_up, shutdown, force_close, conn_shutdown_in_loop,
  conn_established, handle_close,
}
use network_structure.Reactor.EventLoop.{run_in_loop, queue_in_loop, is_in_loop_thread}
use network_structure.Reactor.World.{
  acceptor_listen, connect_established, connect_destroyed, force_close_in_loop, shutdown_in_loop,
  remove_connection_in_loop, write_complete, high_water_mark, k_connected, k_disconnecting,
  k_connecting, k_disconnected, on_poller, on_channel, World, Env, Functor,
}
use network_structure.Reactor.Buffer.{BufferOps}

module _ (base : ℕ) where
  pub Step-IsConn :
      (done : List ℕ) (r t : Registry) (c : ℕ)
      → Step base r done t
      → IsConn base r c
      → IsConn base t c
  Step-IsConn _ r _ c stays i = i
  Step-IsConn _ r _ c opens i = (i.0, omega (arith, i.1))
  Step-IsConn _ r _ c (closes d j a h) i = i
  Step-IsConn _ r _ c (hangs d j a h) i = i
  Step-IsConn _ r _ c (erases d j a) i = i

  -- What is disconnected stays so.
  pub Step-gone :
      (done : List ℕ) (r t : Registry) (c : ℕ)
      → Step base r done t
      → IsConn base r c
      → r.alive c ≡ false
      → t.alive c ≡ false
  Step-gone _ r _ c stays i h = h
  Step-gone _ r _ c opens i h = ground (arith, i.1, h)
  Step-gone _ r _ c (closes d j a k) i h = ground (arith, h)
  Step-gone _ r _ c (hangs d j a k) i h = ground (arith, h)
  Step-gone _ r _ c (erases d j a) i h = h

  pub Step-in_loop : (done : List ℕ) (r t : Registry) → Step base r done t → t.in_loop ≡ r.in_loop
  Step-in_loop _ r _ stays = refl
  Step-in_loop _ r _ opens = refl
  Step-in_loop _ r _ (closes d j a k) = refl
  Step-in_loop _ r _ (hangs d j a k) = refl
  Step-in_loop _ r _ (erases d j a) = refl

  pub Step-Ready :
      (done : List ℕ) (r t : Registry)
      → Step base r done t
      → (f : Functor) → Ready base r f
      → Ready base t f
  Step-Ready n r t s acceptor_listen h = h
  Step-Ready n r t s (connect_established c) h = Step-IsConn n r t c s h
  Step-Ready n r t s (connect_destroyed c) (i, a) =
      (Step-IsConn n r t c s i, Step-gone n r t c s i a)
  Step-Ready n r t s (force_close_in_loop c) h = Step-IsConn n r t c s h
  Step-Ready n r t s (shutdown_in_loop c) h = Step-IsConn n r t c s h
  Step-Ready n r t s (remove_connection_in_loop c) (i, a, l) =
      (Step-IsConn n r t c s i, Step-gone n r t c s i a, Step-in_loop n r t s ∙ l)
  Step-Ready n r t s (write_complete c) h = h
  Step-Ready n r t s (high_water_mark c n1) h = h

module _ {B : Type 0} (base : ℕ) (digits : ℕ → List ℕ) where
  -- An operation makes a step of the registry, and what waits after it may. `done` is the removal
  -- that it carries out, if it is one.
  pub record Move (done : List ℕ) (w v : World B Server) : Type 0 where
    pub step : Step base (registry digits w) done (registry digits v)
    pub waits :
        All (Ready base (registry digits w)) w.loop.pending_functors
        → All (Ready base (registry digits v)) v.loop.pending_functors

  pub Move-Quiet :
      {done : List ℕ} {w u v : World B Server}
      → Move done w u
      → Quiet base digits u v
      → Move done w v
  Move-Quiet {done} {w} {u} {v} m q = record {
    step = subst (Step base (registry digits w) done) (sym q.same) m.step;
    waits = λ a.
        subst (λ r. All (Ready base r) v.loop.pending_functors) (sym q.same) (q.waits (m.waits a));
  }

  pub Quiet-Move : {w v : World B Server} → Quiet base digits w v → Move [] w v
  Quiet-Move q = Move-Quiet (record { step = stays; waits = λ a. a }) q

  -- A step after which the same waits, or one functor more.
  pub step-Move :
      {done : List ℕ} {w v : World B Server} (r : Registry)
      → Step base (registry digits w) done r
      → registry digits v ≡ r
      → v.loop.pending_functors ≡ w.loop.pending_functors
      → Move done w v
  step-Move {done} {w} {v} r s e h =
      let step = subst (Step base (registry digits w) done) (sym e) s in
      record {
        step = step;
        waits = λ a. rw h (
            All-map (Ready base (registry digits w)) (Ready base (registry digits v))
              (Step-Ready base done (registry digits w) (registry digits v) step)
              w.loop.pending_functors a);
      }

  pub queue-Move :
      {done : List ℕ} {w : World B Server} (u : World B Server) (r : Registry) (f : Functor)
      → Step base (registry digits w) done r
      → record (registry digits u) { leaving = removals u.loop.pending_functors ++ removal f } ≡ r
      → u.loop.pending_functors ≡ w.loop.pending_functors
      → Ready base r f
      → Move done w (queue_in_loop f u)
  queue-Move {done} {w} u r f s e h g =
      let v = queue_in_loop f u in
      let same = queue-registry base digits f u ∙ e in
      let step = subst (Step base (registry digits w) done) (sym same) s in
      record {
        step = step;
        waits = λ a.
            subst (All (Ready base (registry digits v)))
              (sym (queue-pending base digits f u ∙ ap (λ l. l ++ f ∷ []) h))
              (All-append (Ready base (registry digits v)) w.loop.pending_functors f
                (All-map (Ready base (registry digits w)) (Ready base (registry digits v))
                  (Step-Ready base done (registry digits w) (registry digits v) step)
                  w.loop.pending_functors a)
                (subst (λ t. Ready base t f) (sym same) g));
      }

  module _ (c : ℕ) (w v : World B Server) (i : IsConn base (registry digits w) c) where
    shutdown-Quiet : shutdown c w ≡ some v → Quiet base digits w v
    unfolding shutdown run_in_loop
    shutdown-Quiet e = elim (Bool-cases (eq_state (state_of w c) k_connected)) [
      | inr h ↦
          subst (Quiet base digits w) (from_some (ground (arith, h, e))) (Quiet-refl base digits w)
      | inl h ↦
          let u = set_state c k_disconnecting w in
          let q : Quiet base digits w u =
            state-Quiet base digits c k_disconnecting w (ground (arith, h)) in
          elim (Bool-cases (is_in_loop_thread w)) [
            | inl l ↦
                let eq : some (conn_shutdown_in_loop c u) ≡ some v = ground (arith, h, l, e) in
                subst (Quiet base digits w) (from_some eq)
                  (Quiet-trans base digits q (conn_shutdown-Quiet base digits c u))
            | inr l ↦
                let eq : some (queue_in_loop (shutdown_in_loop c) u) ≡ some v =
                  ground (arith, h, l, e) in
                subst (Quiet base digits w) (from_some eq) (
                  Quiet-trans base digits q (queue-Quiet base digits (shutdown_in_loop c) u refl i))
          ]
    ]

  force_close-Quiet :
      (c : ℕ) (w : World B Server)
      → IsConn base (registry digits w) c
      → Quiet base digits w (force_close c w)
  unfolding force_close
  force_close-Quiet c w i = elim (Bool-cases (is_up (state_of w c))) [
    | inr h ↦ rw h (Quiet-refl base digits w)
    | inl h ↦
        let q = state-Quiet base digits c k_disconnecting w (ground (arith, h)) in
        rw h (
          Quiet-trans base digits q (
            queue-Quiet base digits (force_close_in_loop c) (set_state c k_disconnecting w) refl i))
  ]

  admit-Quiet :
      (c : ℕ) (w v : World B Server)
      → IsConn base (registry digits w) c
      → admit c w ≡ some v
      → Quiet base digits w v
  unfolding admit
  admit-Quiet c w v i e =
      elim (Bool-cases (ltb_ℤ w.server.max_connections w.server.num_connected)) [
        | inl h ↦ elim (Option-cases (shutdown c w)) [
          | inl n ↦ ground (arith, h, n, e)
          | inr (u, n) ↦
              let q = shutdown-Quiet c w u i n in
              let j : IsConn base (registry digits u) c =
                subst (λ r. IsConn base r c) (sym q.same) i in
              let eq : some (force_close c u) ≡ some v = ground (arith, h, n, e) in
              subst (Quiet base digits w) (from_some eq)
                (Quiet-trans base digits q (force_close-Quiet c u j))
        ]
        | inr h ↦
            let u =
              if w.server.flag
              then on_server (λ s. record s { flag = false; host = some c }) w
              else w in
            let q : Quiet base digits w u =
              if-Quiet base digits w.server.flag (record { same = refl; waits = λ a. a })
                (Quiet-refl base digits w) in
            let eq : some u ≡ some v = ground (arith, h, e) in
            subst (Quiet base digits w) (from_some eq) q
      ]

  module _ (ops : BufferOps B) (env : Env) where
    pub established-Quiet :
        (c : ℕ) (w v : World B Server)
        → IsConn base (registry digits w) c
        → conn_established (my_user ops env) c w ≡ some v
        → Quiet base digits w v
    unfolding conn_established on_connection
    established-Quiet c w v i e = elim (Bool-cases (eq_state (state_of w c) k_connecting)) [
      | inr h ↦ ground (arith, h, e)
      | inl h ↦
          let w1 = set_state c k_connected w in
          let p = (w1.conns c).channel in
          let tie_to : Channel → Channel = λ ch. record ch { tie = some c; tied = true } in
          let w2 = on_channel p tie_to w1 in
          let w3 = on_poller (enable_reading p) w2 in
          let w4 = on_server (λ s. record s { num_connected = increment s.num_connected }) w3 in
          let q1 : Quiet base digits w w1 =
            state-Quiet base digits c k_connected w (ground (arith, h)) in
          let q2 : Quiet base digits w1 w2 = channel-Quiet base digits p tie_to w1 refl in
          let q3 : Quiet base digits w2 w3 = events-Quiet base digits p with_read w2 in
          let q4 : Quiet base digits w3 w4 = record { same = refl; waits = λ a. a } in
          let q =
            Quiet-trans base digits q1
              (Quiet-trans base digits q2 (Quiet-trans base digits q3 q4)) in
          let j : IsConn base (registry digits w4) c = i in
          Quiet-trans base digits q (admit-Quiet c w4 v j (ground (arith, h, e)))
    ]

    pub handle_close-Move :
        (c : ℕ) (w v : World B Server)
        → IsConn base (registry digits w) c
        → handle_close (my_user ops env) c w ≡ some v
        → Move [] w v
    unfolding handle_close on_connection remove_connection run_in_loop remove_connection_now
    handle_close-Move c w v i e = elim (Bool-cases (is_up (state_of w c))) [
      | inr h ↦
          let eq : some w ≡ some v = ground (arith, h, e) in
          subst (Move [] w) (from_some eq) (Quiet-Move (Quiet-refl base digits w))
      | inl h ↦
          let w2 = on_poller (disable_all (w.conns c).channel) (set_state c k_disconnected w) in
          let w3 = on_server (λ s. record s { num_connected = decrement s.num_connected }) w2 in
          let here : (registry digits w).alive c ≡ true = ground (arith, h) in
          let keep =
            λ (q : ℕ). set_events-callbacks (w.conns c).channel q (λ _. none_event) w.poller in
          elim (Bool-cases (is_in_loop_thread w)) [
            | inl l ↦
                let w4 =
                  on_server
                    (λ s. record s { connections = erase_conn (w3.conns c).name s.connections })
                    w3 in
                let same : registry digits w4 ≡ closed c (registry digits w) =
                  Registry-ext _ _ (λ d. ground arith) (λ d. ground arith) (ground arith) refl
                    (λ n. refl) refl refl refl keep in
                let m : Move [] w w4 =
                  step-Move (closed c (registry digits w)) (closes c i here l) same refl in
                let gone : (registry digits w4).alive c ≡ false = ground arith in
                let eq : some (queue_in_loop (connect_destroyed c) w4) ≡ some v =
                  ground (arith, h, l, e) in
                subst (Move [] w) (from_some eq)
                  (Move-Quiet m (queue-Quiet base digits (connect_destroyed c) w4 refl (i, gone)))
            | inr l ↦
                let f = remove_connection_in_loop c in
                let r = hung c (registry digits w) in
                let same : record (registry digits w3) {
                  leaving = removals w3.loop.pending_functors ++ removal f;
                }
                    ≡ r =
                  Registry-ext _ _ (λ d. ground arith) (λ d. ground arith) refl refl (λ n. refl)
                    refl refl refl keep in
                let gone : r.alive c ≡ false = ground arith in
                let m : Move [] w (queue_in_loop f w3) =
                  queue-Move w3 r f (hangs c i here l) same refl (i, gone, l) in
                let eq : some (queue_in_loop f w3) ≡ some v = ground (arith, h, l, e) in
                subst (Move [] w) (from_some eq) m
          ]
    ]

  -- The removal of a connection that was disconnected.
  pub removal-Move :
      (c : ℕ) (w : World B Server)
      → IsConn base (registry digits w) c
      → (registry digits w).alive c ≡ false
      → Move (c ∷ []) w (remove_connection_now c w)
  unfolding remove_connection_now
  removal-Move c w i a =
      let u =
        on_server (λ s. record s { connections = erase_conn (w.conns c).name s.connections }) w in
      let m : Move (c ∷ []) w u =
        step-Move (erased c (registry digits w)) (erases c i a) refl refl in
      Move-Quiet m (queue-Quiet base digits (connect_destroyed c) u refl (i, a))
