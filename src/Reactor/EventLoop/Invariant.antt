-- ===== src/Reactor/EventLoop/Invariant.antt =====
-- Invariants of `loopthread` of Network/src/EventLoop.cpp, from those of the callbacks and functors.
use network_structure.Prelude.{
  ℕ, zero, suc, ◌≡◌, refl, sym, ◌∙◌, subst, inl, inr, Bool, true, false, not, ◌&&◌, ◌||◌, Option,
  none, some, List, [], ◌∷◌, arith, Bool-cases, ◌>>=◌, Option-cases, from_some,
}
use network_structure.Reactor.EventLoop.{
  end_pending, locked, poll_active, take_pending, do_pending_functors, fire, handle_active,
  handle_event, handle_event_with_guard, loop_round, loopthread, rounds, run_functors,
}
use network_structure.Reactor.EventLoop.Dispatch.{
  end_event, error_test, read_test, start_event, write_test,
}
use network_structure.Reactor.EventLoop.Quit.{rounds-loop_round, quit-rounds}
use network_structure.Reactor.World.{on_channel, on_loop, channel_at, Functor, World, Env}
use network_structure.Reactor.Channel.{Callback}

-- An invariant of the world and of the functors that have been taken out of the queue and not yet
-- called, with what it says of a callback that a channel holds, and the moves that keep it.
pub record Invariant {B S : Type 0} (env : Env) (run : Callback → World B S → Option (World B S))
    (exec : Functor → World B S → Option (World B S)) : Type 1 where
  pub Holds : List Functor → World B S → Type 0
  pub Held : World B S → Option Callback → Type 0
  pub held :
      (w : World B S) (p : ℕ)
      → Holds [] w
      → Held w (channel_at w p).close_callback
        × Held w (channel_at w p).error_callback
        × Held w (channel_at w p).read_callback
        × Held w (channel_at w p).write_callback
  pub calls :
      (cb : Callback) (w v : World B S)
      → Holds [] w
      → Held w (some cb)
      → run cb w ≡ some v
      → Holds [] v
  pub executes :
      (f : Functor) (fs : List Functor) (w v : World B S)
      → Holds (f ∷ fs) w
      → exec f w ≡ some v
      → Holds fs v
  pub takes : (w : World B S) → Holds [] w → Holds w.loop.pending_functors (take_pending w)
  pub marks :
      (w : World B S) (q e c : Bool) (ps : List ℕ) (p : Option ℕ)
      → Holds [] w
      → Holds [] (
          on_loop
            (λ l. record l {
              quit = q;
              event_handling = e;
              calling_pending_functors = c;
              active_channels = ps;
              current_active_channel = p;
            })
            w)
  pub flags :
      (w : World B S) (p : ℕ) (b : Bool)
      → Holds [] w
      → Holds [] (on_channel p (λ ch. record ch { event_handling = b }) w)
  pub polls : (w : World B S) → Holds [] w → Holds [] (poll_active env w)

module _ {B S : Type 0} (env : Env) (run : Callback → World B S → Option (World B S))
    (exec : Functor → World B S → Option (World B S)) (i : Invariant env run exec) where
  open i use {Holds, Held, held, calls, executes, takes, marks, flags, polls}

  -- What an operation that may abort does to the invariant.
  Keeps : (World B S → Option (World B S)) → Type 0
  Keeps f = (w v : World B S) → Holds [] w → f w ≡ some v → Holds [] v

  Keeps->>= :
      (m : Option (World B S)) (f : World B S → Option (World B S)) (v : World B S)
      → ((u : World B S) → m ≡ some u → Holds [] u)
      → Keeps f
      → (m >>= f) ≡ some v
      → Holds [] v
  unfolding Keeps
  Keeps->>= none f v h k e = ground (arith, e)
  Keeps->>= (some u) f v h k e = k u v (h u refl) e

  fire-Holds :
      (b : Bool) (cb : Option Callback) (w v : World B S)
      → Holds [] w
      → Held w cb
      → fire run b cb w ≡ some v
      → Holds [] v
  fire-Holds false cb w v h g e = subst (Holds []) (from_some e) h
  fire-Holds true none w v h g e = subst (Holds []) (from_some e) h
  fire-Holds true (some cb) w v h g e = calls cb w v h g e

  end_event-Holds : (p : ℕ) → Keeps (end_event run p)
  unfolding Keeps
  end_event-Holds p w v h e = subst (Holds []) (from_some e) (flags w p false h)

  write_test-Holds : (p : ℕ) → Keeps (write_test run p)
  unfolding Keeps
  write_test-Holds p w v h e =
      let ch = channel_at w p in
      Keeps->>= (fire run ch.revents.epollout ch.write_callback w) (end_event run p) v
        (λ u d. fire-Holds ch.revents.epollout ch.write_callback w u h (held w p h).3 d)
        (end_event-Holds p) e

  read_test-Holds : (p : ℕ) → Keeps (read_test run p)
  unfolding Keeps
  read_test-Holds p w v h e =
      let ch = channel_at w p in
      Keeps->>=
        (fire run (ch.revents.epollin || ch.revents.epollpri || ch.revents.epollrdhup)
          ch.read_callback w)
        (write_test run p) v
        (λ u d.
          fire-Holds (ch.revents.epollin || ch.revents.epollpri || ch.revents.epollrdhup)
            ch.read_callback w u h (held w p h).2 d)
        (write_test-Holds p) e

  error_test-Holds : (p : ℕ) → Keeps (error_test run p)
  unfolding Keeps
  error_test-Holds p w v h e =
      let ch = channel_at w p in
      Keeps->>= (fire run ch.revents.epollerr ch.error_callback w) (read_test run p) v
        (λ u d. fire-Holds ch.revents.epollerr ch.error_callback w u h (held w p h).1 d)
        (read_test-Holds p) e

  with_guard-Holds : (p : ℕ) → Keeps (handle_event_with_guard run p)
  unfolding Keeps handle_event_with_guard
  with_guard-Holds p w v h e =
      let w0 = start_event run p w in
      let ch = channel_at w0 p in
      let h0 : Holds [] w0 = flags w p true h in
      let test = ch.revents.epollhup && not ch.revents.epollin in
      Keeps->>= (fire run test ch.close_callback w0) (error_test run p) v
        (λ u d. fire-Holds test ch.close_callback w0 u h0 (held w0 p h0).0 d) (error_test-Holds p) e

  handle_event-Holds : (p : ℕ) → Keeps (handle_event run p)
  unfolding Keeps handle_event
  handle_event-Holds p w v h e =
      elim (Bool-cases (not (channel_at w p).tied || locked w (channel_at w p).tie)) [
        | inl there ↦ with_guard-Holds p w v h (ground (arith, there, e))
        | inr gone ↦ subst (Holds []) (from_some (ground (arith, gone, e))) h
      ]

  handle_active-Holds : (ps : List ℕ) → Keeps (handle_active run ps)
  unfolding Keeps handle_active
  handle_active-Holds [] w v h e = subst (Holds []) (from_some e) h
  handle_active-Holds (p ∷ ps) w v h e =
      Keeps->>= _ _ v
        (λ u d.
          handle_event-Holds p (on_loop (λ l. record l { current_active_channel = some p }) w) u
            (marks w w.loop.quit w.loop.event_handling w.loop.calling_pending_functors
              w.loop.active_channels (some p) h)
            d)
        (handle_active-Holds ps) e

  run_functors-Holds :
      (fs : List Functor) (w v : World B S)
      → Holds fs w
      → run_functors exec fs w ≡ some v
      → Holds [] v
  unfolding run_functors
  run_functors-Holds [] w v h e = subst (Holds []) (from_some e) h
  run_functors-Holds (f ∷ fs) w v h e = elim (Option-cases (exec f w)) [
    | inl n ↦ ground (arith, n, e)
    | inr (u, n) ↦ run_functors-Holds fs u v (executes f fs w u h n) (ground (arith, n, e))
  ]

  do_pending-Holds : Keeps (do_pending_functors exec)
  unfolding Keeps do_pending_functors
  do_pending-Holds w v h e =
      Keeps->>= (run_functors exec w.loop.pending_functors (take_pending w))
        (λ u. some (end_pending u)) v
        (λ u d. run_functors-Holds w.loop.pending_functors (take_pending w) u (takes w h) d)
        (λ u x k g. subst (Holds []) (from_some g) (
          marks u u.loop.quit u.loop.event_handling false u.loop.active_channels
            u.loop.current_active_channel k))
        e

  loop_round-Holds : Keeps (loop_round env run exec)
  unfolding Keeps loop_round
  loop_round-Holds w v h e =
      let w1 = poll_active env w in
      let w2 = on_loop (λ l. record l { event_handling = true }) w1 in
      Keeps->>= (handle_active run w1.loop.active_channels w2)
        (λ u.
          do_pending_functors exec
            (on_loop (λ l. record l { current_active_channel = none; event_handling = false }) u))
        v
        (λ u d.
          handle_active-Holds w1.loop.active_channels w2 u
            (marks w1 w1.loop.quit true w1.loop.calling_pending_functors w1.loop.active_channels
              w1.loop.current_active_channel (polls w h))
            d)
        (λ u x k g.
          do_pending-Holds
            (on_loop (λ l. record l { current_active_channel = none; event_handling = false }) u) x
            (marks u u.loop.quit false u.loop.calling_pending_functors u.loop.active_channels none
              k)
            g)
        e

  rounds-zero : (w : World B S) → rounds env run exec zero w ≡ some w
  unfolding rounds
  rounds-zero w = refl

  rounds-Holds : (fuel : ℕ) → Keeps (rounds env run exec fuel)
  unfolding Keeps
  rounds-Holds zero w v h e = subst (Holds []) (from_some (sym (rounds-zero w) ∙ e)) h
  rounds-Holds (suc fuel) w v h e = elim (Bool-cases w.loop.quit) [
    | inl q ↦ subst (Holds []) (from_some (sym (quit-rounds env run exec (suc fuel) w q) ∙ e)) h
    | inr q ↦
        Keeps->>= (loop_round env run exec w) (rounds env run exec fuel) v
          (λ u d. loop_round-Holds w u h d) (rounds-Holds fuel)
          (sym (rounds-loop_round env run exec fuel w q) ∙ e)
  ]

  -- `loopthread` keeps every invariant that the callbacks, the functors and the poll keep, for any
  -- number of rounds.
  pub loopthread-Holds :
      (fuel : ℕ) (w v : World B S)
      → Holds [] w
      → loopthread env run exec fuel w ≡ some v
      → Holds [] v
  unfolding Keeps loopthread
  loopthread-Holds fuel w v h e =
      rounds-Holds fuel (on_loop (λ l. record l { quit = false }) w) v
        (marks w false w.loop.event_handling w.loop.calling_pending_functors w.loop.active_channels
          w.loop.current_active_channel h)
        e
