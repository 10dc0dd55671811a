-- ===== src/Reactor/EventLoop/Pending.antt =====
-- The wake-up of the loop: the loop sleeps in epoll_wait until the descriptor of `wakeup` has
-- something to read.
use network_structure.Reactor.Poller.{Syscall}
use network_structure.Reactor.EventLoop.{
  on_loop, Callback, read, Env, write, Functor, World, do_pending_functors, loop_round,
  run_functors, queue_in_loop, is_in_loop_thread, take_pending, end_pending, handle_active,
  poll_active,
}
use network_structure.Prelude.{
  from_some, ℕ, ◌≡◌, refl, sym, ap, ◌∙◌, subst, ◌⊎◌, inl, inr, Bool, true, false, Option, none,
  some, List, [], ◌∷◌, arith, ◌==◌, if◌then◌else◌, ◌>>=◌, Option-cases,
}

-- Whether the descriptor has something to read: it was written after it was last read.
abbrev is_signalled : ℕ → List Syscall → Bool
is_signalled fd [] = false
is_signalled fd (write j bytes ∷ cs) = if j == fd then true else is_signalled fd cs
is_signalled fd (read j n ∷ cs) = if j == fd then false else is_signalled fd cs
is_signalled fd (_ ∷ cs) = is_signalled fd cs

module _ {B S : Type 0} where
  -- No functor waits, or the loop's next wait returns at once.
  record Awake (w : World B S) : Type 0 where
    wakes : (w.loop.pending_functors ≡ []) ⊎ (is_signalled w.loop.wakeup_fd w.poller.calls ≡ true)

  -- What the loop needs of a functor that it calls.
  record KeepsAwake (exec : Functor → World B S → Option (World B S)) : Type 0 where
    keeps :
        (f : Functor) (w v : World B S)
        → exec f w ≡ some v
        → w.loop.calling_pending_functors ≡ true
        → Awake w
        → (v.loop.calling_pending_functors ≡ true) × Awake v

  -- A functor that another thread queues, or that a called functor queues, signals the loop.
  queue_in_loop-Awake :
      (f : Functor) (w : World B S)
      → (is_in_loop_thread w ≡ false) ⊎ (w.loop.calling_pending_functors ≡ true)
      → Awake (queue_in_loop f w)
  unfolding queue_in_loop
  queue_in_loop-Awake f w h = record { wakes = inr (ground (arith, h)) }

  module _ (exec : Functor → World B S → Option (World B S)) (k : KeepsAwake exec) where
    run_functors-Awake :
        (fs : List Functor) (w v : World B S)
        → run_functors exec fs w ≡ some v
        → w.loop.calling_pending_functors ≡ true
        → Awake w
        → Awake v
    unfolding run_functors
    run_functors-Awake [] w v e c a = subst Awake (from_some e) a
    run_functors-Awake (f ∷ fs) w v e c a = elim (Option-cases (exec f w)) [
      | inl h ↦ ground (arith, h, e)
      | inr (u, h) ↦
          let s = k.keeps f w u h c a in run_functors-Awake fs u v (ground (arith, h, e)) s.0 s.1
    ]

    do_pending-Awake : (w v : World B S) → do_pending_functors exec w ≡ some v → Awake v
    unfolding do_pending_functors
    do_pending-Awake w v e =
        elim (Option-cases (run_functors exec w.loop.pending_functors (take_pending w))) [
          | inl h ↦ ground (arith, h, e)
          | inr (u, h) ↦
              let a =
                run_functors-Awake w.loop.pending_functors (take_pending w) u h refl
                  (record { wakes = inl refl }) in
              subst Awake (from_some (ap (λ m. m >>= λ t. some (end_pending t)) (sym h) ∙ e))
                (record { wakes = a.wakes })
        ]

    -- Where each functor that the loop calls queues others only by
    -- `queueInLoop`, so that it keeps the loop awake while functors are called, every round of the
    -- loop, whatever the channels' callbacks and the operating system do, ends with no functor
    -- waiting or with the next `epoll_wait` bound to return at once. A functor that another thread
    -- queues then signals the loop too.
    loop_round-Awake :
        (env : Env) (run : Callback → World B S → Option (World B S)) (w v : World B S)
        → loop_round env run exec w ≡ some v
        → Awake v × ((f : Functor) → is_in_loop_thread v ≡ false → Awake (queue_in_loop f v))
    unfolding loop_round
    loop_round-Awake env run w v e =
        let w1 = poll_active env w in
        elim (Option-cases (
          handle_active run w1.loop.active_channels
            (on_loop (λ l. record l { event_handling = true }) w1))) [
              | inl h ↦ ground (arith, h, e)
              | inr (u, h) ↦ (
                do_pending-Awake
                    (on_loop
                      (λ l. record l { current_active_channel = none; event_handling = false }) u)
                    v (ground (arith, h, e)),
                λ f off. queue_in_loop-Awake f v (inl off),
              )
            ]
