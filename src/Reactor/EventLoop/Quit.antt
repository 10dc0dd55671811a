-- ===== src/Reactor/EventLoop/Quit.antt =====
-- The end of `loopthread`: `quitLoop` of Network/src/EventLoop.cpp and the test of its `while`.
use network_structure.Prelude.{
  ℕ, zero, suc, ◌+◌, ◌≡◌, refl, sym, ap, ◌∙◌, inl, inr, true, false, Option, some, arith,
  if◌then◌else◌, Bool-cases, ◌>>=◌, Option-cases, from_some,
}
use network_structure.Reactor.EventLoop.{
  loop_round, is_in_loop_thread, wakeup, quit_loop, loopthread, rounds,
}
use network_structure.Reactor.World.{on_loop, Functor, World, Env}
use network_structure.Reactor.Channel.{Callback}

module _ {B S : Type 0} where
  module _ (env : Env) (run : Callback → World B S → Option (World B S))
      (exec : Functor → World B S → Option (World B S)) where
    pub quit-rounds :
        (more : ℕ) (w : World B S) → w.loop.quit ≡ true → rounds env run exec more w ≡ some w
    unfolding rounds
    quit-rounds zero w h = refl
    quit-rounds (suc more) w h = rw h refl

    pub rounds-loop_round :
        (m : ℕ) (w : World B S)
        → w.loop.quit ≡ false
        → rounds env run exec (suc m) w ≡ (loop_round env run exec w >>= rounds env run exec m)
    unfolding rounds
    rounds-loop_round m w h = rw h refl

    rounds-more :
        (n more : ℕ) (w v : World B S)
        → rounds env run exec n w ≡ some v
        → v.loop.quit ≡ true
        → rounds env run exec (n + more) w ≡ some v
    unfolding rounds
    rounds-more zero more w v e h =
        ap (λ t. rounds env run exec t w) (omega arith)
        ∙ quit-rounds more w (ap (λ t. t.loop.quit) (from_some e) ∙ h)
        ∙ e
    rounds-more (suc n) more w v e h =
        ap (λ t. rounds env run exec t w) {x = suc n + more} {y = suc (n + more)} (omega arith)
        ∙ elim (Bool-cases w.loop.quit) [
          | inl q ↦ quit-rounds (suc (n + more)) w q ∙ sym (quit-rounds (suc n) w q) ∙ e
          | inr q ↦
              let e1 = sym (rounds-loop_round n w q) ∙ e in
              rounds-loop_round (n + more) w q ∙ elim (Option-cases (loop_round env run exec w)) [
                | inl i ↦ ground (arith, sym (ap (◌>>= rounds env run exec n) i) ∙ e1)
                | inr (u, i) ↦
                    ap (◌>>= rounds env run exec (n + more)) i
                    ∙ rounds-more n more u v (sym (ap (◌>>= rounds env run exec n) i) ∙ e1) h
              ]
        ]

    -- `loopthread` ends in the round in which quit_ is set: where so many rounds lead to a state
    -- with quit_, more rounds lead to no other.
    pub loopthread_ends :
        (n more : ℕ) (w v : World B S)
        → loopthread env run exec n w ≡ some v
        → v.loop.quit ≡ true
        → loopthread env run exec (n + more) w ≡ some v
    unfolding loopthread
    loopthread_ends n more w v e h =
        rounds-more n more (on_loop (λ l. record l { quit = false }) w) v e h

    -- A `quitLoop` before `loopthread` has no effect on it but the wake-up that another thread
    -- sends.
    pub quit_discarded :
        (n : ℕ) (w : World B S)
        → loopthread env run exec n (quit_loop w)
          ≡ loopthread env run exec n (if is_in_loop_thread w then w else wakeup w)
    unfolding loopthread quit_loop wakeup
    quit_discarded n w = elim (Bool-cases (is_in_loop_thread w)) [
      | inl h ↦ rw h refl
      | inr h ↦ rw h refl
    ]
