-- ===== src/Reactor/EventLoop/Dispatch.antt =====
-- The order of the callbacks of one event.
use mathlib.Core.List.{append-nil}
use network_structure.Prelude.{
  ℕ, ◌≡◌, refl, ap, ◌∙◌, inl, inr, Bool, true, false, not, ◌&&◌, ◌||◌, Option, none, some, List, [],
  ◌∷◌, ◌++◌, arith, if◌then◌else◌, Bool-cases, ◌>>=◌, Option-cases,
}
use network_structure.Reactor.EventLoop.{handle_event_with_guard, locked, handle_event, fire}
use network_structure.Reactor.World.{on_channel, World, channel_at}
use network_structure.Reactor.Channel.{Channel, Callback}

-- The callback of a test that holds, where one is set.
abbrev pub pick : Bool → Option Callback → List Callback
pick true (some cb) = cb ∷ []
pick true none = []
pick false cb = []

-- The callbacks that the events of a channel call for, from a test on.
abbrev pub due_write : Channel → List Callback
due_write ch = pick ch.revents.epollout ch.write_callback

abbrev pub due_read : Channel → List Callback
due_read ch =
    pick (ch.revents.epollin || ch.revents.epollpri || ch.revents.epollrdhup) ch.read_callback
    ++ due_write ch

abbrev pub due_error : Channel → List Callback
due_error ch = pick ch.revents.epollerr ch.error_callback ++ due_read ch

-- All of them, in their order.
abbrev pub due : Channel → List Callback
due ch = pick (ch.revents.epollhup && not ch.revents.epollin) ch.close_callback ++ due_error ch

-- What the dispatch reads of a channel.
pub record SameEvents (a b : Channel) : Type 0 where
  pub revents : a.revents ≡ b.revents
  pub close : a.close_callback ≡ b.close_callback
  pub error : a.error_callback ≡ b.error_callback
  pub reading : a.read_callback ≡ b.read_callback
  pub writing : a.write_callback ≡ b.write_callback

same_events : (a : Channel) → SameEvents a a
same_events a = record {
  revents = refl;
  close = refl;
  error = refl;
  reading = refl;
  writing = refl;
}

same_trans : {a b c : Channel} → SameEvents a b → SameEvents b c → SameEvents a c
same_trans s t = record {
  revents = s.revents ∙ t.revents;
  close = s.close ∙ t.close;
  error = s.error ∙ t.error;
  reading = s.reading ∙ t.reading;
  writing = s.writing ∙ t.writing;
}

module _ {B S : Type 0} (run : Callback → World B S → Option (World B S)) where
  -- One after the other, as long as none aborts.
  unfoldable pub run_callbacks : List Callback → World B S → Option (World B S)
  run_callbacks [] w = some w
  run_callbacks (cb ∷ cbs) w = run cb w >>= run_callbacks cbs

  -- A callback leaves that of the channel at `p`.
  pub record KeepsChannel (p : ℕ) : Type 0 where
    pub keeps :
        (cb : Callback) (w v : World B S)
        → run cb w ≡ some v
        → SameEvents (channel_at v p) (channel_at w p)

  module _ (p : ℕ) where
    -- `eventHandling_ = false`
    abbrev pub end_event : World B S → Option (World B S)
    end_event v = some (on_channel p (λ ch. record ch { event_handling = false }) v)

    -- `eventHandling_ = true`
    abbrev pub start_event : World B S → World B S
    start_event w = on_channel p (λ ch. record ch { event_handling = true }) w

    -- The tests from one on, as the dispatch chains them.
    abbrev pub write_test : World B S → Option (World B S)
    write_test w =
        let ch = channel_at w p in fire run ch.revents.epollout ch.write_callback w >>= end_event

    abbrev pub read_test : World B S → Option (World B S)
    read_test w =
        let ch = channel_at w p in
        fire run (ch.revents.epollin || ch.revents.epollpri || ch.revents.epollrdhup)
          ch.read_callback w
        >>= write_test

    abbrev pub error_test : World B S → Option (World B S)
    error_test w =
        let ch = channel_at w p in fire run ch.revents.epollerr ch.error_callback w >>= read_test

  module _ (p : ℕ) (k : KeepsChannel p) where
    fire-SameEvents :
        (b : Bool) (cb : Option Callback) (w v : World B S)
        → fire run b cb w ≡ some v
        → SameEvents (channel_at v p) (channel_at w p)
    fire-SameEvents false cb w v e = ground (arith, e)
    fire-SameEvents true none w v e = ground (arith, e)
    fire-SameEvents true (some cb) w v e = k.keeps cb w v e

    -- What is left to do from `w` on is to call the callbacks of `rest`.
    Calls : List Callback → (World B S → Option (World B S)) → World B S → Type 0
    Calls rest next w =
        (v : World B S)
        → SameEvents (channel_at v p) (channel_at w p)
        → next v ≡ (run_callbacks rest v >>= end_event p)

    fire-due :
        (b : Bool) (cb : Option Callback) (rest : List Callback) (w : World B S)
        (next : World B S → Option (World B S))
        → Calls rest next w
        → (fire run b cb w >>= next) ≡ (run_callbacks (pick b cb ++ rest) w >>= end_event p)
    unfolding run_callbacks Calls
    fire-due false cb rest w next h = h w (same_events _)
    fire-due true none rest w next h = h w (same_events _)
    fire-due true (some cb) rest w next h = elim (Option-cases (run cb w)) [
      | inl e ↦ rw e refl
      | inr (v, e) ↦ rw e (h v (k.keeps cb w v e))
    ]

    module _ (c : Channel) where
      write_test-due :
          (w : World B S)
          → SameEvents (channel_at w p) c
          → write_test p w ≡ (run_callbacks (due_write c) w >>= end_event p)
      unfolding run_callbacks Calls
      write_test-due w s = rw s.revents (
          rw s.writing (
            fire-due c.revents.epollout c.write_callback [] w (end_event p) (λ v t. refl)
            ∙ rw (append-nil (due_write c)) refl))

      read_test-due :
          (w : World B S)
          → SameEvents (channel_at w p) c
          → read_test p w ≡ (run_callbacks (due_read c) w >>= end_event p)
      unfolding Calls
      read_test-due w s = rw s.revents (
          rw s.reading (
            fire-due _ c.read_callback (due_write c) w (write_test p)
              (λ v t. write_test-due v (same_trans t s))))

      error_test-due :
          (w : World B S)
          → SameEvents (channel_at w p) c
          → error_test p w ≡ (run_callbacks (due_error c) w >>= end_event p)
      unfolding Calls
      error_test-due w s = rw s.revents (
          rw s.error (
            fire-due _ c.error_callback (due_read c) w (read_test p)
              (λ v t. read_test-due v (same_trans t s))))

    with_guard-due :
        (w : World B S)
        → handle_event_with_guard run p w
          ≡ (run_callbacks (due (channel_at w p)) (start_event p w) >>= end_event p)
    unfolding handle_event_with_guard Calls
    with_guard-due w =
        let w0 = start_event p w in
        let c = channel_at w0 p in
        let e : c ≡ record (channel_at w p) { event_handling = true } = ground arith in
        fire-due _ c.close_callback (due_error c) w0 (error_test p) (λ v t. error_test-due c v t)
        ∙ ap (λ d. run_callbacks (due d) w0 >>= end_event p) e

    -- The callbacks of an event run once each and in the order close, error, read, write, as far as
    -- none aborts: where no callback changes what the dispatch reads of this channel,
    -- `handleEvent` of a channel whose connection is there, or that is tied to none, runs exactly
    -- the callbacks that the returned events call for, with `eventHandling_` set before and reset
    -- after them; and of a channel whose connection is gone it does nothing.
    handle_event-due :
        (w : World B S)
        → handle_event run p w ≡ (
            if not (channel_at w p).tied || locked w (channel_at w p).tie
            then (run_callbacks (due (channel_at w p)) (start_event p w) >>= end_event p)
            else some w)
    unfolding handle_event handle_event_with_guard Calls
    handle_event-due w =
        elim (Bool-cases (not (channel_at w p).tied || locked w (channel_at w p).tie)) [
          | inr gone ↦ rw gone refl
          | inl here ↦ rw here (with_guard-due w)
        ]
