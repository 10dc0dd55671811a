-- ===== src/Reactor/EventLoop.antt =====
-- Network/src/EventLoop.cpp, and the dispatch of Channel.cpp, which runs inside the loop. A method
-- that may run a callback returns `none` where the process aborts or is undefined. The mutex
-- around `pendingFunctors_` is one step here.
pub mod Pending
pub mod Quit
pub mod Invariant
pub mod Dispatch
use network_structure.Reactor.Poller.{
  new_poller, enable_reading, disable_all, remove, close, write, read, epoll_wait, poll,
}
use network_structure.Reactor.Channel.{new_channel, Callback}
use network_structure.Prelude.{
  ℕ, zero, suc, ◌==◌, Bool, true, false, not, ◌&&◌, ◌||◌, List, [], ◌∷◌, ◌++◌, Option, none, some,
  if◌then◌else◌, ◌>>=◌,
}
use network_structure.Reactor.World.{
  on_poller, Functor, World, Env, on_loop, on_channel, call, channel_at,
}

-- The eight bytes of `uint64_t one = 1`.
abbrev pub one : List ℕ
one = 1 ∷ 0 ∷ 0 ∷ 0 ∷ 0 ∷ 0 ∷ 0 ∷ 0 ∷ []

module _ {B S : Type 0} where
  abbrev pub is_in_loop_thread : World B S → Bool
  is_in_loop_thread w = w.loop.thread_id == w.current

  -- `EventLoop::EventLoop` with a new `Poller`, where eventfd(2) returns `fd` and the wake-up
  -- channel that is kept is at `p`.
  unfoldable pub construct_loop : ℕ → ℕ → World B S → World B S
  construct_loop fd p w =
      let w1 = record w {
        loop = record {
          quit = false;
          event_handling = false;
          calling_pending_functors = false;
          thread_id = w.current;
          wakeup_fd = fd;
          wakeup_channel = p;
          active_channels = [];
          current_active_channel = none;
          pending_functors = [];
        };
        poller = new_poller w.poller.heap;
      } in
      let w2 =
        on_channel p
          (λ _. record (new_channel fd) { read_callback = some Callback.loop_handle_read }) w1 in
      on_poller (enable_reading p) w2

  -- `EventLoop::~EventLoop`
  unfoldable pub destroy_loop : World B S → World B S
  destroy_loop w =
      let p = w.loop.wakeup_channel in
      call (close w.loop.wakeup_fd) (on_poller (remove p) (on_poller (disable_all p) w))

  unfoldable pub wakeup : World B S → World B S
  wakeup w = call (write w.loop.wakeup_fd one) w

  -- `EventLoop::handleRead`
  unfoldable pub loop_handle_read : World B S → World B S
  loop_handle_read w = call (read w.loop.wakeup_fd 8) w

  unfoldable pub queue_in_loop : Functor → World B S → World B S
  unfolding wakeup
  queue_in_loop f w =
      let w1 = on_loop (λ l. record l { pending_functors = l.pending_functors ++ f ∷ [] }) w in
      if not (is_in_loop_thread w1) || w1.loop.calling_pending_functors then wakeup w1 else w1

  -- `now` is what the functor does when it is called.
  unfoldable pub run_in_loop :
      (World B S → Option (World B S)) → Functor → World B S → Option (World B S)
  unfolding queue_in_loop
  run_in_loop now f w = if is_in_loop_thread w then now w else some (queue_in_loop f w)

  unfoldable pub quit_loop : World B S → World B S
  unfolding wakeup
  quit_loop w =
      let w1 = on_loop (λ l. record l { quit = true }) w in
      if is_in_loop_thread w1 then w1 else wakeup w1

  -- The loop over the vector that `doPendingFunctors` has swapped out.
  unfoldable pub run_functors :
      (Functor → World B S → Option (World B S)) → List Functor → World B S → Option (World B S)
  run_functors exec [] w = some w
  run_functors exec (f ∷ fs) w = exec f w >>= run_functors exec fs

  -- `callingPendingFunctors_ = true` and the swap.
  abbrev pub take_pending : World B S → World B S
  take_pending w =
      on_loop (λ l. record l { pending_functors = []; calling_pending_functors = true }) w

  abbrev pub end_pending : World B S → World B S
  end_pending w = on_loop (λ l. record l { calling_pending_functors = false }) w

  unfoldable pub do_pending_functors :
      (Functor → World B S → Option (World B S)) → World B S → Option (World B S)
  unfolding run_functors
  do_pending_functors exec w =
      run_functors exec w.loop.pending_functors (take_pending w) >>= λ w1. some (end_pending w1)

  -- `if (test) { if (callback) callback(); }`
  abbrev pub fire :
      (Callback → World B S → Option (World B S))
      → Bool
      → Option Callback
      → World B S
      → Option (World B S)
  fire run false cb w = some w
  fire run true none w = some w
  fire run true (some cb) w = run cb w

  -- The four tests read `revents_` and the callbacks afresh, after the callback before.
  unfoldable pub handle_event_with_guard :
      (Callback → World B S → Option (World B S)) → ℕ → World B S → Option (World B S)
  handle_event_with_guard run p w = do
    let w0 = on_channel p (λ ch. record ch { event_handling = true }) w
    let ch0 = channel_at w0 p
    w1 ← fire run (ch0.revents.epollhup && not ch0.revents.epollin) ch0.close_callback w0
    let ch1 = channel_at w1 p
    w2 ← fire run ch1.revents.epollerr ch1.error_callback w1
    let ch2 = channel_at w2 p
    w3 ←
        fire run (ch2.revents.epollin || ch2.revents.epollpri || ch2.revents.epollrdhup)
          ch2.read_callback w2
    let ch3 = channel_at w3 p
    w4 ← fire run ch3.revents.epollout ch3.write_callback w3
    some (on_channel p (λ ch. record ch { event_handling = false }) w4)

  -- `tie_.lock()`: whether the connection is still there.
  abbrev pub locked : World B S → Option ℕ → Bool
  locked w none = false
  locked w (some c) = not (w.expired c)

  unfoldable pub handle_event :
      (Callback → World B S → Option (World B S)) → ℕ → World B S → Option (World B S)
  unfolding handle_event_with_guard
  handle_event run p w =
      if not (channel_at w p).tied || locked w (channel_at w p).tie
      then handle_event_with_guard run p w
      else some w

  unfoldable pub handle_active :
      (Callback → World B S → Option (World B S)) → List ℕ → World B S → Option (World B S)
  handle_active run [] w = some w
  handle_active run (p ∷ ps) w = do
    w1 ← handle_event run p (on_loop (λ l. record l { current_active_channel = some p }) w)
    handle_active run ps w1

  -- `poller_->poll(kPollTimeMs, &activeChannels_)`, into an empty list.
  unfoldable pub poll_active : Env → World B S → World B S
  poll_active env w =
      let w1 = call (epoll_wait w.poller.events_size) w in
      let (r, ps) = poll (env.wait_result w1.poller.calls) w1.poller in
      on_loop (λ l. record l { active_channels = ps }) (record w1 { poller = r })

  -- One round of the `while` of `loopthread`.
  unfoldable pub loop_round :
      Env
      → (Callback → World B S → Option (World B S))
      → (Functor → World B S → Option (World B S))
      → World B S
      → Option (World B S)
  unfolding poll_active handle_active do_pending_functors
  loop_round env run exec w = do
    let w1 = poll_active env w
    w2 ←
        handle_active run w1.loop.active_channels
          (on_loop (λ l. record l { event_handling = true }) w1)
    do_pending_functors exec
        (on_loop (λ l. record l { current_active_channel = none; event_handling = false }) w2)

  -- `loopthread`, for at most `fuel` rounds.
  unfoldable pub rounds :
      Env
      → (Callback → World B S → Option (World B S))
      → (Functor → World B S → Option (World B S))
      → ℕ
      → World B S
      → Option (World B S)
  unfolding loop_round
  rounds env run exec zero w = some w
  rounds env run exec (suc fuel) w = elim w.loop.quit [
    | true ↦ some w
    | false ↦ loop_round env run exec w >>= rounds env run exec fuel
  ]

  unfoldable pub loopthread :
      Env
      → (Callback → World B S → Option (World B S))
      → (Functor → World B S → Option (World B S))
      → ℕ
      → World B S
      → Option (World B S)
  unfolding rounds
  loopthread env run exec fuel w =
      rounds env run exec fuel (on_loop (λ l. record l { quit = false }) w)
