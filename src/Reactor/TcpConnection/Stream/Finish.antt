-- ===== src/Reactor/TcpConnection/Stream/Finish.antt =====
-- The rest of `sendInLoop`: what is put behind the bytes that wait.
use mathlib.Core.List.{append_assoc, append-nil}
use network_structure.Prelude.{
  ℕ, ◌+◌, ltb, ◌≡◌, sym, ◌∙◌, ◌≢◌, ◌⊎◌, inl, inr, true, false, List, [], ◌++◌, arith, take, drop,
  drop_all, take-append-drop,
}
use network_structure.Reactor.Channel.{with_write}
use network_structure.Reactor.Buffer.{BufferOps}
use network_structure.Reactor.World.{World, Env, fd_of, high_water_mark}
use network_structure.Reactor.TcpConnection.{
  Attempt, buffer_of, notify_high_water, keep_rest, finish_send,
}
use network_structure.Reactor.TcpConnection.Frame.{
  accepted, accepted-set_events, accepted-queue_in_loop, set_events-events, queue_in_loop-keeps,
}
use network_structure.Reactor.TcpConnection.Stream.{WritesFit, stream}
use network_structure.Reactor.TcpConnection.Stream.Attempts.{Attempted}

-- The first part of the stream, then the rest of the bytes behind what waited.
regroup :
    (sent old bytes : List ℕ) (n : ℕ)
    → (n ≡ 0) ⊎ (old ≡ [])
    → (sent ++ take n bytes) ++ (old ++ drop n bytes) ≡ (sent ++ old) ++ bytes
regroup sent old bytes n (inl e) = rw e (rw (append-nil sent) (sym (append_assoc sent old bytes)))
regroup sent old bytes n (inr e) =
    rw (
      e,
      append-nil sent,
      append_assoc sent (take n bytes) (drop n bytes),
      take-append-drop n bytes,
    )

module _ {B S : Type 0} (ops : BufferOps B) (env : Env) where
  -- The parts of the stream of `c` in two worlds.
  pub record Same (c : ℕ) (v w : World B S) : Type 0 where
    pub conns : v.conns ≡ w.conns
    pub heap : v.poller.heap ≡ w.poller.heap
    pub wakeup : v.loop.wakeup_fd ≡ w.loop.wakeup_fd
    pub sent : accepted env (fd_of w c) v.poller.calls ≡ accepted env (fd_of w c) w.poller.calls

  module _ (c : ℕ) (bytes : List ℕ) (w : World B S) (apart : w.loop.wakeup_fd ≢ fd_of w c) where
    pub notify-Same : (n : ℕ) → Same c (notify_high_water ops env c n w) w
    unfolding notify_high_water
    notify-Same n =
        let f = high_water_mark c (ops.readable_bytes (buffer_of w c) + n) in
        ground (arith, queue_in_loop-keeps f w, accepted-queue_in_loop env (fd_of w c) f w apart)

    pub keep_rest-stream :
        (n : ℕ)
        → (fd_of (keep_rest ops env c bytes n w) c ≡ fd_of w c)
          × (accepted env (fd_of w c) (keep_rest ops env c bytes n w).poller.calls
              ≡ accepted env (fd_of w c) w.poller.calls)
          × (ops.peek (buffer_of (keep_rest ops env c bytes n w) c)
              ≡ ops.peek (buffer_of w c) ++ drop n bytes)
    unfolding keep_rest
    keep_rest-stream n = ground (
      arith,
      ops.peek-append (buffer_of w c) (drop n bytes),
      set_events-events (w.conns c).channel with_write w.poller (w.conns c).channel,
      accepted-set_events env (fd_of w c) (w.conns c).channel with_write w.poller,
    )

  module _ (fit : WritesFit env) (c : ℕ) (bytes : List ℕ) (w : World B S)
      (apart : w.loop.wakeup_fd ≢ fd_of w c) where
    module _ (a : Attempt B S) (t : Attempted ops env c bytes w a) where
      pub finish-rest :
          a.fault_error ≡ false
          → ltb 0 a.remaining ≡ true
          → stream ops env (finish_send ops env c bytes a) c ≡ stream ops env w c ++ bytes
      unfolding finish_send
      finish-rest ok more =
          let v = notify_high_water ops env c a.remaining a.after in
          let same =
            notify-Same c bytes a.after (ground (arith, t.conns, t.heap, t.wakeup)) a.remaining in
          let kept =
            keep_rest-stream c bytes v (ground (arith, t.conns, t.heap, t.wakeup, same)) a.nwrote in
          ground (arith, t.conns, t.heap, t.taken_now, t.remaining ok, same, kept)
          ∙ regroup (accepted env (fd_of w c) w.poller.calls) (ops.peek (buffer_of w c)) bytes
              a.nwrote t.idle

      pub finish-done :
          a.fault_error ≡ false
          → ltb 0 a.remaining ≡ false
          → stream ops env (finish_send ops env c bytes a) c ≡ stream ops env w c ++ bytes
      unfolding finish_send
      finish-done ok done =
          ground (
            arith,
            t.conns,
            t.heap,
            t.taken_now,
            t.remaining ok,
            t.fits,
            drop_all a.nwrote bytes,
            append-nil (ops.peek (buffer_of w c)),
          )
          ∙ regroup (accepted env (fd_of w c) w.poller.calls) (ops.peek (buffer_of w c)) bytes
              a.nwrote t.idle

      pub finish-fault :
          a.fault_error ≡ true
          → stream ops env (finish_send ops env c bytes a) c ≡ stream ops env w c
      unfolding finish_send
      finish-fault lost = ground (
        arith,
        t.conns,
        t.heap,
        t.taken_now,
        t.stopped lost,
        append-nil (accepted env (fd_of w c) w.poller.calls),
      )
