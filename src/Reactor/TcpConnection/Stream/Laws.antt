-- ===== src/Reactor/TcpConnection/Stream/Laws.antt =====
-- No byte is lost, repeated or reordered.
use mathlib.Core.List.{append_assoc, append-nil}
use network_structure.Prelude.{
  refl, take-append-drop, ap, drop, take, zero, suc, ℕ, ltb, ◌≡◌, sym, ◌∙◌, ◌≢◌, inl, inr,
  Bool-cases, List, ◌++◌, arith, if◌then◌else◌,
}
use network_structure.Reactor.TcpConnection.{
  channel_of, write, eq_state, state_of, buffer_of, attempt, send, send_in_loop, drained,
  wrote_some, handle_write, flush_result, after_flush, conn_shutdown_in_loop, set_buffer,
}
use network_structure.Reactor.Channel.{is_writing, without_write}
use network_structure.Reactor.World.{
  WriteResult, wrote, write_failed, call, World, Env, k_disconnected, fd_of,
}
use network_structure.Reactor.Buffer.{BufferOps}
use network_structure.Reactor.EventLoop.{queue_in_loop}
use network_structure.Reactor.TcpConnection.Frame.{accepted, accepted-set_events, set_events-events}
use network_structure.Reactor.TcpConnection.Stream.{WritesFit, stream, is_dropped}
use network_structure.Reactor.TcpConnection.Stream.Attempts.{attempt-Attempted}
use network_structure.Reactor.TcpConnection.Stream.Finish.{finish-rest, finish-done, finish-fault}

module _ {B S : Type 0} (env : Env) (c : ℕ) (w : World B S) where
  drained-keeps :
      w.loop.wakeup_fd ≢ fd_of w c
      → (fd_of (drained c w) c ≡ fd_of w c)
        × (accepted env (fd_of w c) (drained c w).poller.calls
            ≡ accepted env (fd_of w c) w.poller.calls)
        × (buffer_of (drained c w) c ≡ buffer_of w c)
  unfolding drained conn_shutdown_in_loop queue_in_loop
  drained-keeps apart = ground (
    arith,
    set_events-events (w.conns c).channel without_write w.poller (w.conns c).channel,
    accepted-set_events env (fd_of w c) (w.conns c).channel without_write w.poller,
  )

module _ {B S : Type 0} (ops : BufferOps B) (env : Env) (fit : WritesFit env) (c : ℕ)
    (w : World B S) where
  -- Where a write takes no more than it is offered, and the loop's own descriptor is another one:
  -- `send` puts its bytes at the end of the stream of the connection, whether they go out at once,
  -- in part or not at all, unless the connection is disconnected or the direct write meets EPIPE or
  -- ECONNRESET, where it leaves the stream as it is.
  pub stream-send :
      (bytes : List ℕ)
      → w.loop.wakeup_fd ≢ fd_of w c
      → stream ops env (send ops env c bytes w) c
        ≡ (if is_dropped ops env w c bytes then stream ops env w c else stream ops env w c ++ bytes)
  unfolding send send_in_loop
  stream-send bytes apart =
      let a = attempt ops env c bytes w in
      let t = attempt-Attempted ops env fit c bytes w apart in
      elim (Bool-cases (eq_state (state_of w c) k_disconnected)) [
        | inl gone ↦ rw gone
        | inr here ↦ rw here (elim (Bool-cases a.fault_error) [
          | inl lost ↦ rw (sym t.fault ∙ lost) (finish-fault ops env fit c bytes w apart a t lost)
          | inr ok ↦ rw (sym t.fault ∙ ok) (elim (Bool-cases (ltb 0 a.remaining)) [
            | inl more ↦ finish-rest ops env fit c bytes w apart a t ok more
            | inr done ↦ finish-done ops env fit c bytes w apart a t ok done
          ])
        ])
      ]

  flush-stream :
      (n : ℕ)
      → w.loop.wakeup_fd ≢ fd_of w c
      → flush_result ops env w c ≡ wrote n
      → stream ops env
          (wrote_some ops env c n (call (write (fd_of w c) (ops.peek (buffer_of w c))) w))
          c
        ≡ stream ops env w c
  unfolding wrote_some
  flush-stream n apart r =
      let bytes = ops.peek (buffer_of w c) in
      let v = call (write (fd_of w c) bytes) w in
      let u = set_buffer c (ops.retrieve (buffer_of v c) n) v in
      ground (
        arith,
        ops.peek-retrieve (buffer_of w c) n (fit (fd_of w c) n bytes w.poller.calls r),
        drained-keeps env c u (ground arith),
      )
      ∙ append_assoc (accepted env (fd_of w c) w.poller.calls) (take n bytes) (drop n bytes)
      ∙ ap (◌++◌ (accepted env (fd_of w c) w.poller.calls)) (take-append-drop n bytes)

  after_flush-stream :
      (r : WriteResult)
      → w.loop.wakeup_fd ≢ fd_of w c
      → flush_result ops env w c ≡ r
      → stream ops env
          (after_flush ops env c r (call (write (fd_of w c) (ops.peek (buffer_of w c))) w))
          c
        ≡ stream ops env w c
  unfolding after_flush
  after_flush-stream (wrote zero) apart r =
      ground (arith, append-nil (accepted env (fd_of w c) w.poller.calls))
  after_flush-stream (wrote (suc n)) apart r = flush-stream (suc n) apart r
  after_flush-stream (write_failed e) apart r =
      ground (arith, append-nil (accepted env (fd_of w c) w.poller.calls))

  -- Where a write takes no more than it is offered, and the loop's own descriptor is another one:
  -- `handleWrite` leaves the stream as it is, whatever its write returns: it only moves bytes from
  -- the front of the output buffer to the operating system.
  pub stream-handle_write :
      w.loop.wakeup_fd ≢ fd_of w c
      → stream ops env (handle_write ops env c w) c ≡ stream ops env w c
  unfolding handle_write
  stream-handle_write apart = elim (Bool-cases (is_writing (channel_of w c))) [
    | inr idle ↦ rw idle
    | inl busy ↦ rw busy (after_flush-stream (flush_result ops env w c) apart refl)
  ]
