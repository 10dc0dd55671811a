-- ===== src/Reactor/TcpConnection/Interest.antt =====
-- A connection waits for EPOLLOUT exactly while bytes are in its output buffer.
use network_structure.Reactor.TcpConnection.Stream.Attempts.{attempt-Attempted, Attempted}
use network_structure.Reactor.Poller.{Syscall}
use network_structure.Reactor.TcpConnection.{
  attempt, k_disconnected, eq_state, write_failed, set_buffer, wrote, call, WriteResult,
  conn_shutdown_in_loop, flush_result, send_in_loop, after_flush, drained, handle_write,
  notify_high_water, send, wrote_some, Attempt, state_of, buffer_of, keep_rest, finish_send,
}
use network_structure.Reactor.Channel.{without_write, is_writing, with_write}
use network_structure.Prelude.{
  ℕ, zero, suc, ◌<◌, ◌≡◌, refl, ◌∙◌, ◌≢◌, inl, inr, true, not, ◌&&◌, List, arith, ltb, leb, ◌==◌,
  Bool-cases, length, drop, length-append, length-drop,
}
use network_structure.Reactor.EventLoop.{queue_in_loop}
use network_structure.Reactor.TcpConnection.Stream.{WritesFit}
use network_structure.Reactor.TcpConnection.Stream.Finish.{notify-Same}
use network_structure.Reactor.Buffer.{BufferOps}
use network_structure.Reactor.World.{World, Env, channel_of, fd_of}
use network_structure.Reactor.TcpConnection.Frame.{set_events-events}

module _ {B S : Type 0} (ops : BufferOps B) where
  -- `isWriting` says whether bytes wait, and the loop's descriptor is not the connection's.
  pub record Interest (c : ℕ) (w : World B S) : Type 0 where
    pub writing : is_writing (channel_of w c) ≡ ltb 0 (ops.readable_bytes (buffer_of w c))
    pub apart : w.loop.wakeup_fd ≢ fd_of w c

  -- What sending and flushing leave alone.
  pub record Kept (c : ℕ) (v w : World B S) : Type 0 where
    pub fd : fd_of v c ≡ fd_of w c
    pub state : state_of v c ≡ state_of w c
    pub interest : Interest c v

  Kept-via :
      {c : ℕ} {u v w : World B S}
      → fd_of v c ≡ fd_of w c
      → state_of v c ≡ state_of w c
      → Kept c u v
      → Kept c u w
  Kept-via f s k = record { fd = k.fd ∙ f; state = k.state ∙ s; interest = k.interest }

  module _ (env : Env) (c : ℕ) (bytes : List ℕ) where
    keep_rest-Kept :
        (n : ℕ) (w : World B S)
        → n < length bytes
        → w.loop.wakeup_fd ≢ fd_of w c
        → Kept c (keep_rest ops env c bytes n w) w
    unfolding keep_rest
    keep_rest-Kept n w lt apart =
        let e = set_events-events (w.conns c).channel with_write w.poller (w.conns c).channel in
        let l = ops.readable_bytes_lem (ops.append (buffer_of w c) (drop n bytes)) in
        let k = ops.peek-append (buffer_of w c) (drop n bytes) in
        let m = length-append (ops.peek (buffer_of w c)) (drop n bytes) in
        let d = length-drop n bytes in
        record {
          fd = ground (arith, e);
          state = ground arith;
          interest = record { writing = ground (arith, e, l, k, m, d); apart = ground (arith, e) };
        }

    module _ (w : World B S) (i : Interest c w) (a : Attempt B S)
        (t : Attempted ops env c bytes w a) where
      finish-Kept : Kept c (finish_send ops env c bytes a) w
      unfolding finish_send
      finish-Kept =
          elim (Bool-cases
            (leb a.remaining (length bytes) && (not a.fault_error && ltb 0 a.remaining))) [
              | inr done ↦ rw done (record {
                fd = ground (arith, t.conns, t.heap);
                state = ground (arith, t.conns);
                interest = record {
                  writing = ground (arith, t.conns, t.heap, i.writing);
                  apart = ground (arith, t.conns, t.heap, t.wakeup, i.apart);
                };
              })
              | inl more ↦
                  let v = notify_high_water ops env c a.remaining a.after in
                  let same =
                    notify-Same ops env c bytes a.after
                      (ground (arith, t.conns, t.heap, t.wakeup, i.apart)) a.remaining in
                  rw more (
                    Kept-via (ground (arith, t.conns, t.heap, same)) (ground (arith, t.conns, same))
                      (keep_rest-Kept a.nwrote v (ground (arith, t.remaining))
                        (ground (arith, t.conns, t.heap, t.wakeup, same, i.apart))))
            ]

  module _ (env : Env) (c : ℕ) (w : World B S) (i : Interest c w) where
    pub send-Kept : WritesFit env → (bytes : List ℕ) → Kept c (send ops env c bytes w) w
    unfolding send send_in_loop
    send-Kept fit bytes = elim (Bool-cases (eq_state (state_of w c) k_disconnected)) [
      | inl gone ↦ rw gone (record { fd = refl; state = refl; interest = i })
      | inr here ↦ rw here (
          finish-Kept env c bytes w i (attempt ops env c bytes w)
            (attempt-Attempted ops env fit c bytes w i.apart))
    ]

  drained-Kept :
      (c : ℕ) (w : World B S)
      → (ops.readable_bytes (buffer_of w c) == 0) ≡ true
      → w.loop.wakeup_fd ≢ fd_of w c
      → Kept c (drained c w) w
  unfolding drained conn_shutdown_in_loop queue_in_loop
  drained-Kept c w done apart =
      let e = set_events-events (w.conns c).channel without_write w.poller (w.conns c).channel in
      record {
        fd = ground (arith, e);
        state = ground (arith, e);
        interest = record { writing = ground (arith, e); apart = ground (arith, e) };
      }

  module _ (env : Env) (c : ℕ) (w : World B S) (i : Interest c w) where
    wrote_some-Kept :
        (n : ℕ) (s : Syscall)
        → is_writing (channel_of w c) ≡ true
        → Kept c (wrote_some ops env c n (call s w)) w
    unfolding wrote_some
    wrote_some-Kept n s busy =
        let v = call s w in
        let u = set_buffer c (ops.retrieve (buffer_of v c) n) v in
        elim (Bool-cases (ops.readable_bytes (buffer_of u c) == 0)) [
          | inl done ↦ rw done (
              Kept-via (ground arith) (ground arith)
                (drained-Kept c u done (ground (arith, i.apart))))
          | inr more ↦ rw more (record {
            fd = ground arith;
            state = ground arith;
            interest = record { writing = ground (arith, busy); apart = ground (arith, i.apart) };
          })
        ]

    after_flush-Kept :
        (r : WriteResult) (s : Syscall)
        → is_writing (channel_of w c) ≡ true
        → Kept c (after_flush ops env c r (call s w)) w
    unfolding after_flush
    after_flush-Kept (wrote zero) s busy = record {
      fd = refl;
      state = refl;
      interest = record { writing = i.writing; apart = i.apart };
    }
    after_flush-Kept (wrote (suc n)) s busy = wrote_some-Kept (suc n) s busy
    after_flush-Kept (write_failed e) s busy = record {
      fd = refl;
      state = refl;
      interest = record { writing = i.writing; apart = i.apart };
    }

    pub handle_write-Kept : Kept c (handle_write ops env c w) w
    unfolding handle_write
    handle_write-Kept = elim (Bool-cases (is_writing (channel_of w c))) [
      | inr idle ↦ rw idle (record { fd = refl; state = refl; interest = i })
      | inl busy ↦ rw busy (after_flush-Kept (flush_result ops env w c) _ busy)
    ]
