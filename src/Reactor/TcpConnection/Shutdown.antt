-- ===== src/Reactor/TcpConnection/Shutdown.antt =====
-- The half close of a connection comes after its data.
use network_structure.Prelude.{
  ℕ, zero, suc, ◌+◌, ◌≡◌, inl, inr, false, ◌&&◌, List, [], ◌∷◌, arith, ltb, ◌==◌, if◌then◌else◌,
  Bool-cases,
}
use network_structure.Reactor.TcpConnection.{
  drained, conn_shutdown_in_loop, wrote_some, after_flush, handle_write, flush_result, set_buffer,
  eq_state, state_of, buffer_of,
}
use network_structure.Reactor.TcpConnection.Interest.{Interest}
use network_structure.Reactor.TcpConnection.Frame.{set_events-events}
use network_structure.Reactor.EventLoop.{queue_in_loop}
use network_structure.Reactor.Buffer.{BufferOps}
use network_structure.Reactor.World.{
  World, Env, WriteResult, wrote, write_failed, call, channel_of, fd_of, k_disconnecting,
}
use network_structure.Reactor.Poller.{write, Syscall, shutdown_write, set_events}
use network_structure.Reactor.Channel.{without_write, is_writing, Flags}
use network_structure.Reactor.Poller.Synced.{ChannelIndex-cases}

-- How often a trace closes a descriptor for writing.
abbrev pub half_closes : List Syscall → ℕ
half_closes [] = 0
half_closes (shutdown_write fd ∷ cs) = suc (half_closes cs)
half_closes (_ ∷ cs) = half_closes cs

half_closes-set_events :
    (p : ℕ) (f : Flags → Flags) (r : _) → half_closes (set_events p f r).calls ≡ half_closes r.calls
unfolding set_events
half_closes-set_events p f r = elim (ChannelIndex-cases (r.heap p).index) [
  | inl e ↦ ground arith
  | inr (inl e) ↦ ground arith
  | inr (inr e) ↦ ground arith
]

module _ {B S : Type 0} (c : ℕ) where
  drained-half_closes :
      (w : World B S)
      → (half_closes (drained c w).poller.calls
          ≡ half_closes w.poller.calls + (if eq_state (state_of w c) k_disconnecting then 1 else 0))
        × (buffer_of (drained c w) c ≡ buffer_of w c)
  unfolding drained conn_shutdown_in_loop queue_in_loop
  drained-half_closes w = ground (
    arith,
    half_closes-set_events (w.conns c).channel without_write w.poller,
    set_events-events (w.conns c).channel without_write w.poller (w.conns c).channel,
  )

  module _ (ops : BufferOps B) (env : Env) where
    -- What `handleWrite` does of a half close, from its write on.
    abbrev Closes : World B S → World B S → Type 0
    Closes w v =
        half_closes v.poller.calls
        ≡ half_closes w.poller.calls
          + (if (ops.readable_bytes (buffer_of v c) == 0) && eq_state (state_of w c) k_disconnecting
              then 1
              else 0)

    wrote_some-Closes :
        (n : ℕ) (w : World B S) (fd : ℕ) (bytes : List ℕ)
        → Closes w (wrote_some ops env c n (call (write fd bytes) w))
    unfolding wrote_some
    wrote_some-Closes n w fd bytes =
        let v = call (write fd bytes) w in
        let u = set_buffer c (ops.retrieve (buffer_of v c) n) v in
        elim (Bool-cases (ops.readable_bytes (buffer_of u c) == 0)) [
          | inl done ↦ rw done (ground (arith, drained-half_closes u))
          | inr more ↦ rw more (ground arith)
        ]

    after_flush-Closes :
        (r : WriteResult) (w : World B S) (fd : ℕ) (bytes : List ℕ)
        → (ops.readable_bytes (buffer_of w c) == 0) ≡ false
        → Closes w (after_flush ops env c r (call (write fd bytes) w))
    unfolding after_flush
    after_flush-Closes (wrote zero) w fd bytes h = ground arith
    after_flush-Closes (wrote (suc n)) w fd bytes h = wrote_some-Closes (suc n) w fd bytes
    after_flush-Closes (write_failed e) w fd bytes h = ground arith

    -- For a connection that waits for EPOLLOUT exactly while bytes wait, a half close comes after
    -- the data, and comes at all. `shutdownInLoop` closes the socket for
    -- writing exactly where no byte waits; `handleWrite` does so exactly where bytes waited, the
    -- write has taken the last of them, and the connection is disconnecting.
    pub half_close_after_data :
        (w : World B S)
        → Interest ops c w
        → (half_closes (conn_shutdown_in_loop c w).poller.calls
            ≡ half_closes w.poller.calls
              + (if ops.readable_bytes (buffer_of w c) == 0 then 1 else 0))
          × (half_closes (handle_write ops env c w).poller.calls
              ≡ half_closes w.poller.calls
                + (if ltb 0 (ops.readable_bytes (buffer_of w c))
                      && ((ops.readable_bytes (buffer_of (handle_write ops env c w) c) == 0)
                          && eq_state (state_of w c) k_disconnecting)
                    then 1
                    else 0))
    unfolding handle_write conn_shutdown_in_loop
    half_close_after_data w i = (
      ground (arith, i.writing),
      elim (Bool-cases (is_writing (channel_of w c))) [
        | inr idle ↦ ground (arith, i.writing)
        | inl busy ↦
            let k =
              after_flush-Closes (flush_result ops env w c) w (fd_of w c) (ops.peek (buffer_of w c))
                (ground (arith, i.writing)) in
            ground (arith, i.writing, k)
      ],
    )
