-- ===== src/Reactor/TcpConnection/Lifecycle/Server.antt =====
-- Sending and flushing leave the server's state alone.
use network_structure.Prelude.{ℕ, zero, suc, ◌≡◌, refl, inl, inr, List, arith, Bool-cases}
use network_structure.Reactor.TcpConnection.{
  after_write, attempt, notify_high_water, keep_rest, finish_send, send_in_loop, send, wrote_some,
  after_flush, handle_write, drained, conn_shutdown_in_loop, Attempt, flush_result, direct_result,
  is_direct, buffer_of,
}
use network_structure.Reactor.EventLoop.{queue_in_loop}
use network_structure.Reactor.Buffer.{BufferOps}
use network_structure.Reactor.Poller.{write}
use network_structure.Reactor.World.{World, Env, WriteResult, wrote, write_failed, call, fd_of}

module _ {B S : Type 0} (ops : BufferOps B) (env : Env) (c : ℕ) where
  after_write-server :
      (bytes : List ℕ) (r : WriteResult) (w : World B S)
      → (after_write c bytes r w).after.server ≡ w.server
  unfolding after_write queue_in_loop
  after_write-server bytes (wrote n) w = ground arith
  after_write-server bytes (write_failed e) w = ground arith

  attempt-server :
      (bytes : List ℕ) (w : World B S) → (attempt ops env c bytes w).after.server ≡ w.server
  unfolding attempt
  attempt-server bytes w = elim (Bool-cases (is_direct ops env w c)) [
    | inl h ↦ rw h (after_write-server bytes (direct_result ops env w c bytes) _)
    | inr h ↦ rw h refl
  ]

  finish_send-server :
      (bytes : List ℕ) (a : Attempt B S) → (finish_send ops env c bytes a).server ≡ a.after.server
  unfolding finish_send keep_rest notify_high_water queue_in_loop
  finish_send-server bytes a = ground arith

  pub send-server : (bytes : List ℕ) (w : World B S) → (send ops env c bytes w).server ≡ w.server
  unfolding send send_in_loop
  send-server bytes w =
      let a = attempt ops env c bytes w in
      ground (arith, finish_send-server bytes a, attempt-server bytes w)

  after_flush-server :
      (r : WriteResult) (w : World B S) → (after_flush ops env c r w).server ≡ w.server
  unfolding after_flush wrote_some drained conn_shutdown_in_loop queue_in_loop
  after_flush-server (wrote zero) w = refl
  after_flush-server (wrote (suc n)) w = ground arith
  after_flush-server (write_failed e) w = refl

  pub handle_write-server : (w : World B S) → (handle_write ops env c w).server ≡ w.server
  unfolding handle_write
  handle_write-server w =
      let v = call (write (fd_of w c) (ops.peek (buffer_of w c))) w in
      ground (arith, after_flush-server (flush_result ops env w c) v)
