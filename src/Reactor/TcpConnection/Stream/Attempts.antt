-- ===== src/Reactor/TcpConnection/Stream/Attempts.antt =====
-- The direct write of `sendInLoop`.
use mathlib.Core.List.{append-nil}
use network_structure.Prelude.{
  ℕ, ◌-◌, ◌≤◌, ◌==◌, ◌≡◌, refl, sym, ◌≢◌, ◌⊎◌, inl, inr, true, false, ◌&&◌, Bool-cases, List, [],
  ◌∷◌, ◌++◌, arith, length, take,
}
use network_structure.Reactor.Poller.{write}
use network_structure.Reactor.Buffer.{BufferOps}
use network_structure.Reactor.World.{
  World, Env, Errno, WriteResult, wrote, write_failed, fd_of, call, write_complete,
}
use network_structure.Reactor.TcpConnection.{
  Attempt, after_write, buffer_of, is_direct, direct_result, attempt,
}
use network_structure.Reactor.TcpConnection.Frame.{
  accepted, accepted-queue_in_loop, queue_in_loop-keeps,
}
use network_structure.Reactor.TcpConnection.Stream.{WritesFit, is_lost}

pub empty_buffer :
    {B : Type 0} (ops : BufferOps B) (b : B) → (ops.readable_bytes b == 0) ≡ true → ops.peek b ≡ []
empty_buffer ops b h = go (ops.peek b) (ground (arith, ops.readable_bytes_lem b))
  where
    go : (xs : List ℕ) → length xs ≡ 0 → xs ≡ []
    go [] e = refl
    go (x ∷ xs) e = absurd (omega arith)

pub WriteResult-cases :
    (r : WriteResult) → ((n : ℕ) × (r ≡ wrote n)) ⊎ ((e : Errno) × (r ≡ write_failed e))
WriteResult-cases (wrote n) = inl (n, refl)
WriteResult-cases (write_failed e) = inr (e, refl)

module _ {B S : Type 0} (ops : BufferOps B) (env : Env) where
  -- What is left to do after the direct write.
  pub record Attempted (c : ℕ) (bytes : List ℕ) (w : World B S) (a : Attempt B S) : Type 0 where
    pub conns : a.after.conns ≡ w.conns
    pub heap : a.after.poller.heap ≡ w.poller.heap
    pub wakeup : a.after.loop.wakeup_fd ≡ w.loop.wakeup_fd
    pub fits : a.nwrote ≤ length bytes
    pub remaining : a.fault_error ≡ false → a.remaining ≡ length bytes - a.nwrote
    pub taken_now :
        accepted env (fd_of w c) a.after.poller.calls
        ≡ accepted env (fd_of w c) w.poller.calls ++ take a.nwrote bytes
    pub fault : a.fault_error ≡ (is_direct ops env w c && is_lost (direct_result ops env w c bytes))
    pub stopped : a.fault_error ≡ true → a.nwrote ≡ 0
    pub idle : (a.nwrote ≡ 0) ⊎ (ops.peek (buffer_of w c) ≡ [])

  module _ (fit : WritesFit env) (c : ℕ) (bytes : List ℕ) (w : World B S)
      (apart : w.loop.wakeup_fd ≢ fd_of w c) where
    attempt-waits : is_direct ops env w c ≡ false → Attempted c bytes w (attempt ops env c bytes w)
    unfolding attempt
    attempt-waits h =
        rw (h, attempt)
          (record {
            conns = refl;
            heap = refl;
            wakeup = refl;
            fits = omega arith;
            remaining = λ e. omega arith;
            taken_now = sym (append-nil _);
            fault = rw h;
            stopped = λ e. refl;
            idle = inl refl;
          })

    attempt-fails :
        (e : Errno)
        → is_direct ops env w c ≡ true
        → direct_result ops env w c bytes ≡ write_failed e
        → Attempted c bytes w (attempt ops env c bytes w)
    unfolding attempt after_write
    attempt-fails e h r = record {
      conns = ground arith;
      heap = ground arith;
      wakeup = ground arith;
      fits = ground arith;
      remaining = ground arith;
      taken_now = ground arith;
      fault = ground arith;
      stopped = ground arith;
      idle = inr (empty_buffer ops (buffer_of w c) (ground arith));
    }

    attempt-writes :
        (n : ℕ)
        → is_direct ops env w c ≡ true
        → direct_result ops env w c bytes ≡ wrote n
        → Attempted c bytes w (attempt ops env c bytes w)
    unfolding attempt after_write
    attempt-writes n h r =
        let v = call (write (fd_of w c) bytes) w in
        let q = queue_in_loop-keeps (write_complete c) v in
        let k = accepted-queue_in_loop env (fd_of w c) (write_complete c) v apart in
        let le = fit (fd_of w c) n bytes w.poller.calls r in
        record {
          conns = ground (arith, q);
          heap = ground (arith, q);
          wakeup = ground (arith, q);
          fits = ground (arith, le);
          remaining = ground (arith, le);
          taken_now = ground (arith, k);
          fault = ground arith;
          stopped = ground arith;
          idle = inr (empty_buffer ops (buffer_of w c) (ground arith));
        }

    pub attempt-Attempted : Attempted c bytes w (attempt ops env c bytes w)
    attempt-Attempted = elim (Bool-cases (is_direct ops env w c)) [
      | inr h ↦ attempt-waits h
      | inl h ↦ elim (WriteResult-cases (direct_result ops env w c bytes)) [
        | inl (n, r) ↦ attempt-writes n h r
        | inr (e, r) ↦ attempt-fails e h r
      ]
    ]
