-- ===== src/Reactor/TcpConnection/Stream.antt =====
-- The byte stream of a connection: what the operating system has taken, then what waits.
pub mod Attempts
pub mod Finish
pub mod Laws
use network_structure.Prelude.{ℕ, ◌≤◌, ◌≡◌, Bool, false, ◌&&◌, ◌||◌, List, ◌∷◌, ◌++◌, length}
use network_structure.Reactor.Poller.{Syscall, write}
use network_structure.Reactor.Buffer.{BufferOps}
use network_structure.Reactor.World.{
  World, Env, WriteResult, wrote, write_failed, k_disconnected, fd_of,
}
use network_structure.Reactor.TcpConnection.{
  eq_state, state_of, buffer_of, is_direct, direct_result, is_fault,
}
use network_structure.Reactor.TcpConnection.Frame.{accepted}

-- write(2) takes no more than it is offered.
abbrev pub WritesFit : Env → Type 0
WritesFit env =
    (fd n : ℕ) (bytes : List ℕ)
    → (cs : List Syscall) → env.write_result (write fd bytes ∷ cs) ≡ wrote n
    → n ≤ length bytes

abbrev pub is_lost : WriteResult → Bool
is_lost (wrote n) = false
is_lost (write_failed e) = is_fault e

module _ {B S : Type 0} (ops : BufferOps B) (env : Env) where
  abbrev pub stream : World B S → ℕ → List ℕ
  stream w c = accepted env (fd_of w c) w.poller.calls ++ ops.peek (buffer_of w c)

  -- The call is dropped: nobody is there, or the direct write met EPIPE or ECONNRESET.
  abbrev pub is_dropped : World B S → ℕ → List ℕ → Bool
  is_dropped w c bytes =
      eq_state (state_of w c) k_disconnected
      || is_direct ops env w c && is_lost (direct_result ops env w c bytes)
