-- ===== src/Reactor/TcpConnection/Lifecycle/Closed.antt =====
-- A connection lives once, over every sequence of calls of its operations.
use network_structure.Prelude.{
  ℕ, ◌≤◌, ◌≡◌, refl, inl, inr, Option, some, List, [], ◌∷◌, arith, Bool-cases, ◌>>=◌,
}
use network_structure.Reactor.World.{k_connecting, k_disconnecting}
use network_structure.Reactor.TcpConnection.{
  fd_of, k_disconnected, read, StateE, call, k_connected, send_in_loop, World, Env, BufferOps, send,
  handle_write, conn_shutdown_in_loop, shutdown, force_close, handle_close,
  conn_force_close_in_loop, conn_established, conn_destroyed, handle_read, state_of, User, eq_state,
}
use network_structure.Reactor.TcpConnection.Lifecycle.{
  rank, Leads, UserForward, Leads-some, Leads-from, Leads->>=, handle_close-Leads,
  force_close_in_loop-Leads, established-Leads, destroyed-Leads, after_read-Leads, send-state,
  handle_write-state,
}
use network_structure.Reactor.EventLoop.{queue_in_loop, run_in_loop}

-- The calls that the loop and the program make of a connection.
pub data ConnCall : Type 0 where
  sends : List ℕ → ConnCall
  shuts forces established destroyed readable writable hung_up : ConnCall
  shutdown_queued force_close_queued : ConnCall

module _ {B S : Type 0} (ops : BufferOps B) (env : Env) (user : User B S) where
  unfoldable pub make : ConnCall → ℕ → World B S → Option (World B S)
  make (sends bytes) c w = some (send ops env c bytes w)
  make shuts c w = shutdown c w
  make forces c w = some (force_close c w)
  make established c w = conn_established user c w
  make destroyed c w = conn_destroyed user c w
  make readable c w = handle_read env user c w
  make writable c w = some (handle_write ops env c w)
  make hung_up c w = handle_close user c w
  make shutdown_queued c w = some (conn_shutdown_in_loop c w)
  make force_close_queued c w = conn_force_close_in_loop user c w

  unfoldable pub make_all : List (ConnCall × ℕ) → World B S → Option (World B S)
  make_all [] w = some w
  make_all ((e, c) ∷ es) w = make e c w >>= make_all es

  shutdown-Leads : (c : ℕ) (w : World B S) → Leads w (shutdown c w)
  unfolding shutdown run_in_loop queue_in_loop conn_shutdown_in_loop
  shutdown-Leads c w = elim (Bool-cases (eq_state (state_of w c) k_connected)) [
    | inr h ↦ rw h (Leads-some (record { ranks = λ d. ground arith }))
    | inl h ↦ rw h (record { goes = λ v e. record { ranks = λ d. ground (arith, h, e) } })
  ]

  disconnected-last : (s : StateE) → 3 ≤ rank s → s ≡ k_disconnected
  disconnected-last k_disconnected h = refl
  disconnected-last k_connecting h = ground (arith, h)
  disconnected-last k_connected h = ground (arith, h)
  disconnected-last k_disconnecting h = ground (arith, h)

  module _ (f : UserForward user) where
    make-Leads : (e : ConnCall) (c : ℕ) (w : World B S) → Leads w (make e c w)
    unfolding make conn_shutdown_in_loop force_close queue_in_loop handle_read
    make-Leads (sends bytes) c w =
        Leads-some (record { ranks = λ d. ground (arith, send-state ops env c d bytes w) })
    make-Leads shuts c w = shutdown-Leads c w
    make-Leads forces c w = Leads-some (record { ranks = λ d. ground arith })
    make-Leads established c w = established-Leads user f c w
    make-Leads destroyed c w = destroyed-Leads user f c w
    make-Leads readable c w =
        let v = call (read (fd_of w c) 1024) w in
        Leads-from {v = v} (record { ranks = λ d. ground arith })
          (after_read-Leads user f c env (env.read_result v.poller.calls) v)
    make-Leads writable c w =
        Leads-some (record { ranks = λ d. ground (arith, handle_write-state ops env c d w) })
    make-Leads hung_up c w = handle_close-Leads user f c w
    make-Leads shutdown_queued c w = Leads-some (record { ranks = λ d. ground arith })
    make-Leads force_close_queued c w = force_close_in_loop-Leads user f c w

    make_all-Leads : (es : List (ConnCall × ℕ)) (w : World B S) → Leads w (make_all es w)
    unfolding make_all
    make_all-Leads [] w = Leads-some (record { ranks = λ d. ground arith })
    make_all-Leads ((e, c) ∷ es) w =
        Leads->>= (make e c w) (make_all es) (make-Leads e c w) (make_all-Leads es)

    -- Where the server's callbacks move no connection back, no sequence of calls moves one back:
    -- each goes from connecting over connected and disconnecting to disconnected, some of which it
    -- may skip.
    pub states_go_forward :
        (es : List (ConnCall × ℕ)) (w v : World B S)
        → make_all es w ≡ some v
        → (d : ℕ) → rank (state_of w d) ≤ rank (state_of v d)
    states_go_forward es w v e d = ((make_all-Leads es w).goes v e).ranks d

    -- Where the server's callbacks move no connection back, a connection that is disconnected stays
    -- so whatever is called then, and `handleClose`, `forceCloseInLoop`, `forceClose` and `send` do
    -- nothing to it.
    closed_once :
        (es : List (ConnCall × ℕ)) (c : ℕ) (w v : World B S)
        → state_of w c ≡ k_disconnected
        → make_all es w ≡ some v
        → (state_of v c ≡ k_disconnected)
          × (handle_close user c v ≡ some v)
          × (conn_force_close_in_loop user c v ≡ some v)
          × (force_close c v ≡ v)
          × ((bytes : List ℕ) → send ops env c bytes v ≡ v)
    unfolding handle_close conn_force_close_in_loop send send_in_loop force_close
    closed_once es c w v e h =
        let s =
          disconnected-last (state_of v c) (ground (arith, states_go_forward es w v h c, e)) in
        (s, rw s refl, rw s refl, rw s refl, λ bytes. rw s refl)
