-- ===== src/Reactor/TcpConnection/Lifecycle.antt =====
-- The states of a connection over any history of calls of its operations.
pub mod Server
pub mod Closed
use network_structure.Prelude.{
  ℕ, zero, suc, ◌≤◌, ◌≡◌, refl, inl, inr, true, Option, none, some, List, [], ◌∷◌, arith,
  Bool-cases, ◌>>=◌,
}
use network_structure.Reactor.Poller.{enable_reading, remove, write, disable_all}
use network_structure.Reactor.World.{
  on_channel, on_poller, fd_of, StateE, k_connecting, k_connected, k_disconnecting, k_disconnected,
  World, Env, WriteResult, wrote, write_failed, ReadResult, received, read_failed, call,
}
use network_structure.Reactor.TcpConnection.{
  buffer_of, after_write, attempt, notify_high_water, keep_rest, finish_send, send_in_loop, send,
  wrote_some, after_flush, handle_write, drained, conn_shutdown_in_loop, handle_error, handle_close,
  conn_force_close_in_loop, conn_established, conn_destroyed, after_read, state_of, User, Attempt,
  set_state, is_up, eq_state, flush_result, direct_result, is_direct,
}
use network_structure.Reactor.Buffer.{BufferOps}
use network_structure.Reactor.EventLoop.{queue_in_loop}

-- The order in which a connection lives.
abbrev pub rank : StateE → ℕ
rank k_connecting = 0
rank k_connected = 1
rank k_disconnecting = 2
rank k_disconnected = 3

module _ {B S : Type 0} (ops : BufferOps B) (env : Env) (c d : ℕ) where
  after_write-state :
      (bytes : List ℕ) (r : WriteResult) (w : World B S)
      → state_of (after_write c bytes r w).after d ≡ state_of w d
  unfolding after_write queue_in_loop
  after_write-state bytes (wrote n) w = ground arith
  after_write-state bytes (write_failed e) w = ground arith

  attempt-state :
      (bytes : List ℕ) (w : World B S) → state_of (attempt ops env c bytes w).after d ≡ state_of w d
  unfolding attempt
  attempt-state bytes w = elim (Bool-cases (is_direct ops env w c)) [
    | inl h ↦ rw h (after_write-state bytes (direct_result ops env w c bytes) _)
    | inr h ↦ rw h refl
  ]

  finish_send-state :
      (bytes : List ℕ) (a : Attempt B S)
      → state_of (finish_send ops env c bytes a) d ≡ state_of a.after d
  unfolding finish_send keep_rest notify_high_water queue_in_loop
  finish_send-state bytes a = ground arith

  pub send-state :
      (bytes : List ℕ) (w : World B S) → state_of (send ops env c bytes w) d ≡ state_of w d
  unfolding send send_in_loop
  send-state bytes w =
      ground (arith, finish_send-state bytes (attempt ops env c bytes w), attempt-state bytes w)

  after_flush-state :
      (r : WriteResult) (w : World B S) → state_of (after_flush ops env c r w) d ≡ state_of w d
  unfolding after_flush wrote_some drained conn_shutdown_in_loop queue_in_loop
  after_flush-state (wrote zero) w = refl
  after_flush-state (wrote (suc n)) w = ground arith
  after_flush-state (write_failed e) w = refl

  pub handle_write-state : (w : World B S) → state_of (handle_write ops env c w) d ≡ state_of w d
  unfolding handle_write
  handle_write-state w = ground (
    arith,
    after_flush-state (flush_result ops env w c)
        (call (write (fd_of w c) (ops.peek (buffer_of w c))) w),
  )

module _ {B S : Type 0} where
  -- No connection goes back.
  pub record Forward (w v : World B S) : Type 0 where
    pub ranks : (d : ℕ) → rank (state_of w d) ≤ rank (state_of v d)

  -- Nor in the world that a step returns, if it returns one.
  pub record Leads (w : World B S) (m : Option (World B S)) : Type 0 where
    pub goes : (v : World B S) → m ≡ some v → Forward w v

  pub Forward-trans : {u v w : World B S} → Forward u v → Forward v w → Forward u w
  Forward-trans p q = record { ranks = λ d. ground (arith, p.ranks d, q.ranks d) }

  pub Leads-some : {w v : World B S} → Forward w v → Leads w (some v)
  Leads-some p = record { goes = λ u e. record { ranks = λ d. ground (arith, e, p.ranks d) } }

  pub Leads-none : {w : World B S} → Leads w none
  Leads-none = record { goes = λ u e. ground (arith, e) }

  pub Leads-from : {u v : World B S} {m : Option (World B S)} → Forward u v → Leads v m → Leads u m
  Leads-from p l = record { goes = λ u e. Forward-trans p (l.goes u e) }

  pub Leads->>= :
      {w : World B S} (m : Option (World B S)) (f : World B S → Option (World B S))
      → Leads w m
      → ((v : World B S) → Leads v (f v))
      → Leads w (m >>= f)
  Leads->>= none f l h = Leads-none
  Leads->>= (some v) f l h = Leads-from (l.goes v refl) (h v)

  -- The callbacks of the server do not move a connection back.
  pub record UserForward (user : User B S) : Type 0 where
    pub connection : (c : ℕ) (w : World B S) → Leads w (user.connection_callback c w)
    pub message :
        (c : ℕ) (bytes : List ℕ) (w : World B S) → Leads w (user.message_callback c bytes w)
    pub close : (c : ℕ) (w : World B S) → Leads w (user.close_callback c w)

  module _ (user : User B S) (f : UserForward user) (c : ℕ) where
    pub handle_close-Leads : (w : World B S) → Leads w (handle_close user c w)
    unfolding handle_close
    handle_close-Leads w = elim (Bool-cases (is_up (state_of w c))) [
      | inr h ↦ rw h (Leads-some (record { ranks = λ d. ground arith }))
      | inl h ↦ rw h (
          let w1 = set_state c k_disconnected w in
          let w2 = on_poller (disable_all (w1.conns c).channel) w1 in
          Leads->>= (user.connection_callback c w2) (user.close_callback c)
            (Leads-from {v = w2} (record { ranks = λ d. ground arith }) (f.connection c w2))
            (λ v. f.close c v))
    ]

    pub force_close_in_loop-Leads : (w : World B S) → Leads w (conn_force_close_in_loop user c w)
    unfolding conn_force_close_in_loop
    force_close_in_loop-Leads w = elim (Bool-cases (is_up (state_of w c))) [
      | inr h ↦ rw h (Leads-some (record { ranks = λ d. ground arith }))
      | inl h ↦ rw h (handle_close-Leads w)
    ]

    pub established-Leads : (w : World B S) → Leads w (conn_established user c w)
    unfolding conn_established
    established-Leads w = elim (Bool-cases (eq_state (state_of w c) k_connecting)) [
      | inr h ↦ rw h Leads-none
      | inl h ↦ rw h (
          let w1 = set_state c k_connected w in
          let w2 =
            on_channel (w1.conns c).channel (λ ch. record ch { tie = some c; tied = true }) w1 in
          let w3 = on_poller (enable_reading (w2.conns c).channel) w2 in
          Leads-from {v = w3} (record { ranks = λ d. ground (arith, h) }) (f.connection c w3))
    ]

    pub destroyed-Leads : (w : World B S) → Leads w (conn_destroyed user c w)
    unfolding conn_destroyed
    destroyed-Leads w = elim (Bool-cases (eq_state (state_of w c) k_connected)) [
      | inr h ↦ rw h (Leads-some (record { ranks = λ d. ground arith }))
      | inl h ↦ rw h (
          let w2 = on_poller (disable_all (w.conns c).channel) (set_state c k_disconnected w) in
          Leads->>= (user.connection_callback c w2)
            (λ v. some (on_poller (remove (v.conns c).channel) v))
            (Leads-from {v = w2} (record { ranks = λ d. ground arith }) (f.connection c w2))
            (λ v. Leads-some (record { ranks = λ d. ground arith })))
    ]

    pub after_read-Leads :
        (env : Env) (r : ReadResult) (w : World B S) → Leads w (after_read env user c r w)
    unfolding after_read handle_error
    after_read-Leads env (received []) w = handle_close-Leads w
    after_read-Leads env (received (x ∷ xs)) w = f.message c (x ∷ xs) w
    after_read-Leads env (read_failed e) w = Leads-some (record { ranks = λ d. ground arith })
