-- ===== src/Reactor/TcpConnection.antt =====
-- Network/src/TcpConnection.cpp and TcpConnection.h. A connection is named by its address `c`;
-- `user` holds the callbacks that the server sets on it. An assertion that fails, and a callback
-- that is undefined, are `none`. `send` takes the bytes that its pointer and length stand for.
pub mod Frame
pub mod Stream
pub mod Interest
pub mod Lifecycle
pub mod Shutdown
pub mod Transcript
use network_structure.Prelude.{
  ◌>>=◌, ℕ, zero, suc, ◌+◌, ◌-◌, ◌*◌, ◌^◌, ltb, leb, ◌==◌, Bool, true, false, not, ◌&&◌, ◌||◌, List,
  [], ◌∷◌, Option, none, some, if◌then◌else◌, length, drop,
}
use network_structure.Reactor.Channel.{
  conn_handle_read, conn_handle_write, conn_handle_close, conn_handle_error, new_channel,
  is_writing,
}
use network_structure.Reactor.Poller.{
  write, read, shutdown_write, shutdown_read_write, close, enable_reading, enable_writing,
  disable_writing, disable_all, remove,
}
use network_structure.Reactor.Buffer.{BufferOps}
use network_structure.Reactor.World.{
  StateE, k_disconnected, k_connecting, k_connected, k_disconnecting, Functor, write_complete,
  high_water_mark, World, Errno, epipe, econnreset, WriteResult, wrote, write_failed, ReadResult,
  received, read_failed, Env, call, on_poller, on_conn, on_channel, channel_of, fd_of,
}
use network_structure.Reactor.EventLoop.{queue_in_loop, run_in_loop}

-- The callbacks that a connection is given.
pub record User (B S : Type 0) : Type 0 where
  pub connection_callback : ℕ → World B S → Option (World B S)
  pub message_callback : ℕ → List ℕ → World B S → Option (World B S)
  pub close_callback : ℕ → World B S → Option (World B S)

abbrev pub eq_state : StateE → StateE → Bool
eq_state k_disconnected k_disconnected = true
eq_state k_connecting k_connecting = true
eq_state k_connected k_connected = true
eq_state k_disconnecting k_disconnecting = true
eq_state _ _ = false

abbrev pub is_up : StateE → Bool
is_up s = eq_state s k_connected || eq_state s k_disconnecting

-- `errno == EPIPE || errno == ECONNRESET`
abbrev pub is_fault : Errno → Bool
is_fault epipe = true
is_fault econnreset = true
is_fault _ = false

-- `len - nwrote` on `size_t`.
abbrev pub sub_size : ℕ → ℕ → ℕ
sub_size len n = if leb n len then len - n else len + 2 ^ 64 - n

-- What the direct write of `sendInLoop` leaves in its local variables, and the world after it.
pub record Attempt (B S : Type 0) : Type 0 where
  pub nwrote : ℕ
  pub remaining : ℕ
  pub fault_error : Bool
  pub after : World B S

module _ {B S : Type 0} where
  abbrev pub state_of : World B S → ℕ → StateE
  state_of w c = (w.conns c).state

  abbrev pub buffer_of : World B S → ℕ → B
  buffer_of w c = (w.conns c).output_buffer

  abbrev pub set_state : ℕ → StateE → World B S → World B S
  set_state c s = on_conn c (λ k. record k { state = s })

  abbrev pub set_buffer : ℕ → B → World B S → World B S
  set_buffer c b = on_conn c (λ k. record k { output_buffer = b })

  unfoldable pub after_write : ℕ → List ℕ → WriteResult → World B S → Attempt B S
  after_write c bytes (wrote n) w = record {
    nwrote = n;
    remaining = sub_size (length bytes) n;
    fault_error = false;
    after =
        if (sub_size (length bytes) n == 0) && (w.conns c).write_complete_callback
        then queue_in_loop (write_complete c) w
        else w;
  }
  after_write c bytes (write_failed e) w = record {
    nwrote = 0;
    remaining = length bytes;
    fault_error = is_fault e;
    after = w;
  }

  unfoldable pub conn_shutdown_in_loop : ℕ → World B S → World B S
  conn_shutdown_in_loop c w =
      if is_writing (channel_of w c) then w else call (shutdown_write (w.conns c).socket) w

  unfoldable pub shutdown : ℕ → World B S → Option (World B S)
  shutdown c w =
      if eq_state (state_of w c) k_connected
      then run_in_loop (λ v. some (conn_shutdown_in_loop c v)) (Functor.shutdown_in_loop c)
          (set_state c k_disconnecting w)
      else some w

  unfoldable pub force_close : ℕ → World B S → World B S
  force_close c w =
      if is_up (state_of w c)
      then queue_in_loop (Functor.force_close_in_loop c) (set_state c k_disconnecting w)
      else w

  -- What follows a `write` of `handleWrite` that took `n` bytes.
  unfoldable pub drained : ℕ → World B S → World B S
  drained c w =
      let w1 = on_poller (disable_writing (w.conns c).channel) w in
      let w2 =
        if (w1.conns c).write_complete_callback then queue_in_loop (write_complete c) w1 else w1 in
      if eq_state (state_of w2 c) k_disconnecting then conn_shutdown_in_loop c w2 else w2

  -- It only logs.
  unfoldable pub handle_error : ℕ → World B S → World B S
  handle_error c w = w

  -- `TcpConnection::~TcpConnection`
  unfoldable pub destruct : ℕ → World B S → World B S
  destruct c w =
      let w1 = call (close (fd_of w c)) (call (shutdown_read_write (fd_of w c)) w) in
      record w1 { expired = λ d. if c == d then true else w1.expired d }

module _ {B S : Type 0} (user : User B S) where
  unfoldable pub handle_close : ℕ → World B S → Option (World B S)
  handle_close c w =
      if is_up (state_of w c)
      then (do
        let w1 = set_state c k_disconnected w
        let w2 = on_poller (disable_all (w1.conns c).channel) w1
        w3 ← user.connection_callback c w2
        user.close_callback c w3)
      else some w

  unfoldable pub conn_force_close_in_loop : ℕ → World B S → Option (World B S)
  conn_force_close_in_loop c w = if is_up (state_of w c) then handle_close c w else some w

  -- `connectEstablished` asserts the state that it expects.
  unfoldable pub conn_established : ℕ → World B S → Option (World B S)
  conn_established c w =
      if eq_state (state_of w c) k_connecting
      then (let w1 = set_state c k_connected w in
          let w2 =
            on_channel (w1.conns c).channel (λ ch. record ch { tie = some c; tied = true }) w1 in
          user.connection_callback c (on_poller (enable_reading (w2.conns c).channel) w2))
      else none

  unfoldable pub conn_destroyed : ℕ → World B S → Option (World B S)
  conn_destroyed c w = do
    w1 ←
        (if eq_state (state_of w c) k_connected
          then user.connection_callback c
              (on_poller (disable_all (w.conns c).channel) (set_state c k_disconnected w))
          else some w)
    some (on_poller (remove (w1.conns c).channel) w1)

module _ {B S : Type 0} (ops : BufferOps B) (env : Env) where
  -- Nothing waits in the output buffer, so the bytes may go out at once.
  abbrev pub is_direct : World B S → ℕ → Bool
  is_direct w c = not (is_writing (channel_of w c)) && (ops.readable_bytes (buffer_of w c) == 0)

  -- The result of that write.
  abbrev pub direct_result : World B S → ℕ → List ℕ → WriteResult
  direct_result w c bytes = env.write_result (write (fd_of w c) bytes ∷ w.poller.calls)

  unfoldable pub attempt : ℕ → List ℕ → World B S → Attempt B S
  attempt c bytes w =
      if is_direct w c
      then after_write c bytes (direct_result w c bytes) (call (write (fd_of w c) bytes) w)
      else record { nwrote = 0; remaining = length bytes; fault_error = false; after = w }

  unfoldable pub notify_high_water : ℕ → ℕ → World B S → World B S
  notify_high_water c remaining w =
      let old_len = ops.readable_bytes (buffer_of w c) in
      if leb (w.conns c).high_water_mark (old_len + remaining)
        && ltb old_len (w.conns c).high_water_mark
        && (w.conns c).high_water_mark_callback
      then queue_in_loop (high_water_mark c (old_len + remaining)) w
      else w

  unfoldable pub keep_rest : ℕ → List ℕ → ℕ → World B S → World B S
  keep_rest c bytes nwrote w =
      let w1 = set_buffer c (ops.append (buffer_of w c) (drop nwrote bytes)) w in
      if is_writing (channel_of w1 c)
      then w1
      else on_poller (enable_writing (w1.conns c).channel) w1

  unfoldable pub finish_send : ℕ → List ℕ → Attempt B S → World B S
  finish_send c bytes a =
      if leb a.remaining (length bytes) && (not a.fault_error && ltb 0 a.remaining)
      then keep_rest c bytes a.nwrote (notify_high_water c a.remaining a.after)
      else a.after

  unfoldable pub send_in_loop : ℕ → List ℕ → World B S → World B S
  send_in_loop c bytes w =
      if eq_state (state_of w c) k_disconnected then w else finish_send c bytes (attempt c bytes w)

  unfoldable pub send : ℕ → List ℕ → World B S → World B S
  send c bytes w = send_in_loop c bytes w

  unfoldable pub wrote_some : ℕ → ℕ → World B S → World B S
  wrote_some c n w =
      let w1 = set_buffer c (ops.retrieve (buffer_of w c) n) w in
      if ops.readable_bytes (buffer_of w1 c) == 0 then drained c w1 else w1

  unfoldable pub after_flush : ℕ → WriteResult → World B S → World B S
  after_flush c (wrote zero) w = w
  after_flush c (wrote (suc n)) w = wrote_some c (suc n) w
  after_flush c (write_failed e) w = w

  -- The bytes that `handleWrite` offers, and the result of its write.
  abbrev pub flush_result : World B S → ℕ → WriteResult
  flush_result w c =
      env.write_result (write (fd_of w c) (ops.peek (buffer_of w c)) ∷ w.poller.calls)

  unfoldable pub handle_write : ℕ → World B S → World B S
  handle_write c w =
      if is_writing (channel_of w c)
      then after_flush c (flush_result w c) (call (write (fd_of w c) (ops.peek (buffer_of w c))) w)
      else w

module _ {B S : Type 0} (env : Env) (user : User B S) where
  unfoldable pub after_read : ℕ → ReadResult → World B S → Option (World B S)
  after_read c (received []) w = handle_close user c w
  after_read c (received (x ∷ xs)) w = user.message_callback c (x ∷ xs) w
  after_read c (read_failed e) w = some (handle_error c w)

  unfoldable pub handle_read : ℕ → World B S → Option (World B S)
  handle_read c w =
      let w1 = call (read (fd_of w c) 1024) w in after_read c (env.read_result w1.poller.calls) w1

module _ {B S : Type 0} (ops : BufferOps B) where
  -- `TcpConnection::TcpConnection`, for an object at `c` whose channel is at `p`.
  unfoldable pub construct : ℕ → ℕ → List ℕ → ℕ → World B S → World B S
  construct c p name sockfd w =
      on_channel p
        (λ _. record (new_channel sockfd) {
          read_callback = some (conn_handle_read c);
          write_callback = some (conn_handle_write c);
          close_callback = some (conn_handle_close c);
          error_callback = some (conn_handle_error c);
        })
        (on_conn c
          (λ _. record {
            name = name;
            state = k_connecting;
            channel = p;
            socket = sockfd;
            output_buffer = ops.empty;
            high_water_mark = 64 * 1024 * 1024;
            write_complete_callback = false;
            high_water_mark_callback = false;
          })
          w)
