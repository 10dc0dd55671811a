-- ===== src/Reactor/World.antt =====
-- The state that the reactor's classes share: the event loop (EventLoop.h), the connections at
-- their addresses (TcpConnection.h), the poller with the channels, the thread that runs, and the
-- state of the server above, which the reactor knows only through callbacks. `Env` is the
-- operating system: what a call returns may depend on all the calls made so far.
use network_structure.Prelude.{ℕ, Bool, List, ◌∷◌, Option, update}
use network_structure.Reactor.Channel.{Flags, Channel}
use network_structure.Reactor.Poller.{Poller, Syscall}

-- `StateE`
pub data StateE : Type 0 where
  k_disconnected k_connecting k_connected k_disconnecting : StateE

-- What the program puts into `pendingFunctors_`, each with the address of its connection.
pub data Functor : Type 0 where
  acceptor_listen : Functor
  connect_established connect_destroyed force_close_in_loop : ℕ → Functor
  shutdown_in_loop remove_connection_in_loop write_complete : ℕ → Functor
  high_water_mark : ℕ → ℕ → Functor

-- `write_complete_callback` and `high_water_mark_callback` say whether one is set.
pub record TcpConnection (B : Type 0) : Type 0 where
  pub name : List ℕ
  pub state : StateE
  pub channel : ℕ
  pub socket : ℕ
  pub output_buffer : B
  pub high_water_mark : ℕ
  pub write_complete_callback : Bool
  pub high_water_mark_callback : Bool

pub record EventLoop : Type 0 where
  pub quit : Bool
  pub event_handling : Bool
  pub calling_pending_functors : Bool
  pub thread_id : ℕ
  pub wakeup_fd : ℕ
  pub wakeup_channel : ℕ
  pub active_channels : List ℕ
  pub current_active_channel : Option ℕ
  pub pending_functors : List Functor

-- `current` is `std::this_thread::get_id()`; `expired` says which connections are destroyed.
pub record World (B S : Type 0) : Type 0 where
  pub loop : EventLoop
  pub poller : Poller
  pub conns : ℕ → TcpConnection B
  pub expired : ℕ → Bool
  pub current : ℕ
  pub server : S

pub data Errno : Type 0 where
  ewouldblock epipe econnreset other_errno : Errno

pub data WriteResult : Type 0 where
  wrote : ℕ → WriteResult
  write_failed : Errno → WriteResult

pub data ReadResult : Type 0 where
  received : List ℕ → ReadResult
  read_failed : Errno → ReadResult

-- The result of the newest call of a trace. `wait_result` is `none` where epoll_wait fails.
pub record Env : Type 0 where
  pub write_result : List Syscall → WriteResult
  pub read_result : List Syscall → ReadResult
  pub wait_result : List Syscall → Option (List (ℕ × Flags))
  pub accept_result : List Syscall → Option ℕ

module _ {B S : Type 0} where
  abbrev pub on_poller : (Poller → Poller) → World B S → World B S
  on_poller f w = record w { poller = f w.poller }

  abbrev pub call : Syscall → World B S → World B S
  call s w = on_poller (λ r. record r { calls = s ∷ r.calls }) w

  abbrev pub on_loop : (EventLoop → EventLoop) → World B S → World B S
  on_loop f w = record w { loop = f w.loop }

  abbrev pub on_conn : ℕ → (TcpConnection B → TcpConnection B) → World B S → World B S
  on_conn c f w = record w { conns = update w.conns c (f (w.conns c)) }

  -- The channel at an address.
  abbrev pub channel_at : World B S → ℕ → Channel
  channel_at w p = w.poller.heap p

  abbrev pub on_channel : ℕ → (Channel → Channel) → World B S → World B S
  on_channel p f w = on_poller (λ r. record r { heap = update r.heap p (f (r.heap p)) }) w

  -- `channel_` of a connection, and its descriptor.
  abbrev pub channel_of : World B S → ℕ → Channel
  channel_of w c = w.poller.heap (w.conns c).channel

  abbrev pub fd_of : World B S → ℕ → ℕ
  fd_of w c = (channel_of w c).fd
