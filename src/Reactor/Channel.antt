-- ===== src/Reactor/Channel.antt =====
-- The data of Network/include/Channel.h and what Channel.cpp computes from it. An event mask is one
-- Boolean for each EPOLL bit that the source names. An address is a number; a bound callback is
-- named by the method and the connection that it is bound to.
use network_structure.Prelude.{ℕ, Bool, true, false, not, ◌||◌, Option, none}

pub record Flags : Type 0 where
  pub epollin : Bool
  pub epollpri : Bool
  pub epollout : Bool
  pub epollerr : Bool
  pub epollhup : Bool
  pub epollrdhup : Bool

-- `kNoneEvent`
abbrev pub none_event : Flags
none_event = record {
  epollin = false;
  epollpri = false;
  epollout = false;
  epollerr = false;
  epollhup = false;
  epollrdhup = false;
}

-- `events_ |= kReadEvent`, `events_ &= ~kReadEvent`, and the same for `kWriteEvent`.
abbrev pub with_read : Flags → Flags
with_read e = record e { epollin = true; epollpri = true }

abbrev pub without_read : Flags → Flags
without_read e = record e { epollin = false; epollpri = false }

abbrev pub with_write : Flags → Flags
with_write e = record e { epollout = true }

abbrev pub without_write : Flags → Flags
without_write e = record e { epollout = false }

-- `events == kNoneEvent`
abbrev pub is_none : Flags → Bool
is_none e = not (e.epollin || e.epollpri || e.epollout || e.epollerr || e.epollhup || e.epollrdhup)

-- `ChannelIndex` of Poller.h
pub data ChannelIndex : Type 0 where
  c_new c_added c_deleted : ChannelIndex

-- The methods that the program binds to a channel, with the address of the connection.
pub data Callback : Type 0 where
  loop_handle_read acceptor_handle_read : Callback
  conn_handle_read conn_handle_write conn_handle_close conn_handle_error : ℕ → Callback

-- `tie` is the connection that the weak pointer `tie_` names.
pub record Channel : Type 0 where
  pub fd : ℕ
  pub events : Flags
  pub revents : Flags
  pub index : ChannelIndex
  pub tie : Option ℕ
  pub tied : Bool
  pub event_handling : Bool
  pub added_to_loop : Bool
  pub read_callback : Option Callback
  pub write_callback : Option Callback
  pub close_callback : Option Callback
  pub error_callback : Option Callback

abbrev pub new_channel : ℕ → Channel
new_channel fd = record {
  fd = fd;
  events = none_event;
  revents = none_event;
  index = ChannelIndex.c_new;
  tie = none;
  tied = false;
  event_handling = false;
  added_to_loop = false;
  read_callback = none;
  write_callback = none;
  close_callback = none;
  error_callback = none;
}

abbrev pub is_none_event : Channel → Bool
is_none_event ch = is_none ch.events

-- `events_ & kWriteEvent` and `events_ & kReadEvent`
abbrev pub is_writing : Channel → Bool
is_writing ch = ch.events.epollout

abbrev pub is_reading : Channel → Bool
is_reading ch = ch.events.epollin || ch.events.epollpri
