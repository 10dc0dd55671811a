-- ===== src/Reactor/Poller.antt =====
-- Network/src/Poller.cpp, and the methods of Channel.h that change what a channel waits for. The
-- calls of the operating system are kept in the order in which they are made, newest first; what
-- is only logged is left out. A channel lives at an address of the heap.
pub mod Epoll
pub mod Synced
pub mod Deleted
pub mod Histories
pub mod Fresh
use network_structure.Prelude.{
  ℕ, ◌*◌, ◌==◌, Bool, true, false, not, ◌&&◌, List, [], ◌∷◌, Option, none, some, lookup, insert,
  erase, update, length, if◌then◌else◌,
}
use network_structure.Reactor.Channel.{
  Flags, Channel, ChannelIndex, c_new, c_added, c_deleted, with_read, without_read, with_write,
  without_write, none_event, is_none_event,
}

pub data Op : Type 0 where
  ctl_add ctl_mod ctl_del : Op

-- The calls that the program makes on the operating system.
pub data Syscall : Type 0 where
  epoll_ctl : Op → ℕ → Flags → ℕ → Syscall
  epoll_wait : ℕ → Syscall
  write : ℕ → List ℕ → Syscall
  read : ℕ → ℕ → Syscall
  shutdown_write shutdown_read_write close listen accept : ℕ → Syscall

-- `channel_map` is `channels_`, `events_size` is `events_.size()`.
pub record Poller : Type 0 where
  pub heap : ℕ → Channel
  pub channel_map : List (ℕ × ℕ)
  pub events_size : ℕ
  pub calls : List Syscall

-- Change the channel at an address.
abbrev pub modify : ℕ → (Channel → Channel) → Poller → Poller
modify p f r = record r { heap = update r.heap p (f (r.heap p)) }

abbrev pub set_index : ℕ → ChannelIndex → Poller → Poller
set_index p i = modify p (λ ch. record ch { index = i })

-- `Poller::update`
abbrev pub ctl : Op → ℕ → Poller → Poller
ctl op p r = record r { calls = epoll_ctl op (r.heap p).fd (r.heap p).events p ∷ r.calls }

-- `channels_.find(fd) != channels_.end()` and `channels_[fd] == channel`
abbrev pub same : ℕ → Option ℕ → Bool
same p none = false
same p (some q) = q == p

abbrev pub absent : Option ℕ → Bool
absent none = true
absent (some q) = false

-- Both ways into EPOLL_CTL_ADD.
abbrev pub add_channel : ℕ → Poller → Poller
add_channel p r = ctl ctl_add p (set_index p c_added r)

update_new : ℕ → Poller → Poller
update_new p r =
    let fd = (r.heap p).fd in
    add_channel p (
      if absent (lookup fd r.channel_map)
      then record r { channel_map = insert fd p r.channel_map }
      else r)

update_deleted : ℕ → Poller → Poller
update_deleted p r = if same p (lookup (r.heap p).fd r.channel_map) then r else add_channel p r

update_added : ℕ → Poller → Poller
update_added p r =
    if same p (lookup (r.heap p).fd r.channel_map)
    then (if is_none_event (r.heap p)
        then set_index p c_deleted (ctl ctl_del p r)
        else ctl ctl_mod p r)
    else r

by_index : ChannelIndex → ℕ → Poller → Poller
unfolding update_new update_deleted update_added
by_index c_new p r = update_new p r
by_index c_deleted p r = update_deleted p r
by_index c_added p r = update_added p r

unfoldable pub update_channel : ℕ → Poller → Poller
unfolding by_index
update_channel p r = by_index (r.heap p).index p r

abbrev pub is_added : ChannelIndex → Bool
is_added c_added = true
is_added _ = false

abbrev pub is_new : ChannelIndex → Bool
is_new c_new = true
is_new _ = false

unfoldable pub remove_channel : ℕ → Poller → Poller
remove_channel p r =
    let fd = (r.heap p).fd in
    if same p (lookup fd r.channel_map) && is_none_event (r.heap p) && not (is_new (r.heap p).index)
    then set_index p c_new (
        if is_added (r.heap p).index
        then ctl ctl_del p (record r { channel_map = erase fd r.channel_map })
        else record r { channel_map = erase fd r.channel_map })
    else r

-- `events_ = …; update();` of Channel.h, where `update` goes through `EventLoop::updateChannel`.
unfoldable pub set_events : ℕ → (Flags → Flags) → Poller → Poller
unfolding update_channel
set_events p f r =
    update_channel p (modify p (λ ch. record ch { events = f ch.events; added_to_loop = true }) r)

abbrev pub enable_reading : ℕ → Poller → Poller
enable_reading p = set_events p with_read

abbrev pub disable_reading : ℕ → Poller → Poller
disable_reading p = set_events p without_read

abbrev pub enable_writing : ℕ → Poller → Poller
enable_writing p = set_events p with_write

abbrev pub disable_writing : ℕ → Poller → Poller
disable_writing p = set_events p without_write

abbrev pub disable_all : ℕ → Poller → Poller
disable_all p = set_events p (λ _. none_event)

-- `Channel::remove`
unfoldable pub remove : ℕ → Poller → Poller
unfolding remove_channel
remove p r =
    if is_none_event (r.heap p)
    then remove_channel p (modify p (λ ch. record ch { added_to_loop = false }) r)
    else r

-- The methods of a channel that reach the poller, each with the address of its channel.
pub data ChannelCall : Type 0 where
  reading_on reading_off writing_on writing_off all_off removed : ℕ → ChannelCall

unfoldable pub apply : ChannelCall → Poller → Poller
apply (reading_on p) r = enable_reading p r
apply (reading_off p) r = disable_reading p r
apply (writing_on p) r = enable_writing p r
apply (writing_off p) r = disable_writing p r
apply (all_off p) r = disable_all p r
apply (removed p) r = remove p r

unfoldable pub run : List ChannelCall → Poller → Poller
run [] r = r
run (c ∷ cs) r = run cs (apply c r)

-- `events_(kInitEventListSize)`
unfoldable pub new_poller : (ℕ → Channel) → Poller
new_poller heap = record { heap = heap; channel_map = []; events_size = 16; calls = [] }

-- `fillActiveChannels`: the channels that `epoll_wait` reports, each with its events.
unfoldable pub fill_active_channels : List (ℕ × Flags) → Poller → Poller × List ℕ
fill_active_channels [] r = (r, [])
fill_active_channels ((p, e) ∷ rest) r =
    let (r', ps) = fill_active_channels rest (modify p (λ ch. record ch { revents = e }) r) in
    (r', p ∷ ps)

-- `Poller::poll`, with what `epoll_wait` reports; `none` is an error. The list of events doubles
-- when it was full.
unfoldable pub poll : Option (List (ℕ × Flags)) → Poller → Poller × List ℕ
unfolding fill_active_channels
poll none r = (r, [])
poll (some es) r =
    let (r', ps) = fill_active_channels es r in
    (
      if length es == r.events_size
          then (if 0 == length es then r' else record r' { events_size = r.events_size * 2 })
          else r',
      ps,
    )
