-- ===== src/Reactor/Fixtures.antt =====
-- Concrete data for the tests: an operating system that takes three bytes at a time, a buffer that
-- is a list, an interest set that is a function, and a server with one connection.
use network_structure.Prelude.{
  ℕ, ◌==◌, refl, ap, Bool, true, false, not, List, [], ◌∷◌, ◌++◌, Option, none, some, arith, length,
  drop, if◌then◌else◌,
}
use network_structure.Prelude.Int.{pos}
use network_structure.Reactor.Channel.{Flags, Channel, new_channel}
use network_structure.Reactor.Poller.{Op, ctl_add, ctl_mod, ctl_del, Syscall, write}
use network_structure.Reactor.Poller.Epoll.{Epoll}
use network_structure.Reactor.Buffer.{BufferOps}
use network_structure.Reactor.World.{
  World, Env, EventLoop, TcpConnection, WriteResult, wrote, received, k_connected, k_disconnected,
}
use network_structure.Reactor.TcpConnection.Stream.{WritesFit}
use network_structure.Reactor.TcpServer.{Server}

abbrev pub list_buffer : BufferOps (List ℕ)
list_buffer = record {
  empty = [];
  readable_bytes = length;
  peek = λ b. b;
  append = λ b xs. b ++ xs;
  retrieve = λ b n. drop n b;
  peek-empty = refl;
  readable_bytes_lem = λ b. refl;
  peek-append = λ b xs. refl;
  peek-retrieve = λ b n h. refl;
}

abbrev pub up_to_three : List ℕ → ℕ
up_to_three [] = 0
up_to_three (_ ∷ []) = 1
up_to_three (_ ∷ _ ∷ []) = 2
up_to_three (_ ∷ _ ∷ _ ∷ _) = 3

abbrev pub take_three : List Syscall → WriteResult
take_three (write fd bytes ∷ cs) = wrote (up_to_three bytes)
take_three _ = wrote 0

abbrev pub test_env : Env
test_env = record {
  write_result = take_three;
  read_result = λ cs. received (104 ∷ 105 ∷ []);
  wait_result = λ cs. some [];
  accept_result = λ cs. some 9;
}

taken_bytes : WriteResult → ℕ
taken_bytes (wrote n) = n
taken_bytes _ = 0

pub test_env-WritesFit : WritesFit test_env
unfolding taken_bytes
test_env-WritesFit fd n [] cs e = ground (arith, ap taken_bytes e)
test_env-WritesFit fd n (x ∷ []) cs e = ground (arith, ap taken_bytes e)
test_env-WritesFit fd n (x ∷ y ∷ []) cs e = ground (arith, ap taken_bytes e)
test_env-WritesFit fd n (x ∷ y ∷ z ∷ zs) cs e = ground (arith, ap taken_bytes e)

abbrev pub is_entry : Option (Flags × ℕ) → Bool
is_entry none = false
is_entry (some e) = true

abbrev pub function_ctl :
    Op → ℕ → Flags → ℕ → (ℕ → Option (Flags × ℕ)) → (ℕ → Option (Flags × ℕ)) × Bool
function_ctl ctl_add fd e p k = (λ j. if fd == j then some (e, p) else k j, not (is_entry (k fd)))
function_ctl ctl_mod fd e p k = (λ j. if fd == j then some (e, p) else k j, is_entry (k fd))
function_ctl ctl_del fd e p k = (λ j. if fd == j then none else k j, is_entry (k fd))

abbrev pub function_epoll : Epoll
function_epoll = record {
  Interest = ℕ → Option (Flags × ℕ);
  start = λ fd. none;
  entry = λ k fd. k fd;
  ctl = function_ctl;
  entry-start = λ fd. refl;
  add_free = λ fd e p k h. (rw h refl, λ j. refl);
  mod_known = λ fd e p k old h. (rw h refl, λ j. refl);
  del_known = λ fd e p k old h. (rw h refl, λ j. refl);
}

-- Channel `p` holds descriptor `p`.
abbrev pub test_heap : ℕ → Channel
test_heap p = new_channel p

abbrev pub test_loop : EventLoop
test_loop = record {
  quit = false;
  event_handling = false;
  calling_pending_functors = false;
  thread_id = 1;
  wakeup_fd = 100;
  wakeup_channel = 100;
  active_channels = [];
  current_active_channel = none;
  pending_functors = [];
}

abbrev pub test_conn : TcpConnection (List ℕ)
test_conn = record {
  name = 99 ∷ [];
  state = k_connected;
  channel = 7;
  socket = 7;
  output_buffer = [];
  high_water_mark = 64;
  write_complete_callback = false;
  high_water_mark_callback = false;
}

abbrev pub test_server : Server
test_server = record {
  name = 83 ∷ [];
  hostport = 49 ∷ [];
  next_conn_id = 1;
  connections = [];
  accept_socket = 5;
  accept_channel = 5;
  has_new_connection_callback = true;
  num_connected = pos 0;
  max_connections = pos 0;
  flag = true;
  host = none;
  fresh = 0;
}

-- Every connection is up.
abbrev pub test_world : World (List ℕ) Server
test_world = record {
  loop = test_loop;
  poller = record { heap = test_heap; channel_map = []; events_size = 16; calls = [] };
  conns = λ c. test_conn;
  expired = λ c. false;
  current = 1;
  server = test_server;
}

-- Every connection is disconnected.
abbrev pub test_gone : World (List ℕ) Server
test_gone = record test_world { conns = λ c. record test_conn { state = k_disconnected } }
