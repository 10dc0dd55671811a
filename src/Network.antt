-- ===== src/Network.antt =====
-- Network/src/Network.cpp and the methods of Network/src/TcpServerSocket.cpp that it calls: the
-- start and the stop of the servers, and what is registered with them. A pointer is an address,
-- `none` where it is null. USE_IPC_CLASS is not defined.
pub mod Threads
pub mod Listener
pub mod Configuration
mod Tests
use network_structure.Prelude.{
  ℕ, Bool, true, false, Option, none, some, [], ◌==◌, if◌then◌else◌, ◌>>=◌,
}
use network_structure.Prelude.Int.{minus_one, pos, ℤ}
use network_structure.TcpServerSocket.{new_endpoint, open_socket, Net, SocketEnv, close_socket}

pub data ServerType : Type 0 where
  concurrent none_concurrent : ServerType

-- A `TcpServerSocket` of this type. `joinable` says that its member `thread` stands for a thread.
pub record NetServer : Type 0 where
  pub server_type : ServerType
  pub is_thread_running : Bool
  pub joinable : Bool
  pub net : Net
  pub scan_driver : Option ℕ
  pub event_manager : Option ℕ
  pub reader_config : Option ℕ

-- MAX_DEV_CONNECTIONS, and what `maxConnections` is set to.
abbrev pub max_dev_connections : ℕ
max_dev_connections = 4

abbrev pub connections_of : ServerType → ℤ
connections_of concurrent = pos max_dev_connections
connections_of none_concurrent = pos 1

-- `TcpServerSocket::TcpServerSocket`, where it does not refuse.
unfoldable pub new_server : ServerType → NetServer
new_server server_type = record {
  server_type = server_type;
  is_thread_running = false;
  joinable = false;
  net = record { endpoint = new_endpoint (connections_of server_type); calls = [] };
  scan_driver = none;
  event_manager = none;
  reader_config = none;
}

-- `if (!isThreadRunning) ...`; a new thread in place of one that has not been joined ends the
-- process.
unfoldable pub start_thread : NetServer → Option NetServer
start_thread s =
    if s.is_thread_running
    then some s
    else (if s.joinable
        then none
        else some (record s { is_thread_running = true; joinable = true }))

-- `if (isThreadRunning) ...`; join throws where there is no thread.
unfoldable pub stop_thread : NetServer → Option NetServer
stop_thread s =
    if s.is_thread_running
    then (if s.joinable
        then some (record s { is_thread_running = false; joinable = false })
        else none)
    else some s

-- The end of a function that has a result and no return statement. The language leaves it
-- undefined; `returns` says whether the compiler lets the caller go on all the same.
unfoldable pub flows_off : Bool → NetServer → Option NetServer
flows_off returns s = if returns then some s else none

-- `TcpServerSocket::Start` and `TcpServerSocket::Stop`, which end so.
unfoldable pub start_server : Bool → SocketEnv → ServerType → NetServer → Option NetServer
unfolding start_thread flows_off
start_server returns env concurrent s = start_thread s >>= flows_off returns
start_server returns env none_concurrent s =
    start_thread (record s { net = open_socket env s.net }) >>= flows_off returns

unfoldable pub stop_server : Bool → ServerType → NetServer → Option NetServer
unfolding stop_thread flows_off
stop_server returns concurrent s = stop_thread s >>= flows_off returns
stop_server returns none_concurrent s =
    stop_thread s >>= λ s1. flows_off returns (record s1 { net = close_socket s1.net })

unfoldable pub register_scan_driver : Option ℕ → Option ℕ → NetServer → NetServer
register_scan_driver driver manager s = record s {
  scan_driver = elim s.scan_driver [ none ↦ driver | some p ↦ some p ];
  event_manager = elim s.event_manager [ none ↦ manager | some p ↦ some p ];
}

unfoldable pub unregister_scan_driver : NetServer → NetServer
unregister_scan_driver s = record s { scan_driver = none; event_manager = none }

unfoldable pub set_configuration : Option ℕ → Option ℕ → NetServer → NetServer × ℤ
set_configuration rc none s = (record s { reader_config = rc }, pos 0)
set_configuration rc (some p) s = (s, minus_one)

unfoldable pub register_configuration : Option ℕ → NetServer → NetServer × ℤ
unfolding set_configuration
register_configuration rc s = set_configuration rc s.reader_config s

-- The memory says which addresses hold an object; `delete` of another is undefined.
unfoldable pub delete_object : ℕ → (ℕ → Bool) → Option (ℕ → Bool)
delete_object p memory = if memory p then some (λ q. if q == p then false else memory q) else none

-- `delete pReaderConfig`, which leaves the pointer.
unfoldable pub delete_configuration : Option ℕ → (ℕ → Bool) → Option ((ℕ → Bool) × ℤ)
unfolding delete_object
delete_configuration none memory = some (memory, minus_one)
delete_configuration (some p) memory = delete_object p memory >>= λ m. some (m, pos 0)

unfoldable pub unregister_configuration : NetServer → (ℕ → Bool) → Option ((ℕ → Bool) × ℤ)
unfolding delete_configuration
unregister_configuration s memory = delete_configuration s.reader_config memory

-- A `Network`; a server is `none` where its pointer is null.
pub record Network : Type 0 where
  pub tcp_socket : Option NetServer
  pub tcp_socket_config : Option NetServer
  pub tcp_socket_image : Option NetServer
  pub tcp_decoder_data : Option NetServer

-- `Network::Network`
unfoldable pub new_network : Network
unfolding new_server
new_network = record {
  tcp_socket = some (new_server concurrent);
  tcp_socket_config = some (new_server none_concurrent);
  tcp_socket_image = none;
  tcp_decoder_data = none;
}

-- `if(NULL != p) p->f();`
unfoldable pub when_there :
    (NetServer → Option NetServer) → Option NetServer → Option (Option NetServer)
when_there f none = some none
when_there f (some s) = f s >>= λ t. some (some t)

unfoldable pub each_server : (NetServer → Option NetServer) → Network → Option Network
unfolding when_there
each_server f n = do
  tcp ← when_there f n.tcp_socket
  config ← when_there f n.tcp_socket_config
  image ← when_there f n.tcp_socket_image
  decoder ← when_there f n.tcp_decoder_data
  some (record {
    tcp_socket = tcp;
    tcp_socket_config = config;
    tcp_socket_image = image;
    tcp_decoder_data = decoder;
  })

unfoldable pub start_network : Bool → SocketEnv → Network → Option Network
unfolding each_server start_server
start_network returns env = each_server (λ s. start_server returns env s.server_type s)

unfoldable pub stop_network : Bool → Network → Option Network
unfolding each_server stop_server
stop_network returns = each_server (λ s. stop_server returns s.server_type s)

unfoldable pub network_register_scan_driver : Option ℕ → Option ℕ → Network → Option Network
unfolding each_server register_scan_driver
network_register_scan_driver driver manager =
    each_server (λ s. some (register_scan_driver driver manager s))

unfoldable pub network_unregister_scan_driver : Network → Option Network
unfolding each_server unregister_scan_driver
network_unregister_scan_driver = each_server (λ s. some (unregister_scan_driver s))

abbrev pub map_server : (NetServer → NetServer) → Option NetServer → Option NetServer
map_server f none = none
map_server f (some s) = some (f s)

-- The image server is left out in both.
unfoldable pub network_register_configuration : Option ℕ → Network → Network
unfolding register_configuration
network_register_configuration rc n =
    let f = map_server (λ s. (register_configuration rc s).0) in
    record n {
      tcp_socket = f n.tcp_socket;
      tcp_socket_config = f n.tcp_socket_config;
      tcp_decoder_data = f n.tcp_decoder_data;
    }

unfoldable pub unregister_there : Option NetServer → (ℕ → Bool) → Option (ℕ → Bool)
unfolding unregister_configuration
unregister_there none memory = some memory
unregister_there (some s) memory = unregister_configuration s memory >>= λ r. some r.0

unfoldable pub network_unregister_configuration : Network → (ℕ → Bool) → Option (ℕ → Bool)
unfolding unregister_there
network_unregister_configuration n memory = unregister_there n.tcp_socket memory >>= λ m1.
    unregister_there n.tcp_socket_config m1 >>= unregister_there n.tcp_decoder_data
