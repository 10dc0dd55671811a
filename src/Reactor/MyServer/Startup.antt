-- ===== src/Reactor/MyServer/Startup.antt =====
-- The constructors of Network/src/Acceptor.cpp, TcpServer.cpp and MyServer.cpp, and
-- `InitNetworkServer` of Network/src/Network.cpp, which puts the server and the loop together. The
-- socket of the acceptor and the text of its address are those that the system returns; what the
-- socket options and bind(2) return is only printed.
use network_structure.Prelude.{
  ℕ, ◌<◌, ◌≡◌, Bool, true, false, Option, none, some, List, [], ◌∷◌, if◌then◌else◌, ◌>>=◌,
}
use network_structure.Reactor.Poller.{listen, epoll_ctl, ctl_add}
use network_structure.Reactor.EventLoop.{construct_loop}
use network_structure.Reactor.World.{channel_at, on_channel, World}
use network_structure.Reactor.MyServer.Registry.{callbacks_of}
use network_structure.Reactor.TcpServer.{acceptor_listens, start, Server}
use network_structure.Reactor.TcpConnection.{state_of, is_up}
use network_structure.Reactor.Channel.{with_read, none_event, Channel, new_channel, Callback}
use network_structure.Prelude.Int.{pos, ℤ}

-- "MyServer"
abbrev pub my_server : List ℕ
my_server = 77 ∷ 121 ∷ 83 ∷ 101 ∷ 114 ∷ 118 ∷ 101 ∷ 114 ∷ []

-- The fields of the server and of its `TcpServer`, where the next connection is made at `base`.
unfoldable pub new_my_server : List ℕ → ℕ → ℕ → ℕ → ℤ → Server
new_my_server hostport sockfd p base max = record {
  name = my_server;
  hostport = hostport;
  next_conn_id = 1;
  connections = [];
  accept_socket = sockfd;
  accept_channel = p;
  has_new_connection_callback = true;
  num_connected = pos 0;
  max_connections = max;
  flag = true;
  host = none;
  fresh = base;
}

module _ {B S : Type 0} where
  -- `Acceptor::Acceptor`, with the channel at `p`.
  unfoldable pub construct_acceptor : ℕ → ℕ → World B S → World B S
  construct_acceptor sockfd p w =
      on_channel p
        (λ _. record (new_channel sockfd) { read_callback = some Callback.acceptor_handle_read }) w

  unfoldable pub construct_my_server : List ℕ → ℕ → ℕ → ℕ → ℤ → World B S → World B Server
  unfolding construct_acceptor new_my_server
  construct_my_server hostport sockfd p base max w =
      let u = construct_acceptor sockfd p w in
      record {
        loop = u.loop;
        poller = u.poller;
        conns = u.conns;
        expired = u.expired;
        current = u.current;
        server = new_my_server hostport sockfd p base max;
      }

  -- The global `EventLoop loop`, the server for two clients, and `start`. `loop.loop()` then runs
  -- `loopthread` in a thread of its own, `t`. The end, which lacks its return statement, is
  -- undefined unless the compiler lets the caller go on all the same, as `returns` says.
  unfoldable pub init_network_server :
      Bool → List ℕ → ℕ → ℕ → ℕ → ℕ → ℕ → ℕ → World B S → Option (World B Server)
  unfolding construct_my_server
  init_network_server returns hostport fd q sockfd p base t w =
      start (construct_my_server hostport sockfd p base (pos 2) (construct_loop fd q w)) >>= λ u.
      (if returns then some (record u { current = t }) else none)

-- The callbacks of the wake-up channel, of the acceptor's and of no channel.
abbrev only_reads : Callback → List (Option Callback)
only_reads cb = none ∷ none ∷ some cb ∷ none ∷ []

abbrev no_callbacks : List (Option Callback)
no_callbacks = none ∷ none ∷ none ∷ none ∷ []

-- The calls that were made, newest first, and the limit.
pub record Listens {B : Type 0} (fd q sockfd p : ℕ) (u : World B Server) : Type 0 where
  pub calls :
      u.poller.calls
      ≡ epoll_ctl ctl_add sockfd (with_read none_event) p
        ∷ listen sockfd
        ∷ epoll_ctl ctl_add fd (with_read none_event) q
        ∷ []
  pub socket : u.server.accept_socket ≡ sockfd
  pub limit : u.server.max_connections ≡ pos 2

module _ {B S : Type 0} (digits : ℕ → List ℕ) (hostport : List ℕ) (fd q sockfd p base t : ℕ)
    (w : World B S) where
  looped : World B S
  looped = construct_loop fd q w

  served : World B Server
  served = construct_my_server hostport sockfd p base (pos 2) looped

  module _ (no_channels : (a : ℕ) → callbacks_of (channel_at w a) ≡ no_callbacks)
      (idle : (d : ℕ) → d < base → is_up (state_of w d) ≡ false) where
    running : World B Server
    running = record (acceptor_listens served) { current = t }
