-- ===== src/Reactor/TcpServer.antt =====
-- Network/src/TcpServer.cpp and Acceptor.cpp. The server's state, with that of the MyServer that
-- holds it, is the server of the world. `digits` is what the C library prints for `%d`;
-- `connection_callback` and `message_callback` are the server's callbacks. A connection and its
-- channel get the address `fresh`, which no object has had.
use network_structure.Prelude.{
  ◌>>=◌, ℕ, suc, ◌==◌, Bool, true, false, ◌&&◌, List, [], ◌∷◌, ◌++◌, Option, none, some,
  if◌then◌else◌, take,
}
use network_structure.Prelude.Int.{ℤ}
use network_structure.Reactor.Poller.{listen, accept, close, enable_reading}
use network_structure.Reactor.Buffer.{BufferOps}
use network_structure.Reactor.World.{
  World, Env, acceptor_listen, call, on_poller, connect_established, connect_destroyed,
  remove_connection_in_loop,
}
use network_structure.Reactor.EventLoop.{queue_in_loop, run_in_loop}
use network_structure.Reactor.TcpConnection.{User, construct, conn_established, conn_destroyed}

-- `connections_` maps a name to the address of its connection. `flag` is the static variable of
-- `MyServer::onConnection`.
pub record Server : Type 0 where
  pub name : List ℕ
  pub hostport : List ℕ
  pub next_conn_id : ℕ
  pub connections : List (List ℕ × ℕ)
  pub accept_socket : ℕ
  pub accept_channel : ℕ
  pub has_new_connection_callback : Bool
  pub num_connected : ℤ
  pub max_connections : ℤ
  pub flag : Bool
  pub host : Option ℕ
  pub fresh : ℕ

-- `std::string` equality.
abbrev pub same_name : List ℕ → List ℕ → Bool
same_name [] [] = true
same_name (x ∷ xs) (y ∷ ys) = (x == y) && same_name xs ys
same_name _ _ = false

-- `connections_[name] = conn` and `connections_.erase(name)`
unfoldable pub put_conn : List ℕ → ℕ → List (List ℕ × ℕ) → List (List ℕ × ℕ)
put_conn k c [] = (k, c) ∷ []
put_conn k c ((j, d) ∷ m) = if same_name j k then (k, c) ∷ m else (j, d) ∷ put_conn k c m

unfoldable pub erase_conn : List ℕ → List (List ℕ × ℕ) → List (List ℕ × ℕ)
erase_conn k [] = []
erase_conn k ((j, d) ∷ m) =
    let rest = erase_conn k m in if same_name j k then rest else (j, d) ∷ rest

module _ {B : Type 0} where
  abbrev pub on_server : (Server → Server) → World B Server → World B Server
  on_server f w = record w { server = f w.server }

  -- `Acceptor::listen`
  unfoldable pub acceptor_listens : World B Server → World B Server
  acceptor_listens w =
      on_poller (enable_reading w.server.accept_channel) (call (listen w.server.accept_socket) w)

  -- `TcpServer::start`
  unfoldable pub start : World B Server → Option (World B Server)
  start w = run_in_loop (λ v. some (acceptor_listens v)) acceptor_listen w

  unfoldable pub remove_connection_now : ℕ → World B Server → World B Server
  remove_connection_now c w =
      queue_in_loop (connect_destroyed c)
        (on_server (λ s. record s { connections = erase_conn (w.conns c).name s.connections }) w)

  unfoldable pub remove_connection : ℕ → World B Server → Option (World B Server)
  remove_connection c w =
      run_in_loop (λ v. some (remove_connection_now c v)) (remove_connection_in_loop c) w

module _ {B : Type 0} (ops : BufferOps B) (digits : ℕ → List ℕ) (user : User B Server) where
  -- `name_` and the text of `snprintf(buf, sizeof buf, "-%s#%d", ...)`, which holds 63 characters.
  abbrev pub conn_name : Server → List ℕ
  conn_name s = s.name ++ take 63 (45 ∷ s.hostport ++ 35 ∷ digits s.next_conn_id)

  -- The connection that `newConnection` makes and enters in the map.
  unfoldable pub make_connection : ℕ → World B Server → World B Server
  unfolding construct
  make_connection sockfd w =
      let c = w.server.fresh in
      let name = conn_name w.server in
      on_server
        (λ s. record s {
          next_conn_id = suc s.next_conn_id;
          connections = put_conn name c s.connections;
          fresh = suc s.fresh;
        })
        (construct ops c c name sockfd w)

  unfoldable pub new_connection : ℕ → World B Server → Option (World B Server)
  unfolding make_connection
  new_connection sockfd w =
      run_in_loop (conn_established user w.server.fresh) (connect_established w.server.fresh)
        (make_connection sockfd w)

  -- What `handleRead` does with the result of `accept`.
  unfoldable pub accepted_conn : Option ℕ → World B Server → Option (World B Server)
  accepted_conn none w = some w
  accepted_conn (some fd) w = elim w.server.has_new_connection_callback [
    | true ↦ new_connection fd w
    | false ↦ some (call (close fd) w)
  ]

  -- `Acceptor::handleRead`
  unfoldable pub acceptor_handle_read : Env → World B Server → Option (World B Server)
  acceptor_handle_read env w =
      let w1 = call (accept w.server.accept_socket) w in
      accepted_conn (env.accept_result w1.poller.calls) w1

  -- `TcpServer::~TcpServer`, over the entries of the map.
  unfoldable pub destroy_all : List (List ℕ × ℕ) → World B Server → Option (World B Server)
  destroy_all [] w = some w
  destroy_all ((k, c) ∷ m) w = do
    w1 ← run_in_loop (conn_destroyed user c) (connect_destroyed c) w
    destroy_all m w1

  unfoldable pub destroy_server : World B Server → Option (World B Server)
  unfolding destroy_all
  destroy_server w = destroy_all w.server.connections w
