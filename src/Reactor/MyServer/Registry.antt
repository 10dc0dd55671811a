-- ===== src/Reactor/MyServer/Registry.antt =====
-- What `connections_` promises of the connections that TcpServer.cpp makes and removes: the part of
-- the state that this is about, and the steps that change it.
pub mod Table
pub mod Sound
pub mod Kept
pub mod Program
pub mod Text
pub mod Events
pub mod Moves
pub mod Quiet
use network_structure.Prelude.{
  ℕ, suc, ◌≤◌, ◌<◌, ◌≡◌, ◌≢◌, ◌⊎◌, Bool, true, false, not, ◌||◌, Option, none, some, List, [], ◌∷◌,
  ◌++◌, ◌==◌, take, All, update,
}
use network_structure.Reactor.World.{
  acceptor_listen, high_water_mark, write_complete, remove_connection_in_loop, channel_at,
  shutdown_in_loop, force_close_in_loop, connect_destroyed, k_disconnected, connect_established,
  Functor, StateE, World,
}
use network_structure.Reactor.Channel.{
  acceptor_handle_read, loop_handle_read, conn_handle_error, conn_handle_write, conn_handle_close,
  conn_handle_read, Callback, Channel,
}
use network_structure.Reactor.EventLoop.{is_in_loop_thread}
use network_structure.Reactor.TcpConnection.{state_of, eq_state}
use network_structure.Reactor.TcpServer.{Server, erase_conn, put_conn}
use network_structure.Reactor.MyServer.Registry.Table.{find_conn}

-- `alive` says which connections are not disconnected, `text` is the name that an id gives, and
-- `callbacks` are those of the channel at an address; `leaving` lists the connections whose removal
-- waits in `pendingFunctors_`.
pub record Registry : Type 0 where
  pub alive : ℕ → Bool
  pub names : ℕ → List ℕ
  pub entries : List (List ℕ × ℕ)
  pub next_id : ℕ
  pub text : ℕ → List ℕ
  pub fresh : ℕ
  pub in_loop : Bool
  pub leaving : List ℕ
  pub callbacks : ℕ → List (Option Callback)

abbrev pub is_open : StateE → Bool
is_open s = not (eq_state s k_disconnected)

abbrev pub callbacks_of : Channel → List (Option Callback)
callbacks_of ch = ch.close_callback ∷ ch.error_callback ∷ ch.read_callback ∷ ch.write_callback ∷ []

abbrev pub removal : Functor → List ℕ
removal (remove_connection_in_loop c) = c ∷ []
removal _ = []

abbrev pub removals : List Functor → List ℕ
removals [] = []
removals (f ∷ fs) = removal f ++ removals fs

abbrev pub is_among : ℕ → List ℕ → Bool
is_among c [] = false
is_among c (d ∷ ds) = d == c || is_among c ds

abbrev pub registry : {B : Type 0} → (ℕ → List ℕ) → World B Server → Registry
registry digits w = record {
  alive = λ d. is_open (state_of w d);
  names = λ d. (w.conns d).name;
  entries = w.server.connections;
  next_id = w.server.next_conn_id;
  text = λ i. w.server.name ++ take 63 (45 ∷ w.server.hostport ++ 35 ∷ digits i);
  fresh = w.server.fresh;
  in_loop = is_in_loop_thread w;
  leaving = removals w.loop.pending_functors;
  callbacks = λ p. callbacks_of (channel_at w p);
}

-- A connection is made and entered.
abbrev pub opened : Registry → Registry
opened r = record r {
  alive = update r.alive r.fresh true;
  names = update r.names r.fresh (r.text r.next_id);
  entries = put_conn (r.text r.next_id) r.fresh r.entries;
  next_id = suc r.next_id;
  fresh = suc r.fresh;
  callbacks = update r.callbacks r.fresh (
      some (conn_handle_close r.fresh)
      ∷ some (conn_handle_error r.fresh)
      ∷ some (conn_handle_read r.fresh)
      ∷ some (conn_handle_write r.fresh)
      ∷ []);
}

-- A connection is disconnected and erased.
abbrev pub closed : ℕ → Registry → Registry
closed c r = record r { alive = update r.alive c false; entries = erase_conn (r.names c) r.entries }

-- A connection is disconnected, and is to be erased later.
abbrev pub hung : ℕ → Registry → Registry
hung c r = record r { alive = update r.alive c false; leaving = r.leaving ++ c ∷ [] }

-- It is erased.
abbrev pub erased : ℕ → Registry → Registry
erased c r = record r { entries = erase_conn (r.names c) r.entries }

module _ (base : ℕ) where
  -- The connections are the objects from address `base` on.
  abbrev pub IsConn : Registry → ℕ → Type 0
  IsConn r c = (base ≤ c) × (c < r.fresh)

  -- A step, with the removal that is carried out if it is one. In the loop's own thread a connection
  -- is erased at once.
  pub data Step (r : Registry) : List ℕ → Registry → Type 0 where
    stays : Step r [] r
    opens : Step r [] (opened r)
    closes : (c : ℕ) → IsConn r c → r.alive c ≡ true → r.in_loop ≡ true → Step r [] (closed c r)
    hangs : (c : ℕ) → IsConn r c → r.alive c ≡ true → r.in_loop ≡ false → Step r [] (hung c r)
    erases : (c : ℕ) → IsConn r c → r.alive c ≡ false → Step r (c ∷ []) (erased c r)

  -- The connection of a callback is one.
  abbrev pub Names : Registry → Callback → Type 0
  Names r loop_handle_read = 0 ≤ base
  Names r acceptor_handle_read = 0 ≤ base
  Names r (conn_handle_read c) = IsConn r c
  Names r (conn_handle_write c) = IsConn r c
  Names r (conn_handle_close c) = IsConn r c
  Names r (conn_handle_error c) = IsConn r c

  abbrev pub MayName : Registry → Option Callback → Type 0
  MayName r none = 0 ≤ base
  MayName r (some cb) = Names r cb

  -- The functors that may wait.
  abbrev pub Ready : Registry → Functor → Type 0
  Ready r acceptor_listen = 0 ≤ base
  Ready r (connect_established c) = IsConn r c
  Ready r (connect_destroyed c) = IsConn r c × (r.alive c ≡ false)
  Ready r (force_close_in_loop c) = IsConn r c
  Ready r (shutdown_in_loop c) = IsConn r c
  Ready r (remove_connection_in_loop c) = IsConn r c × (r.alive c ≡ false) × (r.in_loop ≡ false)
  Ready r (write_complete c) = 0 ≤ base
  Ready r (high_water_mark c n) = 0 ≤ base

  -- Every channel calls back a connection that has been made.
  abbrev pub Wired : Registry → Type 0
  Wired r = (p : ℕ) → All (MayName r) (r.callbacks p)

  -- Every open connection is entered under its name, no two have one name, and every entry is a
  -- connection under its name that is open or whose removal is still to come: it waits, or it is
  -- among those of `out`, which have been taken out of the queue.
  pub record Exact (limit : ℕ) (out : List ℕ) (r : Registry) : Type 0 where
    pub listed : (c : ℕ) → IsConn r c → r.alive c ≡ true → find_conn (r.names c) r.entries ≡ some c
    pub only :
        (k : List ℕ) (c : ℕ)
        → find_conn k r.entries ≡ some c
        → IsConn r c
          × (r.names c ≡ k)
          × ((r.alive c ≡ true) ⊎ (is_among c (out ++ r.leaving) ≡ true))
    pub unused : (c i : ℕ) → IsConn r c → r.next_id ≤ i → i < limit → r.names c ≢ r.text i
    pub distinct : (c d : ℕ) → IsConn r c → IsConn r d → r.names c ≡ r.names d → c ≡ d
    pub separate : (i j : ℕ) → i < limit → j < limit → r.text i ≡ r.text j → i ≡ j
