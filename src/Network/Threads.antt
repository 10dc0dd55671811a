-- ===== src/Network/Threads.antt =====
-- The threads of a server over any calls of `Start` and `Stop` of Network/src/TcpServerSocket.cpp.
use network_structure.Prelude.{
  ◌≡◌, refl, ap, ◌∙◌, inl, inr, Bool, true, false, Option, none, some, List, [], ◌∷◌, Bool-cases,
  ◌>>=◌,
}
use network_structure.Network.{
  none_concurrent, concurrent, ServerType, NetServer, new_server, flows_off, start_server,
  start_thread, stop_server, stop_thread,
}
use network_structure.TcpServerSocket.{close_socket, open_socket, SocketEnv}

-- The flag says whether there is a thread.
pub record Threaded (s : NetServer) : Type 0 where
  pub flag : s.joinable ≡ s.is_thread_running

-- True is a `Start`, false a `Stop`.
unfoldable pub starts_and_stops : Bool → SocketEnv → List Bool → NetServer → Option NetServer
unfolding start_server stop_server
starts_and_stops returns env [] s = some s
starts_and_stops returns env (true ∷ bs) s =
    start_server returns env s.server_type s >>= starts_and_stops returns env bs
starts_and_stops returns env (false ∷ bs) s =
    stop_server returns s.server_type s >>= starts_and_stops returns env bs

-- The step has a result, and it is one with the flag right.
record Goes (o : Option NetServer) : Type 0 where
  next : NetServer
  goes : o ≡ some next
  threaded : Threaded next

start_thread-Goes : (s : NetServer) → Threaded s → Goes (start_thread s)
unfolding start_thread
start_thread-Goes s h = elim (Bool-cases s.is_thread_running) [
  | inl i ↦ record { next = s; goes = rw i refl; threaded = h }
  | inr i ↦ record {
    next = record s { is_thread_running = true; joinable = true };
    goes = let j = h.flag ∙ i in rw i (rw j refl);
    threaded = record { flag = refl };
  }
]

stop_thread-Goes : (s : NetServer) → Threaded s → Goes (stop_thread s)
unfolding stop_thread
stop_thread-Goes s h = elim (Bool-cases s.is_thread_running) [
  | inr i ↦ record { next = s; goes = rw i refl; threaded = h }
  | inl i ↦ record {
    next = record s { is_thread_running = false; joinable = false };
    goes = let j = h.flag ∙ i in rw i (rw j refl);
    threaded = record { flag = refl };
  }
]

start_server-Goes :
    (env : SocketEnv) (t : ServerType) (s : NetServer)
    → Threaded s
    → Goes (start_server true env t s)
unfolding start_server flows_off
start_server-Goes env concurrent s h =
    let g = start_thread-Goes s h in
    record { next = g.next; goes = ap (◌>>= flows_off true) g.goes; threaded = g.threaded }
start_server-Goes env none_concurrent s h =
    let g =
      start_thread-Goes (record s { net = open_socket env s.net }) (record { flag = h.flag }) in
    record { next = g.next; goes = ap (◌>>= flows_off true) g.goes; threaded = g.threaded }

stop_server-Goes : (t : ServerType) (s : NetServer) → Threaded s → Goes (stop_server true t s)
unfolding stop_server flows_off
stop_server-Goes concurrent s h =
    let g = stop_thread-Goes s h in
    record { next = g.next; goes = ap (◌>>= flows_off true) g.goes; threaded = g.threaded }
stop_server-Goes none_concurrent s h =
    let g = stop_thread-Goes s h in
    record {
      next = record (g.next) { net = close_socket g.next.net };
      goes = ap (◌>>= λ (s1 : NetServer). some (record s1 { net = close_socket s1.net })) g.goes;
      threaded = record { flag = g.threaded.flag };
    }

from-Threaded :
    (env : SocketEnv) (bs : List Bool) (s : NetServer)
    → Threaded s
    → (v : NetServer) × (starts_and_stops true env bs s ≡ some v) × Threaded v
unfolding starts_and_stops
from-Threaded env [] s h = (s, refl, h)
from-Threaded env (true ∷ bs) s h =
    let g = start_server-Goes env s.server_type s h in
    let (v, e, k) = from-Threaded env bs g.next g.threaded in
    (v, ap (◌>>= starts_and_stops true env bs) g.goes ∙ e, k)
from-Threaded env (false ∷ bs) s h =
    let g = stop_server-Goes s.server_type s h in
    let (v, e, k) = from-Threaded env bs g.next g.threaded in
    (v, ap (◌>>= starts_and_stops true env bs) g.goes ∙ e, k)

-- The first call of `Start` or `Stop` on a new server is undefined where the compiler does not let
-- the caller of a function without its return statement go on.
first_undefined :
    (env : SocketEnv) (server_type : ServerType) (b : Bool) (bs : List Bool)
    → starts_and_stops false env (b ∷ bs) (new_server server_type) ≡ none
unfolding starts_and_stops start_server stop_server new_server start_thread stop_thread flows_off
first_undefined env concurrent true bs = refl
first_undefined env concurrent false bs = refl
first_undefined env none_concurrent true bs = refl
first_undefined env none_concurrent false bs = refl

-- `Start` and `Stop` end without a return statement. Where the compiler lets the caller go on, any
-- calls of them on a new server go through: none replaces a thread that has not been joined, none
-- joins a thread that is not there, and after them there is a thread exactly where isThreadRunning
-- is set. Where it does not, the first call is undefined.
pub starts_and_stops-Threaded :
    (env : SocketEnv) (server_type : ServerType)
    → ((bs : List Bool)
        → (v : NetServer) × (starts_and_stops true env bs (new_server server_type) ≡ some v)
          × Threaded v)
      × ((b : Bool) (bs : List Bool)
          → starts_and_stops false env (b ∷ bs) (new_server server_type) ≡ none)
unfolding new_server
starts_and_stops-Threaded env server_type = (
  λ bs. from-Threaded env bs (new_server server_type) (record { flag = refl }),
  first_undefined env server_type,
)
