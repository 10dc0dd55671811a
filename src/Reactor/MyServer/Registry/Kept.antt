-- ===== src/Reactor/MyServer/Registry/Kept.antt =====
-- The count and the entries after any number of rounds of the loop, whatever the clients do.
use network_structure.Reactor.EventLoop.{is_in_loop_thread, loopthread}
use network_structure.Reactor.World.{
  Functor, acceptor_listen, connect_established, connect_destroyed, force_close_in_loop,
  shutdown_in_loop, remove_connection_in_loop, write_complete, high_water_mark, World, Env, StateE,
}
use network_structure.Prelude.{
  List, [], ◌∷◌, sym, ap, ◌⊎◌, All, ℕ, zero, suc, ◌≤◌, ◌<◌, ◌≡◌, refl, ◌∙◌, inl, inr, true, false,
  none, some, arith, Option-cases,
}
use network_structure.Reactor.MyServer.Registry.{
  removal, removals, is_among, Step, Registry, registry, Ready, Names, Wired, is_open,
}
use network_structure.Reactor.MyServer.{run_callback, run_functor}
use network_structure.Prelude.Int.{pos}
use network_structure.Reactor.Buffer.{BufferOps}
use network_structure.Reactor.TcpConnection.{state_of, is_up}
use network_structure.Reactor.TcpServer.{Server}
use network_structure.Reactor.MyServer.Counted.Histories.{Event, calls, takes, happen}
use network_structure.Reactor.MyServer.Counted.{ups}
use network_structure.Reactor.MyServer.Registry.Events.{callback-Move, functor-Move}
use network_structure.Reactor.MyServer.Registry.Program.{Right, loopthread-Right}
use network_structure.Reactor.MyServer.Registry.Table.{find_conn}
use network_structure.Reactor.MyServer.Registry.Text.{PrintsIds, text-separate}

ups_none : (n : ℕ) (s : ℕ → StateE) → ((d : ℕ) → d < n → is_up (s d) ≡ false) → ups n s ≡ 0
ups_none zero s h = refl
ups_none (suc n) s h =
    ground (arith, h n (ground arith), ups_none n s (λ d l. h d (ground (arith, l))))

-- An event that may happen: a callback of a channel or a functor that waits.
abbrev pub May : ℕ → Registry → Event → Type 0
May base r (calls cb) = Names base r cb
May base r (takes f) = Ready base r f

-- The removal that an event carries out, if it is one.
abbrev pub carried : Event → List ℕ
carried (calls cb) = []
carried (takes f) = removal f

-- A removal waits only where the loop runs in another thread.
leaving_off :
    (base : ℕ) (r : Registry) (c : ℕ) (fs : List Functor)
    → All (Ready base r) fs
    → is_among c (removals fs) ≡ true
    → r.in_loop ≡ false
leaving_off base r c [] a h = ground (arith, h)
leaving_off base r c (acceptor_listen ∷ fs) (a, as1) h = leaving_off base r c fs as1 h
leaving_off base r c (connect_established d ∷ fs) (a, as1) h = leaving_off base r c fs as1 h
leaving_off base r c (connect_destroyed d ∷ fs) (a, as1) h = leaving_off base r c fs as1 h
leaving_off base r c (force_close_in_loop d ∷ fs) (a, as1) h = leaving_off base r c fs as1 h
leaving_off base r c (shutdown_in_loop d ∷ fs) (a, as1) h = leaving_off base r c fs as1 h
leaving_off base r c (remove_connection_in_loop d ∷ fs) ((i, g, l), as1) h = l
leaving_off base r c (write_complete d ∷ fs) (a, as1) h = leaving_off base r c fs as1 h
leaving_off base r c (high_water_mark d n ∷ fs) (a, as1) h = leaving_off base r c fs as1 h

module _ {B : Type 0} (digits : ℕ → List ℕ) (base : ℕ) (w : World B Server) where
  -- The loop is about to run, in any thread, for a server with no connection yet: the next one is
  -- made at `base`, no channel calls back a connection and no functor is about one.
  pub record Starts : Type 0 where
    pub vacant : w.server.connections ≡ []
    pub at_base : w.server.fresh ≡ base
    pub zero_connected : w.server.num_connected ≡ pos 0
    pub idle : (d : ℕ) → d < base → is_up (state_of w d) ≡ false
    pub wires : Wired base (registry digits w)
    pub waits : All (Ready base (registry digits w)) w.loop.pending_functors

module _ {B : Type 0} (ops : BufferOps B) (env : Env) (digits : ℕ → List ℕ) (base limit : ℕ)
    (w v : World B Server) where
  pub Starts-Right :
      Starts digits base w
      → PrintsIds digits w.server.hostport limit
      → Right ops env digits base limit [] w
  unfolding find_conn
  Starts-Right s p = record {
    counted = record {
      count =
          s.zero_connected
          ∙ ap pos
              (sym (ap (λ n. ups n (state_of w)) s.at_base ∙ ups_none base (state_of w) s.idle));
    };
    above = omega (arith, s.at_base);
    wires = s.wires;
    waits = s.waits;
    taken = tt;
    exact = λ l. record {
      listed = λ c i a. absurd (omega (arith, i.0, i.1, s.at_base));
      only = λ k c e. ground (arith, sym (ap (find_conn k) s.vacant) ∙ e);
      unused = λ c j i h g. absurd (omega (arith, i.0, i.1, s.at_base));
      distinct = λ c d i j e. absurd (omega (arith, i.0, i.1, s.at_base));
      separate = text-separate digits w.server.name w.server.hostport limit p;
    };
  }

  module _ (fuel : ℕ) (s : Starts digits base w) (p : PrintsIds digits w.server.hostport limit)
      (e : loopthread env (run_callback ops env digits) (run_functor ops env digits) fuel w
        ≡ some v) where
    after_loop : Right ops env digits base limit [] v
    after_loop = loopthread-Right ops env digits base limit fuel w v (Starts-Right s p) e

    -- However many rounds the loop runs from the start of the server, and whatever the operating
    -- system returns, `numConnected_` is the number of the connections that are up.
    pub loopthread_counts : v.server.num_connected ≡ pos (ups v.server.fresh (state_of v))
    loopthread_counts = after_loop.counted.count

    module _ (c : ℕ) (l : v.server.next_conn_id ≤ limit) (b : base ≤ c)
        (m : c < v.server.fresh) where
      -- However many rounds the loop runs from the start of the server, in whatever thread, and
      -- whatever the operating system returns, the name of a connection that was made leads to it
      -- in `connections_` for as long as it is not disconnected, where the ids given out are
      -- printed differently and their names fit the buffer of 64 characters.
      pub registered_while_open :
          is_open (state_of v c) ≡ true → find_conn (v.conns c).name v.server.connections ≡ some c
      registered_while_open h = (after_loop.exact l).listed c (b, m) h

      -- However many rounds the loop runs from the start of the server, in whatever thread, and
      -- whatever the operating system returns, the name of a connection that was made and is
      -- disconnected leads to nothing in `connections_`, unless `removeConnectionInLoop` of the
      -- connection still waits in the queue, which it does only where the loop runs in another
      -- thread than its own; where the ids given out are printed differently and their names fit
      -- the buffer of 64 characters.
      pub erased_when_closed :
          is_open (state_of v c) ≡ false
          → (find_conn (v.conns c).name v.server.connections ≡ none)
            ⊎ ((is_among c (removals v.loop.pending_functors) ≡ true)
                × (is_in_loop_thread v ≡ false))
      erased_when_closed h =
          let x = after_loop.exact l in
          let name = (v.conns c).name in
          elim (Option-cases (find_conn name v.server.connections)) [
            | inl e ↦ inl e
            | inr (d, e) ↦
                let (i, n, a) = x.only name d e in
                let same : c ≡ d = x.distinct c d (b, m) i (sym n) in
                let among : is_among c (removals v.loop.pending_functors) ≡ true =
                  ground (arith, a, h, same) in
                inr (
                  among,
                  leaving_off base (registry digits v) c v.loop.pending_functors after_loop.waits
                      among,
                )
          ]

  -- In any thread every callback and every functor of the program, where the count, the entries
  -- and what the loop holds are right, refines one step of the registry: the registry stays as it
  -- is, a connection is made with the next id and entered under its name, an open connection is
  -- disconnected, at once erased in the loop's own thread and otherwise put on the list of those
  -- to remove, or a connection of that list is erased.
  pub happen-Step :
      (ev : Event) (fs : List Functor)
      → Right ops env digits base limit fs w
      → May base (registry digits w) ev
      → happen ops env digits ev w ≡ some v
      → Step base (registry digits w) (carried ev) (registry digits v)
  unfolding happen
  happen-Step (calls cb) fs r m e = (callback-Move base ops env digits w v r.above cb m e).step
  happen-Step (takes f) fs r m e = (functor-Move base ops env digits w v r.above f m e).step
