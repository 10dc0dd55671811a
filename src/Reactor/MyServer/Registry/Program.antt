-- ===== src/Reactor/MyServer/Registry/Program.antt =====
-- The server and the event loop together: `loopthread` with the callbacks and functors of MyServer.
use network_structure.Reactor.EventLoop.{take_pending, loopthread, poll_active}
use network_structure.Reactor.World.{
  on_loop, acceptor_listen, connect_established, connect_destroyed, force_close_in_loop,
  shutdown_in_loop, remove_connection_in_loop, write_complete, high_water_mark, on_channel, World,
  Env, Functor, call,
}
use network_structure.Prelude.{
  List, [], ◌∷◌, ◌++◌, Bool, sym, ap, subst, ℕ, ◌≤◌, ◌≡◌, refl, ◌∙◌, inl, inr, Option, none, some,
  arith, ◌==◌, Bool-cases, length, All, All-map,
}
use network_structure.Reactor.MyServer.Registry.Sound.{is_among-append, Step-Exact}
use network_structure.Reactor.MyServer.Registry.{
  hung, erased, hangs, erases, removal, removals, is_among, stays, opens, closes, Step, Registry,
  registry, opened, closed, IsConn, Ready, Names, MayName, Wired, Exact, callbacks_of,
}
use network_structure.Reactor.EventLoop.Invariant.{loopthread-Holds, Invariant}
use network_structure.Reactor.Channel.{
  Flags, Channel, Callback, loop_handle_read, acceptor_handle_read, conn_handle_read,
  conn_handle_write, conn_handle_close, conn_handle_error,
}
use network_structure.Reactor.Poller.{Poller, epoll_wait, modify, poll, fill_active_channels}
use network_structure.Reactor.Buffer.{BufferOps}
use network_structure.Reactor.TcpServer.{Server}
use network_structure.Reactor.MyServer.Counted.Histories.{
  calls-Counted, takes-Counted, IsMade, calls, takes,
}
use network_structure.Reactor.MyServer.Counted.{Counted}
use network_structure.Reactor.MyServer.{run_callback, run_functor}
use network_structure.Reactor.MyServer.Registry.Events.{callback-Move, functor-Move}
use network_structure.Reactor.MyServer.Registry.Moves.{Move, Quiet-Move, Step-IsConn, Step-Ready}
use network_structure.Reactor.MyServer.Registry.Quiet.{
  Quiet, channel-Quiet, Registry-ext, modify-callbacks,
}

Step-MayName :
    (base : ℕ) (done : List ℕ) (r t : Registry)
    → Step base r done t
    → (o : Option Callback) → MayName base r o
    → MayName base t o
Step-MayName base n r t s none h = h
Step-MayName base n r t s (some loop_handle_read) h = h
Step-MayName base n r t s (some acceptor_handle_read) h = h
Step-MayName base n r t s (some (conn_handle_read c)) h = Step-IsConn base n r t c s h
Step-MayName base n r t s (some (conn_handle_write c)) h = Step-IsConn base n r t c s h
Step-MayName base n r t s (some (conn_handle_close c)) h = Step-IsConn base n r t c s h
Step-MayName base n r t s (some (conn_handle_error c)) h = Step-IsConn base n r t c s h

-- A step that changes no callback keeps the wiring.
same_wires :
    (base : ℕ) (done : List ℕ) (r t : Registry)
    → Step base r done t
    → t.callbacks ≡ r.callbacks
    → Wired base r
    → Wired base t
same_wires base n r t s e w p =
    rw e
      (All-map (MayName base r) (MayName base t) (Step-MayName base n r t s) (r.callbacks p) (w p))

Step-Wired :
    (base : ℕ) (done : List ℕ) (r t : Registry)
    → base ≤ r.fresh
    → Step base r done t
    → Wired base r
    → Wired base t
Step-Wired base _ r _ b stays w = w
Step-Wired base _ r _ b opens w = λ p. elim (Bool-cases (r.fresh == p)) [
  | inl h ↦ let i : IsConn base (opened r) r.fresh = (b, omega arith) in rw h (i, (i, (i, (i, tt))))
  | inr h ↦ rw h (
      All-map (MayName base r) (MayName base (opened r)) (Step-MayName base [] r (opened r) opens)
        (r.callbacks p) (w p))
]
Step-Wired base _ r _ b (closes c i a h) w =
    same_wires base [] r (closed c r) (closes c i a h) refl w
Step-Wired base _ r _ b (hangs c i a h) w = same_wires base [] r (hung c r) (hangs c i a h) refl w
Step-Wired base _ r _ b (erases c i a) w =
    same_wires base (c ∷ []) r (erased c r) (erases c i a) refl w

Step-above :
    (base : ℕ) (done : List ℕ) (r t : Registry)
    → Step base r done t
    → base ≤ r.fresh
    → base ≤ t.fresh
Step-above base _ r _ stays b = b
Step-above base _ r _ opens b = omega (arith, b)
Step-above base _ r _ (closes c i a h) b = b
Step-above base _ r _ (hangs c i a h) b = b
Step-above base _ r _ (erases c i a) b = b

Names-IsMade :
    {B : Type 0} (base : ℕ) (digits : ℕ → List ℕ) (w : World B Server) (cb : Callback)
    → Names base (registry digits w) cb
    → IsMade w.server.fresh (calls cb)
Names-IsMade base digits w loop_handle_read h = omega arith
Names-IsMade base digits w acceptor_handle_read h = omega arith
Names-IsMade base digits w (conn_handle_read c) h = h.1
Names-IsMade base digits w (conn_handle_write c) h = h.1
Names-IsMade base digits w (conn_handle_close c) h = h.1
Names-IsMade base digits w (conn_handle_error c) h = h.1

Ready-IsMade :
    {B : Type 0} (base : ℕ) (digits : ℕ → List ℕ) (w : World B Server) (f : Functor)
    → Ready base (registry digits w) f
    → IsMade w.server.fresh (takes f)
Ready-IsMade base digits w acceptor_listen h = omega arith
Ready-IsMade base digits w (connect_established c) h = h.1
Ready-IsMade base digits w (connect_destroyed c) (i, a) = i.1
Ready-IsMade base digits w (force_close_in_loop c) h = h.1
Ready-IsMade base digits w (shutdown_in_loop c) h = h.1
Ready-IsMade base digits w (remove_connection_in_loop c) (i, a, l) = i.1
Ready-IsMade base digits w (write_complete c) h = omega arith
Ready-IsMade base digits w (high_water_mark c n) h = omega arith

-- What waits does not depend on the removals that wait.
unleave :
    (base : ℕ) (r : Registry) (f : Functor)
    → Ready base r f
    → Ready base (record r { leaving = [] }) f
unleave base r acceptor_listen h = h
unleave base r (connect_established c) h = h
unleave base r (connect_destroyed c) h = h
unleave base r (force_close_in_loop c) h = h
unleave base r (shutdown_in_loop c) h = h
unleave base r (remove_connection_in_loop c) h = h
unleave base r (write_complete c) h = h
unleave base r (high_water_mark c n) h = h

-- The callbacks of the channels that `epoll_wait` reports stay.
fill-callbacks :
    (es : List (ℕ × Flags)) (q : ℕ) (r : Poller)
    → callbacks_of ((fill_active_channels es r).0.heap q) ≡ callbacks_of (r.heap q)
unfolding fill_active_channels
fill-callbacks [] q r = refl
fill-callbacks ((p, e) ∷ es) q r =
    let f : Channel → Channel = λ ch. record ch { revents = e } in
    fill-callbacks es q (modify p f r) ∙ modify-callbacks p q f r refl

poll-callbacks :
    (res : Option (List (ℕ × Flags))) (q : ℕ) (r : Poller)
    → callbacks_of ((poll res r).0.heap q) ≡ callbacks_of (r.heap q)
unfolding poll
poll-callbacks none q r = refl
poll-callbacks (some es) q r = elim (Bool-cases (length es == r.events_size)) [
  | inr h ↦ rw h (fill-callbacks es q r)
  | inl h ↦ elim (Bool-cases (0 == length es)) [
    | inl g ↦ rw (h, g) (fill-callbacks es q r)
    | inr g ↦ rw (h, g) (fill-callbacks es q r)
  ]
]

module _ {B : Type 0} (ops : BufferOps B) (env : Env) (digits : ℕ → List ℕ) (base limit : ℕ) where
  -- The count, the entries and what the loop holds are right, where the functors `fs` have been
  -- taken out of the queue and are still to be called.
  pub record Right (fs : List Functor) (w : World B Server) : Type 0 where
    pub counted : Counted w
    pub above : base ≤ w.server.fresh
    pub wires : Wired base (registry digits w)
    pub waits : All (Ready base (registry digits w)) w.loop.pending_functors
    pub taken : All (Ready base (registry digits w)) fs
    pub exact : w.server.next_conn_id ≤ limit → Exact base limit (removals fs) (registry digits w)

  Move-Right :
      (done : List ℕ) (old fs : List Functor) (w v : World B Server)
      → removals old ≡ done ++ removals fs
      → (All (Ready base (registry digits w)) old → All (Ready base (registry digits w)) fs)
      → Right old w
      → Counted v
      → Move base digits done w v
      → Right fs v
  Move-Right done old fs w v n a h i m =
      let r = registry digits w in
      let t = registry digits v in
      record {
        counted = i;
        above = Step-above base done r t m.step h.above;
        wires = Step-Wired base done r t h.above m.step h.wires;
        waits = m.waits h.waits;
        taken =
            All-map (Ready base r) (Ready base t) (Step-Ready base done r t m.step) fs (a h.taken);
        exact =
            Step-Exact base limit (removals fs) done r t h.above m.step
              (λ l. subst (λ o. Exact base limit o r) n (h.exact l));
      }

  poll-Quiet : (w : World B Server) → Quiet base digits w (poll_active env w)
  unfolding poll_active
  poll-Quiet w = record {
    same =
        let w1 = call (epoll_wait w.poller.events_size) w in
        Registry-ext _ _ (λ d. refl) (λ d. refl) refl refl (λ i. refl) refl refl refl
          (λ q. poll-callbacks (env.wait_result w1.poller.calls) q w1.poller);
    waits = λ a. a;
  }

  poll-Counted : (w : World B Server) → Counted w → Counted (poll_active env w)
  unfolding poll_active
  poll-Counted w i = record { count = i.count }

  -- The loop's own marks are no part of it.
  marked :
      (w : World B Server) (q e c : Bool) (ps : List ℕ) (p : Option ℕ)
      → Right [] w
      → Right [] (
          on_loop
            (λ l. record l {
              quit = q;
              event_handling = e;
              calling_pending_functors = c;
              active_channels = ps;
              current_active_channel = p;
            })
            w)
  marked w q e c ps p h = record {
    counted = record { count = h.counted.count };
    above = h.above;
    wires = h.wires;
    waits = h.waits;
    taken = tt;
    exact = h.exact;
  }

  Exact-swap :
      (fs : List Functor) (r t : Registry)
      → t ≡ record r { leaving = [] }
      → r.leaving ≡ removals fs
      → Exact base limit [] r
      → Exact base limit (removals fs) t
  Exact-swap fs r t e n s = subst (Exact base limit (removals fs)) (sym e) (record {
    listed = s.listed;
    only = λ k c g.
        let (i, m, a) = s.only k c g in
        (i, m, ground (arith, a, ap (is_among c) n, is_among-append c (removals fs) []));
    unused = s.unused;
    distinct = s.distinct;
    separate = s.separate;
  })

  take_pending-Right :
      (w : World B Server) → Right [] w → Right w.loop.pending_functors (take_pending w)
  take_pending-Right w h = record {
    counted = record { count = h.counted.count };
    above = h.above;
    wires = h.wires;
    waits = tt;
    taken =
        All-map (Ready base (registry digits w)) (Ready base (registry digits (take_pending w)))
          (unleave base (registry digits w)) w.loop.pending_functors h.waits;
    exact = λ l.
        Exact-swap w.loop.pending_functors (registry digits w) (registry digits (take_pending w))
          refl refl (h.exact l);
  }

  execute-Right :
      (f : Functor) (fs : List Functor) (w v : World B Server)
      → Right (f ∷ fs) w
      → run_functor ops env digits f w ≡ some v
      → Right fs v
  execute-Right f fs w v h e =
      let (ready, rest) = h.taken in
      Move-Right (removal f) (f ∷ fs) fs w v refl (λ a. rest) h
        (takes-Counted ops env digits w v h.counted f (Ready-IsMade base digits w f ready) e)
        (functor-Move base ops env digits w v h.above f ready e)

  keep-Right :
      (w v : World B Server) → Right [] w → Counted v → Move base digits [] w v → Right [] v
  keep-Right w v h i m = Move-Right [] [] [] w v refl (λ a. a) h i m

  Right-Invariant : Invariant env (run_callback ops env digits) (run_functor ops env digits)
  Right-Invariant = record {
    Holds = Right;
    Held = λ w o. MayName base (registry digits w) o;
    held = λ w p h. let (a, (b, (c, (d, u)))) = h.wires p in (a, b, c, d);
    calls = λ cb w v h n e.
        keep-Right w v h
          (calls-Counted ops env digits w v h.counted cb (Names-IsMade base digits w cb n) e)
          (callback-Move base ops env digits w v h.above cb n e);
    executes = execute-Right;
    takes = take_pending-Right;
    marks = marked;
    flags = λ w p b h.
        keep-Right w (on_channel p (λ ch. record ch { event_handling = b }) w) h
          (record { count = h.counted.count })
          (Quiet-Move base digits
            (channel-Quiet base digits p (λ ch. record ch { event_handling = b }) w refl));
    polls = λ w h.
        keep-Right w (poll_active env w) h (poll-Counted w h.counted)
          (Quiet-Move base digits (poll-Quiet w));
  }

  pub loopthread-Right :
      (fuel : ℕ) (w v : World B Server)
      → Right [] w
      → loopthread env (run_callback ops env digits) (run_functor ops env digits) fuel w ≡ some v
      → Right [] v
  unfolding Right-Invariant
  loopthread-Right fuel w v h e =
      loopthread-Holds env (run_callback ops env digits) (run_functor ops env digits)
        Right-Invariant fuel w v h e
