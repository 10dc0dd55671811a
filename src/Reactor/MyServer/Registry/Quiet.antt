-- ===== src/Reactor/MyServer/Registry/Quiet.antt =====
-- The moves of a connection that leave the registry alone.
use mathlib.Core.List.{append_assoc, append-nil}
use network_structure.Reactor.MyServer.Registry.{
  removal, removals, k_disconnected, write_complete, Ready, callbacks_of, is_open, registry,
  Registry,
}
use network_structure.Prelude.{
  ℕ, zero, suc, ◌+◌, ◌≡◌, refl, sym, ap, ◌∙◌, subst, inl, inr, Bool, true, false, not, ◌&&◌, ◌||◌,
  List, [], ◌∷◌, ◌++◌, arith, ◌==◌, if◌then◌else◌, Bool-cases, length, drop, All, lookup,
  All-append,
}
use network_structure.Reactor.World.{
  on_channel, channel_at, k_disconnecting, write_failed, fd_of, wrote, WriteResult, channel_of,
  high_water_mark, on_loop, Functor, call, on_poller, Env, StateE, World,
}
use network_structure.Reactor.Channel.{
  c_new, Channel, is_none_event, without_write, with_write, is_writing, Flags,
}
use network_structure.Reactor.Poller.{
  is_added, is_new, modify, same, remove_channel, shutdown_write, disable_writing, write, Poller,
  Syscall, remove, set_events,
}
use network_structure.Reactor.EventLoop.{is_in_loop_thread, wakeup, queue_in_loop}
use network_structure.Reactor.TcpConnection.{
  direct_result, eq_state, flush_result, sub_size, finish_send, set_state, buffer_of, is_direct,
  send_in_loop, state_of, wrote_some, after_flush, after_write, attempt, handle_write, keep_rest,
  notify_high_water, send, set_buffer, conn_shutdown_in_loop, drained,
}
use network_structure.Reactor.Poller.Synced.{ChannelIndex-cases}
use network_structure.Reactor.TcpServer.{Server}
use network_structure.Reactor.Buffer.{BufferOps}

-- Two registries with the same parts.
pub Registry-ext :
    (r t : Registry)
    → ((d : ℕ) → r.alive d ≡ t.alive d)
    → ((d : ℕ) → r.names d ≡ t.names d)
    → r.entries ≡ t.entries
    → r.next_id ≡ t.next_id
    → ((i : ℕ) → r.text i ≡ t.text i)
    → r.fresh ≡ t.fresh
    → r.in_loop ≡ t.in_loop
    → r.leaving ≡ t.leaving
    → ((p : ℕ) → r.callbacks p ≡ t.callbacks p)
    → r ≡ t
Registry-ext r t a n e k x f l g c = λ i. record {
  alive = λ d. a d i;
  names = λ d. n d i;
  entries = e i;
  next_id = k i;
  text = λ j. x j i;
  fresh = f i;
  in_loop = l i;
  leaving = g i;
  callbacks = λ p. c p i;
}

pub set_events-callbacks :
    (p q : ℕ) (f : Flags → Flags) (r : Poller)
    → callbacks_of ((set_events p f r).heap q) ≡ callbacks_of (r.heap q)
unfolding set_events
set_events-callbacks p q f r = elim (ChannelIndex-cases (r.heap p).index) [
  | inl e ↦ ground arith
  | inr (inl e) ↦ ground arith
  | inr (inr e) ↦ ground arith
]

pub modify-callbacks :
    (p q : ℕ) (f : Channel → Channel) (r : Poller)
    → callbacks_of (f (r.heap p)) ≡ callbacks_of (r.heap p)
    → callbacks_of ((modify p f r).heap q) ≡ callbacks_of (r.heap q)
modify-callbacks p q f r h = ground (arith, h)

remove_channel-callbacks :
    (p q : ℕ) (r : Poller) → callbacks_of ((remove_channel p r).heap q) ≡ callbacks_of (r.heap q)
unfolding remove_channel
remove_channel-callbacks p q r =
    elim (Bool-cases (
      same p (lookup (r.heap p).fd r.channel_map)
      && is_none_event (r.heap p)
      && not (is_new (r.heap p).index))) [
        | inr h ↦ rw h refl
        | inl h ↦ rw h (elim (Bool-cases (is_added (r.heap p).index)) [
          | inl g ↦ rw g (modify-callbacks p q (λ ch. record ch { index = c_new }) r refl)
          | inr g ↦ rw g (modify-callbacks p q (λ ch. record ch { index = c_new }) r refl)
        ])
      ]

pub remove-callbacks :
    (p q : ℕ) (r : Poller) → callbacks_of ((remove p r).heap q) ≡ callbacks_of (r.heap q)
unfolding remove
remove-callbacks p q r = elim (Bool-cases (is_none_event (r.heap p))) [
  | inr h ↦ rw h refl
  | inl h ↦
      let f : Channel → Channel = λ ch. record ch { added_to_loop = false } in
      rw h (remove_channel-callbacks p q (modify p f r) ∙ modify-callbacks p q f r refl)
]

removals-append :
    (fs : List Functor) (f : Functor) → removals (fs ++ f ∷ []) ≡ removals fs ++ removal f
removals-append [] f = append-nil (removal f)
removals-append (g ∷ fs) f =
    ap (λ l. removal g ++ l) (removals-append fs f)
    ∙ sym (append_assoc (removal g) (removals fs) (removal f))

module _ {B : Type 0} (base : ℕ) (digits : ℕ → List ℕ) where
  -- The registry is as before, and so is what may wait.
  pub record Quiet (w v : World B Server) : Type 0 where
    pub same : registry digits v ≡ registry digits w
    pub waits :
        All (Ready base (registry digits w)) w.loop.pending_functors
        → All (Ready base (registry digits w)) v.loop.pending_functors

  pub Quiet-refl : (w : World B Server) → Quiet w w
  Quiet-refl w = record { same = refl; waits = λ a. a }

  pub Quiet-trans : {u v w : World B Server} → Quiet u v → Quiet v w → Quiet u w
  Quiet-trans {u} {v} {w} p q = record {
    same = q.same ∙ p.same;
    waits = λ a.
        subst (λ r. All (Ready base r) w.loop.pending_functors) p.same
          (q.waits
            (subst (λ r. All (Ready base r) v.loop.pending_functors) (sym p.same) (p.waits a)));
  }

  pub if-Quiet :
      (b : Bool) {u v w : World B Server} → Quiet u v → Quiet u w → Quiet u (if b then v else w)
  if-Quiet true p q = p
  if-Quiet false p q = q

  pub call-Quiet : (s : Syscall) (w : World B Server) → Quiet w (call s w)
  call-Quiet s w = record { same = refl; waits = λ a. a }

  pub events-Quiet :
      (p : ℕ) (f : Flags → Flags) (w : World B Server) → Quiet w (on_poller (set_events p f) w)
  events-Quiet p f w = record {
    same =
        Registry-ext _ _ (λ d. refl) (λ d. refl) refl refl (λ i. refl) refl refl refl
          (λ q. set_events-callbacks p q f w.poller);
    waits = λ a. a;
  }

  pub remove-Quiet : (p : ℕ) (w : World B Server) → Quiet w (on_poller (remove p) w)
  remove-Quiet p w = record {
    same =
        Registry-ext _ _ (λ d. refl) (λ d. refl) refl refl (λ i. refl) refl refl refl
          (λ q. remove-callbacks p q w.poller);
    waits = λ a. a;
  }

  pub buffer-Quiet : (c : ℕ) (b : B) (w : World B Server) → Quiet w (set_buffer c b w)
  buffer-Quiet c b w = record {
    same =
        Registry-ext _ _ (λ d. ground arith) (λ d. ground arith) refl refl (λ i. refl) refl refl
          refl (λ q. refl);
    waits = λ a. a;
  }

  pub state-Quiet :
      (c : ℕ) (s : StateE) (w : World B Server)
      → is_open (state_of w c) ≡ is_open s
      → Quiet w (set_state c s w)
  state-Quiet c s w h = record {
    same =
        Registry-ext _ _ (λ d. ground (arith, h)) (λ d. ground arith) refl refl (λ i. refl) refl
          refl refl (λ q. refl);
    waits = λ a. a;
  }

  -- A change of a channel that keeps its callbacks.
  pub channel-Quiet :
      (p : ℕ) (f : Channel → Channel) (w : World B Server)
      → callbacks_of (f (channel_at w p)) ≡ callbacks_of (channel_at w p)
      → Quiet w (on_channel p f w)
  channel-Quiet p f w h = record {
    same =
        Registry-ext _ _ (λ d. refl) (λ d. refl) refl refl (λ i. refl) refl refl refl
          (λ q. modify-callbacks p q f w.poller h);
    waits = λ a. a;
  }

  -- A functor goes to the end of the queue.
  pub queue-pending :
      (f : Functor) (w : World B Server)
      → (queue_in_loop f w).loop.pending_functors ≡ w.loop.pending_functors ++ f ∷ []
  unfolding queue_in_loop wakeup
  queue-pending f w = ground arith

  pub queue-registry :
      (f : Functor) (w : World B Server)
      → registry digits (queue_in_loop f w)
        ≡ record (registry digits w) { leaving = removals w.loop.pending_functors ++ removal f }
  unfolding queue_in_loop wakeup
  queue-registry f w =
      let u = on_loop (λ l. record l { pending_functors = l.pending_functors ++ f ∷ [] }) w in
      let e =
        Registry-ext (registry digits u)
          (record (registry digits w) { leaving = removals w.loop.pending_functors ++ removal f })
          (λ d. refl) (λ d. refl) refl refl (λ i. refl) refl refl
          (removals-append w.loop.pending_functors f) (λ q. refl) in
      elim (Bool-cases (not (is_in_loop_thread u) || u.loop.calling_pending_functors)) [
        | inl h ↦ rw h e
        | inr h ↦ rw h e
      ]

  pub queue-Quiet :
      (f : Functor) (w : World B Server)
      → removal f ≡ []
      → Ready base (registry digits w) f
      → Quiet w (queue_in_loop f w)
  queue-Quiet f w n h = record {
    same =
        queue-registry f w
        ∙ ap (λ l. record (registry digits w) { leaving = removals w.loop.pending_functors ++ l }) n
        ∙ ap (λ l. record (registry digits w) { leaving = l })
            (append-nil (removals w.loop.pending_functors));
    waits = λ a.
        rw (queue-pending f w)
          (All-append (Ready base (registry digits w)) w.loop.pending_functors f a h);
  }

  module _ (c : ℕ) where
    pub conn_shutdown-Quiet : (w : World B Server) → Quiet w (conn_shutdown_in_loop c w)
    unfolding conn_shutdown_in_loop
    conn_shutdown-Quiet w =
        if-Quiet (is_writing (channel_of w c)) (Quiet-refl w)
          (call-Quiet (shutdown_write (w.conns c).socket) w)

    pub drained-Quiet : (w : World B Server) → Quiet w (drained c w)
    unfolding drained
    drained-Quiet w =
        let w1 = on_poller (disable_writing (w.conns c).channel) w in
        let w2 =
          if (w1.conns c).write_complete_callback
          then queue_in_loop (write_complete c) w1
          else w1 in
        let q : Quiet w1 w2 =
          if-Quiet (w1.conns c).write_complete_callback
            (queue-Quiet (write_complete c) w1 refl (omega arith)) (Quiet-refl w1) in
        Quiet-trans (Quiet-trans (events-Quiet (w.conns c).channel without_write w) q) (
          if-Quiet (eq_state (state_of w2 c) k_disconnecting) (conn_shutdown-Quiet w2)
            (Quiet-refl w2))

  module _ (ops : BufferOps B) (env : Env) (c : ℕ) where
    after_write-Quiet :
        (bytes : List ℕ) (r : WriteResult) (w : World B Server)
        → Quiet w (after_write c bytes r w).after
    unfolding after_write
    after_write-Quiet bytes (wrote n) w =
        if-Quiet ((sub_size (length bytes) n == 0) && (w.conns c).write_complete_callback)
          (queue-Quiet (write_complete c) w refl (omega arith)) (Quiet-refl w)
    after_write-Quiet bytes (write_failed e) w = Quiet-refl w

    attempt-Quiet :
        (bytes : List ℕ) (w : World B Server) → Quiet w (attempt ops env c bytes w).after
    unfolding attempt
    attempt-Quiet bytes w = elim (Bool-cases (is_direct ops env w c)) [
      | inl h ↦ rw h (
          let s = write (fd_of w c) bytes in
          Quiet-trans (call-Quiet s w)
            (after_write-Quiet bytes (direct_result ops env w c bytes) (call s w)))
      | inr h ↦ rw h (Quiet-refl w)
    ]

    notify-Quiet : (n : ℕ) (w : World B Server) → Quiet w (notify_high_water ops env c n w)
    unfolding notify_high_water
    notify-Quiet n w =
        if-Quiet _
          (queue-Quiet (high_water_mark c (ops.readable_bytes (buffer_of w c) + n)) w refl
            (omega arith))
          (Quiet-refl w)

    keep_rest-Quiet :
        (bytes : List ℕ) (n : ℕ) (w : World B Server) → Quiet w (keep_rest ops env c bytes n w)
    unfolding keep_rest
    keep_rest-Quiet bytes n w =
        let w1 = set_buffer c (ops.append (buffer_of w c) (drop n bytes)) w in
        let q : Quiet w w1 = buffer-Quiet c (ops.append (buffer_of w c) (drop n bytes)) w in
        if-Quiet (is_writing (channel_of w1 c)) q
          (Quiet-trans q (events-Quiet (w1.conns c).channel with_write w1))

    pub send-Quiet : (bytes : List ℕ) (w : World B Server) → Quiet w (send ops env c bytes w)
    unfolding send send_in_loop finish_send
    send-Quiet bytes w =
        let a = attempt ops env c bytes w in
        let q : Quiet w a.after = attempt-Quiet bytes w in
        let rest =
          Quiet-trans (notify-Quiet a.remaining a.after)
            (keep_rest-Quiet bytes a.nwrote (notify_high_water ops env c a.remaining a.after)) in
        if-Quiet (eq_state (state_of w c) k_disconnected) (Quiet-refl w)
          (if-Quiet _ (Quiet-trans q rest) q)

    after_flush-Quiet : (r : WriteResult) (w : World B Server) → Quiet w (after_flush ops env c r w)
    unfolding after_flush wrote_some
    after_flush-Quiet (wrote zero) w = Quiet-refl w
    after_flush-Quiet (wrote (suc n)) w =
        let w1 = set_buffer c (ops.retrieve (buffer_of w c) (suc n)) w in
        let q : Quiet w w1 = buffer-Quiet c (ops.retrieve (buffer_of w c) (suc n)) w in
        if-Quiet (ops.readable_bytes (buffer_of w1 c) == 0) (Quiet-trans q (drained-Quiet c w1)) q
    after_flush-Quiet (write_failed e) w = Quiet-refl w

    pub handle_write-Quiet : (w : World B Server) → Quiet w (handle_write ops env c w)
    unfolding handle_write
    handle_write-Quiet w =
        let s = write (fd_of w c) (ops.peek (buffer_of w c)) in
        if-Quiet (is_writing (channel_of w c))
          (Quiet-trans (call-Quiet s w) (after_flush-Quiet (flush_result ops env w c) (call s w)))
          (Quiet-refl w)
