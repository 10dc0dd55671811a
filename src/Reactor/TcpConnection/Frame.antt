-- ===== src/Reactor/TcpConnection/Frame.antt =====
-- What the operations of the poller and of the loop leave alone, as a connection sees it.
use network_structure.Prelude.{
  ℕ, ◌==◌, ◌≡◌, ◌≢◌, inl, inr, List, [], ◌∷◌, ◌++◌, arith, if◌then◌else◌, take,
}
use network_structure.Reactor.Channel.{Flags}
use network_structure.Reactor.Poller.{Poller, Syscall, write, set_events}
use network_structure.Reactor.Poller.Synced.{ChannelIndex-cases}
use network_structure.Reactor.World.{WriteResult, wrote, write_failed, Env, World, Functor}
use network_structure.Reactor.EventLoop.{queue_in_loop}

-- The bytes of one write that the operating system took.
abbrev pub taken : WriteResult → List ℕ → List ℕ
taken (wrote n) bytes = take n bytes
taken (write_failed e) bytes = []

module _ (env : Env) where
  -- All the bytes that the operating system has taken on a descriptor, oldest first.
  abbrev pub accepted : ℕ → List Syscall → List ℕ
  accepted fd [] = []
  accepted fd (write j bytes ∷ cs) =
      if j == fd
      then accepted fd cs ++ taken (env.write_result (write j bytes ∷ cs)) bytes
      else accepted fd cs
  accepted fd (_ ∷ cs) = accepted fd cs

  pub accepted-set_events :
      (fd p : ℕ) (f : Flags → Flags) (r : Poller)
      → accepted fd (set_events p f r).calls ≡ accepted fd r.calls
  unfolding set_events
  accepted-set_events fd p f r = elim (ChannelIndex-cases (r.heap p).index) [
    | inl e ↦ ground arith
    | inr (inl e) ↦ ground arith
    | inr (inr e) ↦ ground arith
  ]

  pub accepted-queue_in_loop :
      {B S : Type 0} (fd : ℕ) (f : Functor) (w : World B S)
      → w.loop.wakeup_fd ≢ fd
      → accepted fd (queue_in_loop f w).poller.calls ≡ accepted fd w.poller.calls
  unfolding queue_in_loop
  accepted-queue_in_loop fd f w h = ground arith

-- `set_events` changes the events of its channel as asked, and no other channel's.
pub set_events-events :
    (p : ℕ) (f : Flags → Flags) (r : Poller) (q : ℕ)
    → (((set_events p f r).heap q).events
        ≡ (if p == q then f (r.heap p).events else (r.heap q).events))
      × (((set_events p f r).heap q).fd ≡ (r.heap q).fd)
unfolding set_events
set_events-events p f r q = elim (ChannelIndex-cases (r.heap p).index) [
  | inl e ↦ ground arith
  | inr (inl e) ↦ ground arith
  | inr (inr e) ↦ ground arith
]

-- A queued functor changes neither the channels nor the connections.
pub queue_in_loop-keeps :
    {B S : Type 0} (f : Functor) (w : World B S)
    → ((queue_in_loop f w).poller.heap ≡ w.poller.heap)
      × ((queue_in_loop f w).conns ≡ w.conns)
      × ((queue_in_loop f w).loop.wakeup_fd ≡ w.loop.wakeup_fd)
unfolding queue_in_loop
queue_in_loop-keeps f w = ground arith
