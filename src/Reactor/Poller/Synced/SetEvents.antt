-- ===== src/Reactor/Poller/Synced/SetEvents.antt =====
-- `Synced` is kept where a channel changes its events.
use network_structure.Prelude.{
  ℕ, ◌==◌, ◌≡◌, inl, inr, true, none, some, if◌then◌else◌, arith, lookup, lookup-insert,
  Option-cases,
}
use network_structure.Reactor.Channel.{Flags, c_new, c_added, c_deleted}
use network_structure.Reactor.Poller.{Poller, ctl_add, ctl_mod, ctl_del, set_events}
use network_structure.Reactor.Poller.Epoll.{Epoll, replay}
use network_structure.Reactor.Poller.Synced.{Synced, OwnsFd, ChannelIndex-cases}

module _ (ep : Epoll) (p : ℕ) (f : Flags → Flags) (r : Poller) (s : Synced ep r)
    (own : OwnsFd r p) where
  open ep use {entry, add_free, mod_known, del_known}

  free_of_new : (r.heap p).index ≡ c_new → lookup (r.heap p).fd r.channel_map ≡ none
  free_of_new e = elim (Option-cases (lookup (r.heap p).fd r.channel_map)) [
    | inl h ↦ h
    | inr (q, h) ↦ absurd ((s.keyed (r.heap p).fd q h).1 (ground (arith, own q h)))
  ]

  -- The interest set before the call, and the call that each index leads to.
  abbrev before : ep.Interest
  before = replay ep r.calls

  abbrev fd : ℕ
  fd = (r.heap p).fd

  entry_of_new : (r.heap p).index ≡ c_new → entry before fd ≡ none
  entry_of_new e = ground (arith, free_of_new e, s.agrees fd)

  entry_of_added : (r.heap p).index ≡ c_added → entry before fd ≡ some ((r.heap p).events, p)
  entry_of_added e = ground (arith, s.registered p, s.agrees fd)

  set_events-new : (r.heap p).index ≡ c_new → Synced ep (set_events p f r)
  unfolding set_events
  set_events-new e = record {
    agrees = λ j. elim (Option-cases (lookup j r.channel_map)) [
      | inl h ↦ ground (arith, free, s.agrees j, call.1 j, lookup-insert fd j p r.channel_map)
      | inr (q, h) ↦
          ground
            (arith, free, s.agrees j, call.1 j, lookup-insert fd j p r.channel_map, s.keyed j q h)
    ];
    keyed = λ j q h. ground (arith, free, lookup-insert fd j p r.channel_map, s.keyed j q);
    registered =
        λ q h. ground (arith, free, lookup-insert fd (r.heap q).fd p r.channel_map, s.registered q);
    succeeded = ground (arith, free, s.succeeded, call.0);
  }
    where
      free : lookup (r.heap p).fd r.channel_map ≡ none
      free = free_of_new e

      call :
          ((ep.ctl ctl_add fd (f (r.heap p).events) p before).1 ≡ true)
          × ((j : ℕ)
              → entry (ep.ctl ctl_add fd (f (r.heap p).events) p before).0 j
                ≡ (if fd == j then some (f (r.heap p).events, p) else entry before j))
      call = add_free fd (f (r.heap p).events) p before (entry_of_new e)

  set_events-added : (r.heap p).index ≡ c_added → Synced ep (set_events p f r)
  unfolding set_events
  set_events-added e = record {
    agrees = λ j. elim (Option-cases (lookup j r.channel_map)) [
      | inl h ↦ ground (arith, mine, s.agrees j, changed.1 j, dropped.1 j)
      | inr (q, h) ↦ ground (arith, mine, s.agrees j, changed.1 j, dropped.1 j, s.keyed j q h)
    ];
    keyed = λ j q h. ground (arith, mine, s.keyed j q);
    registered = λ q h. ground (arith, mine, s.registered q);
    succeeded = ground (arith, mine, s.succeeded, changed.0, dropped.0);
  }
    where
      mine : lookup fd r.channel_map ≡ some p
      mine = s.registered p (ground arith)

      changed :
          ((ep.ctl ctl_mod fd (f (r.heap p).events) p before).1 ≡ true)
          × ((j : ℕ)
              → entry (ep.ctl ctl_mod fd (f (r.heap p).events) p before).0 j
                ≡ (if fd == j then some (f (r.heap p).events, p) else entry before j))
      changed = mod_known fd (f (r.heap p).events) p before _ (entry_of_added e)

      dropped :
          ((ep.ctl ctl_del fd (f (r.heap p).events) p before).1 ≡ true)
          × ((j : ℕ)
              → entry (ep.ctl ctl_del fd (f (r.heap p).events) p before).0 j
                ≡ (if fd == j then none else entry before j))
      dropped = del_known fd (f (r.heap p).events) p before _ (entry_of_added e)

  set_events-deleted : (r.heap p).index ≡ c_deleted → Synced ep (set_events p f r)
  unfolding set_events
  set_events-deleted e = record {
    agrees = λ j. elim (Option-cases (lookup j r.channel_map)) [
      | inl h ↦ ground (arith, mine, s.agrees j)
      | inr (q, h) ↦ ground (arith, mine, s.agrees j, s.keyed j q h)
    ];
    keyed = λ j q h. ground (arith, mine, s.keyed j q);
    registered = λ q h. ground (arith, mine, s.registered q);
    succeeded = ground (arith, mine, s.succeeded);
  }
    where
      mine : lookup fd r.channel_map ≡ some p
      mine = s.registered p (ground arith)

  pub set_events-Synced : Synced ep (set_events p f r)
  set_events-Synced = elim (ChannelIndex-cases (r.heap p).index) [
    | inl e ↦ set_events-new e
    | inr (inl e) ↦ set_events-added e
    | inr (inr e) ↦ set_events-deleted e
  ]
