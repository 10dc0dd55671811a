-- ===== src/Reactor/Poller/Synced/Remove.antt =====
-- `Synced` is kept where a channel is removed.
use network_structure.Prelude.{
  ℕ, ◌==◌, ◌≡◌, ◌⊎◌, inl, inr, true, false, Bool-cases, none, some, if◌then◌else◌, arith, lookup,
  lookup-erase, Option-cases,
}
use network_structure.Reactor.Channel.{c_new, c_added, c_deleted, is_none}
use network_structure.Reactor.Poller.{Poller, ctl_del, remove}
use network_structure.Reactor.Poller.Epoll.{Epoll, replay}
use network_structure.Reactor.Poller.Synced.{Synced, ChannelIndex-cases}

module _ (ep : Epoll) (p : ℕ) (r : Poller) (s : Synced ep r) where
  open ep use {entry, del_known}

  remove-added :
      (r.heap p).index ≡ c_added → is_none (r.heap p).events ≡ true → Synced ep (remove p r)
  unfolding remove
  remove-added e idle = record {
    agrees = λ j. elim (Option-cases (lookup j r.channel_map)) [
      | inl h ↦
          ground (arith, mine, s.agrees j, dropped.1 j, lookup-erase (r.heap p).fd j r.channel_map)
      | inr (q, h) ↦ ground (
        arith,
        mine,
        s.agrees j,
        dropped.1 j,
        lookup-erase (r.heap p).fd j r.channel_map,
        s.keyed j q h,
      )
    ];
    keyed = λ j q h. ground (arith, mine, lookup-erase (r.heap p).fd j r.channel_map, s.keyed j q);
    registered = λ q h.
        ground
          (arith, mine, lookup-erase (r.heap p).fd (r.heap q).fd r.channel_map, s.registered q);
    succeeded = ground (arith, mine, s.succeeded, dropped.0);
  }
    where
      mine : lookup (r.heap p).fd r.channel_map ≡ some p
      mine = s.registered p (ground arith)

      dropped :
          ((ep.ctl ctl_del (r.heap p).fd (r.heap p).events p (replay ep r.calls)).1 ≡ true)
          × ((j : ℕ)
              → entry (ep.ctl ctl_del (r.heap p).fd (r.heap p).events p (replay ep r.calls)).0 j
                ≡ (if (r.heap p).fd == j then none else entry (replay ep r.calls) j))
      dropped =
          del_known (r.heap p).fd (r.heap p).events p (replay ep r.calls) ((r.heap p).events, p)
            (ground (arith, mine, s.agrees (r.heap p).fd))

  remove-deleted :
      (r.heap p).index ≡ c_deleted → is_none (r.heap p).events ≡ true → Synced ep (remove p r)
  unfolding remove
  remove-deleted e idle = record {
    agrees = λ j. elim (Option-cases (lookup j r.channel_map)) [
      | inl h ↦ ground (arith, mine, s.agrees j, lookup-erase (r.heap p).fd j r.channel_map)
      | inr (q, h) ↦ ground (
        arith,
        mine,
        s.agrees j,
        s.agrees (r.heap p).fd,
        lookup-erase (r.heap p).fd j r.channel_map,
        s.keyed j q h,
      )
    ];
    keyed = λ j q h. ground (arith, mine, lookup-erase (r.heap p).fd j r.channel_map, s.keyed j q);
    registered = λ q h.
        ground
          (arith, mine, lookup-erase (r.heap p).fd (r.heap q).fd r.channel_map, s.registered q);
    succeeded = ground (arith, mine, s.succeeded);
  }
    where
      mine : lookup (r.heap p).fd r.channel_map ≡ some p
      mine = s.registered p (ground arith)

  -- The channel is left where it was, up to the mark `addedToLoop_`.
  remove-kept :
      ((r.heap p).index ≡ c_new) ⊎ (is_none (r.heap p).events ≡ false) → Synced ep (remove p r)
  unfolding remove
  remove-kept e = record {
    agrees = λ j. elim (Option-cases (lookup j r.channel_map)) [
      | inl h ↦ ground (arith, s.agrees j)
      | inr (q, h) ↦ ground (arith, s.agrees j, s.keyed j q h)
    ];
    keyed = λ j q h. ground (arith, s.keyed j q);
    registered = λ q h. ground (arith, s.registered q);
    succeeded = ground (arith, s.succeeded);
  }

  pub remove-Synced : Synced ep (remove p r)
  remove-Synced = elim (Bool-cases (is_none (r.heap p).events)) [
    | inr busy ↦ remove-kept (inr busy)
    | inl idle ↦ elim (ChannelIndex-cases (r.heap p).index) [
      | inl e ↦ remove-kept (inl e)
      | inr (inl e) ↦ remove-added e idle
      | inr (inr e) ↦ remove-deleted e idle
    ]
  ]
