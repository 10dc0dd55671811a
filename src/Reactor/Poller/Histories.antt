-- ===== src/Reactor/Poller/Histories.antt =====
-- The agreement with the interest set along any history of calls, from an empty poller.
use network_structure.Prelude.{ℕ, ◌≡◌, inl, inr, List, [], ◌∷◌, arith, lookup}
use network_structure.Reactor.Channel.{Flags, Channel, c_new}
use network_structure.Reactor.Poller.{
  Poller, ChannelCall, reading_on, reading_off, writing_on, writing_off, all_off, removed, apply,
  run, new_poller, set_events, remove,
}
use network_structure.Reactor.Poller.Epoll.{Epoll}
use network_structure.Reactor.Poller.Synced.{Synced, OwnsFd, ChannelIndex-cases}
use network_structure.Reactor.Poller.Synced.SetEvents.{set_events-Synced}
use network_structure.Reactor.Poller.Synced.Remove.{remove-Synced}

-- No two channels have one descriptor.
abbrev pub HasDistinctFds : (ℕ → Channel) → Type 0
HasDistinctFds heap = (p q : ℕ) → (heap p).fd ≡ (heap q).fd → p ≡ q

set_events-fd :
    (p : ℕ) (f : Flags → Flags) (r : Poller) (q : ℕ)
    → ((set_events p f r).heap q).fd ≡ (r.heap q).fd
unfolding set_events
set_events-fd p f r q = elim (ChannelIndex-cases (r.heap p).index) [
  | inl e ↦ ground arith
  | inr (inl e) ↦ ground arith
  | inr (inr e) ↦ ground arith
]

remove-fd : (p : ℕ) (r : Poller) (q : ℕ) → ((remove p r).heap q).fd ≡ (r.heap q).fd
unfolding remove
remove-fd p r q = ground arith

apply-fd : (c : ChannelCall) (r : Poller) (q : ℕ) → ((apply c r).heap q).fd ≡ (r.heap q).fd
unfolding apply
apply-fd (reading_on p) r q = set_events-fd p _ r q
apply-fd (reading_off p) r q = set_events-fd p _ r q
apply-fd (writing_on p) r q = set_events-fd p _ r q
apply-fd (writing_off p) r q = set_events-fd p _ r q
apply-fd (all_off p) r q = set_events-fd p _ r q
apply-fd (removed p) r q = remove-fd p r q

module _ (ep : Epoll) where
  owns_fd : (r : Poller) → Synced ep r → HasDistinctFds r.heap → (p : ℕ) → OwnsFd r p
  owns_fd r s d p q h = d q p (s.keyed (r.heap p).fd q h).0

  apply-Synced :
      (c : ChannelCall) (r : Poller) → HasDistinctFds r.heap → Synced ep r → Synced ep (apply c r)
  unfolding apply
  apply-Synced (reading_on p) r d s = set_events-Synced ep p _ r s (owns_fd r s d p)
  apply-Synced (reading_off p) r d s = set_events-Synced ep p _ r s (owns_fd r s d p)
  apply-Synced (writing_on p) r d s = set_events-Synced ep p _ r s (owns_fd r s d p)
  apply-Synced (writing_off p) r d s = set_events-Synced ep p _ r s (owns_fd r s d p)
  apply-Synced (all_off p) r d s = set_events-Synced ep p _ r s (owns_fd r s d p)
  apply-Synced (removed p) r d s = remove-Synced ep p r s

  run-Synced :
      (cs : List ChannelCall) (r : Poller)
      → HasDistinctFds r.heap
      → Synced ep r
      → Synced ep (run cs r)
  unfolding run
  run-Synced [] r d s = s
  run-Synced (c ∷ cs) r d s =
      run-Synced cs (apply c r) (λ p q e. d p q (ground (arith, apply-fd c r p, apply-fd c r q)))
        (apply-Synced c r d s)

  new_poller-Synced :
      (heap : ℕ → Channel) → ((p : ℕ) → (heap p).index ≡ c_new) → Synced ep (new_poller heap)
  unfolding new_poller lookup
  new_poller-Synced heap new = record {
    agrees = λ j. ep.entry-start j;
    keyed = λ j q h. ground arith;
    registered = λ q h. absurd (h (new q));
    succeeded = tt;
  }

  -- From an empty poller over new channels of distinct descriptors, every history of calls on the
  -- channels leaves the kernel's interest set in agreement with `channels_` (`Synced`), and every
  -- epoll_ctl that was made on the way has succeeded.
  pub run-new_poller-Synced :
      (heap : ℕ → Channel)
      → ((p : ℕ) → (heap p).index ≡ c_new)
      → HasDistinctFds heap
      → (cs : List ChannelCall) → Synced ep (run cs (new_poller heap))
  unfolding new_poller
  run-new_poller-Synced heap new d cs =
      run-Synced cs (new_poller heap) d (new_poller-Synced heap new)
