-- ===== src/Reactor/Poller/Deleted.antt =====
-- A channel that has been taken out of the interest set and asks to be put back.
use network_structure.Prelude.{ℕ, ◌≡◌, refl, ◌∙◌, true, List, [], ◌∷◌, some, none, arith, lookup}
use network_structure.Reactor.Channel.{Flags, c_added, c_deleted, none_event}
use network_structure.Reactor.Poller.{Poller, set_events, disable_all, enable_reading}
use network_structure.Reactor.Poller.Epoll.{Epoll, replay}
use network_structure.Reactor.Poller.Synced.{Synced, OwnsFd}
use network_structure.Reactor.Poller.Synced.SetEvents.{set_events-Synced}

-- One change of the events of `p` after the other.
pub set_events_all : ℕ → List (Flags → Flags) → Poller → Poller
set_events_all p [] r = r
set_events_all p (f ∷ fs) r = set_events_all p fs (set_events p f r)

record Out (p fd : ℕ) (r : Poller) : Type 0 where
  known : lookup fd r.channel_map ≡ some p
  own_fd : (r.heap p).fd ≡ fd
  out : (r.heap p).index ≡ c_deleted

set_events-Out :
    (p fd : ℕ) (f : Flags → Flags) (r : Poller) → Out p fd r → Out p fd (set_events p f r)
unfolding set_events
set_events-Out p fd f r o = ground arith

set_events-calls :
    (p fd : ℕ) (f : Flags → Flags) (r : Poller) → Out p fd r → (set_events p f r).calls ≡ r.calls
unfolding set_events
set_events-calls p fd f r o = ground arith

set_events_all-calls :
    (p fd : ℕ) (fs : List (Flags → Flags)) (r : Poller)
    → Out p fd r
    → (set_events_all p fs r).calls ≡ r.calls
unfolding set_events_all
set_events_all-calls p fd [] r o = refl
set_events_all-calls p fd (f ∷ fs) r o =
    set_events_all-calls p fd fs (set_events p f r) (set_events-Out p fd f r o)
    ∙ set_events-calls p fd f r o

disable_all-Out :
    (ep : Epoll) (p : ℕ) (r : Poller)
    → Synced ep r
    → (r.heap p).index ≡ c_added
    → Out p (r.heap p).fd (disable_all p r)
unfolding set_events
disable_all-Out ep p r s e = ground (arith, s.registered p)

disable_all-entry :
    (ep : Epoll) (p : ℕ) (r : Poller)
    → Synced ep r
    → OwnsFd r p
    → (r.heap p).index ≡ c_added
    → ep.entry (replay ep (disable_all p r).calls) (r.heap p).fd ≡ none
disable_all-entry ep p r s own e = ground (
  arith,
  disable_all-Out ep p r s e,
  (set_events-Synced ep p (λ _. none_event) r s own).agrees (r.heap p).fd,
)

-- A fault of `updateChannel`, for an added channel that alone has its descriptor, in a poller that
-- agrees with the interest set: once `disableAll` has taken a channel out of the interest set, it
-- returns before EPOLL_CTL_ADD for as long as the channel is in `channels_`. Whatever events the
-- channel asks for afterwards, no call is made and its descriptor stays out of the interest set,
-- though the channel itself says that it reads.
pub reenable_ignored :
    (ep : Epoll) (p : ℕ) (r : Poller)
    → Synced ep r
    → OwnsFd r p
    → (r.heap p).index ≡ c_added
    → (fs : List (Flags → Flags))
    → ((set_events_all p fs (disable_all p r)).calls ≡ (disable_all p r).calls)
      × (ep.entry (replay ep (set_events_all p fs (disable_all p r)).calls) (r.heap p).fd ≡ none)
      × (((enable_reading p (disable_all p r)).heap p).events.epollin ≡ true)
unfolding set_events
reenable_ignored ep p r s own e fs =
    let same = set_events_all-calls p (r.heap p).fd fs _ (disable_all-Out ep p r s e) in
    (same, rw same (disable_all-entry ep p r s own e), ground (arith, disable_all-Out ep p r s e))
