-- ===== src/Reactor/Poller/Synced.antt =====
-- The agreement of the poller with the kernel's interest set.
pub mod SetEvents
pub mod Remove
use network_structure.Prelude.{
  ℕ, ◌≡◌, refl, ◌≢◌, ◌⊎◌, inl, inr, Option, none, some, if◌then◌else◌, lookup,
}
use network_structure.Reactor.Channel.{Flags, Channel, ChannelIndex, c_new, c_added, c_deleted}
use network_structure.Reactor.Poller.{Poller, is_added}
use network_structure.Reactor.Poller.Epoll.{Epoll, replay, AllSucceed}

-- What the interest set should hold for an entry of `channels_`.
abbrev pub wanted : (ℕ → Channel) → Option ℕ → Option (Flags × ℕ)
wanted heap none = none
wanted heap (some p) = if is_added (heap p).index then some ((heap p).events, p) else none

module _ (ep : Epoll) where
  open ep use {entry}

  -- Each descriptor is registered exactly where `channels_` has an added channel for it, with that
  -- channel's events and address; `channels_` is keyed by the channels' descriptors and holds every
  -- channel that is not new; and every call of epoll_ctl has succeeded.
  pub record Synced (r : Poller) : Type 0 where
    pub agrees : (fd : ℕ) → entry (replay ep r.calls) fd ≡ wanted r.heap (lookup fd r.channel_map)
    pub keyed :
        (fd p : ℕ)
        → lookup fd r.channel_map ≡ some p
        → ((r.heap p).fd ≡ fd) × ((r.heap p).index ≢ c_new)
    pub registered :
        (p : ℕ) → (r.heap p).index ≢ c_new → lookup (r.heap p).fd r.channel_map ≡ some p
    pub succeeded : AllSucceed ep r.calls

-- No other channel holds the descriptor of `p`.
abbrev pub OwnsFd : Poller → ℕ → Type 0
OwnsFd r p = (q : ℕ) → lookup (r.heap p).fd r.channel_map ≡ some q → q ≡ p

pub ChannelIndex-cases : (i : ChannelIndex) → (i ≡ c_new) ⊎ ((i ≡ c_added) ⊎ (i ≡ c_deleted))
ChannelIndex-cases c_new = inl refl
ChannelIndex-cases c_added = inr (inl refl)
ChannelIndex-cases c_deleted = inr (inr refl)
