-- ===== src/Reactor/Poller/Fresh.antt =====
-- The first call that Network/src/Poller.cpp makes for a channel.
use network_structure.Prelude.{
  ℕ, ◌≡◌, refl, ap, ◌∙◌, inl, inr, true, ◌∷◌, arith, ◌==◌, Bool-cases, lookup,
}
use network_structure.Reactor.Channel.{Flags, c_new}
use network_structure.Reactor.Poller.{
  Poller, epoll_ctl, ctl_add, modify, absent, update_new, by_index, update_channel, set_events,
}

update_new-calls :
    (p : ℕ) (r : Poller)
    → (update_new p r).calls ≡ epoll_ctl ctl_add (r.heap p).fd (r.heap p).events p ∷ r.calls
unfolding update_new
update_new-calls p r =
    let e : (p == p) ≡ true = ground arith in
    elim (Bool-cases (absent (lookup (r.heap p).fd r.channel_map))) [
      | inl h ↦ rw (h, e) refl
      | inr h ↦ rw (h, e) refl
    ]

-- A channel that is new is added with its events.
pub set_events-calls :
    (p : ℕ) (f : Flags → Flags) (r : Poller)
    → (r.heap p).index ≡ c_new
    → (set_events p f r).calls ≡ epoll_ctl ctl_add (r.heap p).fd (f (r.heap p).events) p ∷ r.calls
unfolding set_events update_channel by_index
set_events-calls p f r h =
    let u = modify p (λ ch. record ch { events = f ch.events; added_to_loop = true }) r in
    let e : (p == p) ≡ true = ground arith in
    let c : u.heap p ≡ record (r.heap p) { events = f (r.heap p).events; added_to_loop = true } =
      rw e refl in
    ap (λ i. (by_index i p u).calls) (ap (λ ch. ch.index) c ∙ h)
    ∙ update_new-calls p u
    ∙ ap (λ ch. epoll_ctl ctl_add ch.fd ch.events p ∷ r.calls) c
