-- ===== src/Reactor/Poller/Epoll.antt =====
-- The interest set of an epoll descriptor, which the kernel keeps: the interface to epoll_ctl(2),
-- with its documented behaviour, on descriptors that are open.
use network_structure.Prelude.{
  ℕ, ◌==◌, ◌≡◌, Bool, true, List, [], ◌∷◌, Option, none, some, if◌then◌else◌,
}
use network_structure.Reactor.Channel.{Flags}
use network_structure.Reactor.Poller.{Op, ctl_add, ctl_mod, ctl_del, Syscall, epoll_ctl}

-- `entry` is what a descriptor is registered with; `ctl` also says whether the call succeeded.
pub record Epoll : Type 1 where
  pub Interest : Type 0
  pub start : Interest
  pub entry : Interest → ℕ → Option (Flags × ℕ)
  pub ctl : Op → ℕ → Flags → ℕ → Interest → Interest × Bool
  pub entry-start : (fd : ℕ) → entry start fd ≡ none
  pub add_free :
      (fd : ℕ) (e : Flags) (p : ℕ) (k : Interest)
      → entry k fd ≡ none
      → ((ctl ctl_add fd e p k).1 ≡ true)
        × ((j : ℕ)
            → entry (ctl ctl_add fd e p k).0 j ≡ (if fd == j then some (e, p) else entry k j))
  pub mod_known :
      (fd : ℕ) (e : Flags) (p : ℕ) (k : Interest) (old : Flags × ℕ)
      → entry k fd ≡ some old
      → ((ctl ctl_mod fd e p k).1 ≡ true)
        × ((j : ℕ)
            → entry (ctl ctl_mod fd e p k).0 j ≡ (if fd == j then some (e, p) else entry k j))
  pub del_known :
      (fd : ℕ) (e : Flags) (p : ℕ) (k : Interest) (old : Flags × ℕ)
      → entry k fd ≡ some old
      → ((ctl ctl_del fd e p k).1 ≡ true)
        × ((j : ℕ) → entry (ctl ctl_del fd e p k).0 j ≡ (if fd == j then none else entry k j))

-- The interest set after the calls of a trace, and whether every epoll_ctl in it succeeded.
module _ (ep : Epoll) where
  open ep use {Interest, start, ctl}

  abbrev pub replay : List Syscall → Interest
  replay [] = start
  replay (epoll_ctl op fd e p ∷ cs) = (ctl op fd e p (replay cs)).0
  replay (_ ∷ cs) = replay cs

  abbrev pub AllSucceed : List Syscall → Type 0
  AllSucceed [] = Unit
  AllSucceed (epoll_ctl op fd e p ∷ cs) = ((ctl op fd e p (replay cs)).1 ≡ true) × AllSucceed cs
  AllSucceed (_ ∷ cs) = AllSucceed cs
