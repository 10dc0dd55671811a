-- ===== src/Reactor/MyServer/Counted.antt =====
-- `numConnected_` over every history of callbacks and functors.
pub mod Histories
pub mod Moves
use network_structure.Reactor.EventLoop.{run_in_loop, queue_in_loop}
use network_structure.Prelude.{
  ℕ, zero, suc, ◌+◌, ◌<◌, ◌≡◌, refl, sym, ap, ◌∙◌, inl, inr, true, false, some, arith, ◌==◌,
  if◌then◌else◌, ==_iff, Bool-cases,
}
use network_structure.Prelude.Int.{pos}
use network_structure.Reactor.MyServer.{admit}
use network_structure.Reactor.TcpConnection.{
  shutdown, force_close, conn_shutdown_in_loop, state_of, is_up,
}
use network_structure.Reactor.World.{StateE, World}
use network_structure.Reactor.TcpServer.{Server}

-- How many of the first `n` connections are up.
abbrev pub ups : ℕ → (ℕ → StateE) → ℕ
ups zero s = 0
ups (suc n) s = (if is_up (s n) then 1 else 0) + ups n s

pub ups-cong :
    (n : ℕ) (s t : ℕ → StateE) → ((d : ℕ) → d < n → is_up (s d) ≡ is_up (t d)) → ups n s ≡ ups n t
ups-cong zero s t h = refl
ups-cong (suc n) s t h =
    ground (arith, h n (ground arith), ups-cong n s t (λ d l. h d (ground (arith, l))))

-- One connection among them goes up, and no other changes.
pub ups-rise :
    (n c : ℕ) (s t : ℕ → StateE)
    → c < n
    → is_up (s c) ≡ false
    → is_up (t c) ≡ true
    → ((d : ℕ) → (c == d) ≡ false → is_up (s d) ≡ is_up (t d))
    → ups n t ≡ suc (ups n s)
ups-rise zero c s t l a b h = ground (arith, l)
ups-rise (suc n) c s t l a b h = elim (Bool-cases (c == n)) [
  | inl e ↦
      let eq = (==_iff c n).0 e in
      let rest = ups-cong n s t (λ d m. h d (ground (arith, m, eq))) in
      ground (arith, rest, eq, a, b, ap s eq, ap t eq)
  | inr e ↦ let rest = ups-rise n c s t (ground (arith, l, e)) a b h in ground (arith, rest, h n e)
]

module _ {B : Type 0} where
  -- `numConnected_` is the number of the connections that are up.
  pub record Counted (w : World B Server) : Type 0 where
    pub count : w.server.num_connected ≡ pos (ups w.server.fresh (state_of w))

  -- Nothing that the count depends on has changed.
  pub record Same (w v : World B Server) : Type 0 where
    pub states : (d : ℕ) → is_up (state_of v d) ≡ is_up (state_of w d)
    pub fresh : v.server.fresh ≡ w.server.fresh
    pub num : v.server.num_connected ≡ w.server.num_connected

  pub Same-Counted : {w v : World B Server} → Same w v → Counted w → Counted v
  Same-Counted {w} {v} s i = record {
    count =
        s.num
        ∙ i.count
        ∙ ap pos (
            ups-cong w.server.fresh (state_of w) (state_of v) (λ d l. sym (s.states d))
            ∙ ap (λ n. ups n (state_of v)) (sym s.fresh));
  }

  pub admit-Same : (c : ℕ) (w v : World B Server) → admit c w ≡ some v → Same w v
  unfolding admit shutdown run_in_loop force_close queue_in_loop conn_shutdown_in_loop
  admit-Same c w v e = record {
    states = λ d. ground (arith, e);
    fresh = ground (arith, e);
    num = ground (arith, e);
  }
