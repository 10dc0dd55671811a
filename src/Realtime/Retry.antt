-- ===== src/Realtime/Retry.antt =====
-- The retries of `setscheduler` come to an end.
use mathlib.Core.Bool.{false≢true}
use network_structure.Prelude.{
  ℕ, suc, ◌^◌, ◌<◌, ◌≡◌, refl, sym, ap, ◌∙◌, subst, inl, inr, true, false, not, ◌&&◌, none, some,
  arith, ◌==◌, Bool-cases, Option-cases,
}
use network_structure.Prelude.Int.{ltb_ℤ, pos, minus_one, eq_ℤ}
use network_structure.Realtime.{
  max_of, Limit, Scheduler, eperm, raise_limit, raise_soft_prio, setscheduler,
}

module _ {K : Type 0} (os : Scheduler K) where
  -- The soft limit is at the priority, where it can be read at all.
  record Settled (prio : ℕ) (k : K) : Type 0 where
    at : (os.get_limit k).1 ≡ none → (os.get_limit k).0.rlim_cur ≡ prio

  raise_limit-fails :
      (policy prio : ℕ) (l : Limit) (k : K)
      → prio < 2 ^ 31
      → l.rlim_cur ≡ prio
      → eq_ℤ (raise_limit os policy prio l k).1 (pos 0) ≡ false
  unfolding raise_limit
  raise_limit-fails policy prio l k h e = ground (arith, e)

  raise_limit-Settled :
      (policy prio : ℕ) (l : Limit) (k : K)
      → eq_ℤ (raise_limit os policy prio l k).1 (pos 0) ≡ true
      → Settled prio (raise_limit os policy prio l k).0
  unfolding raise_limit
  raise_limit-Settled policy prio l k e =
      let m = record l { rlim_cur = prio } in
      elim (Bool-cases (
        ltb_ℤ (max_of os policy l.rlim_cur) (pos prio)
        && not (ltb_ℤ (max_of os policy l.rlim_max) (pos prio)))) [
          | inr h ↦ absurd (false≢true (sym (rw h refl) ∙ e))
          | inl h ↦ elim (Option-cases (os.set_limit m k).1) [
            | inr (n, i) ↦ ground (arith, h, i, e, os.set_failed m k n i)
            | inl i ↦ rw h (record { at = λ r. ap (λ t. t.rlim_cur) (os.limit_set m k i r) })
          ]
        ]

  module _ (policy prio : ℕ) (k : K) where
    raise-raise_limit :
        eq_ℤ (os.priority_max policy) minus_one ≡ false
        → (os.get_limit k).1 ≡ none
        → raise_soft_prio os policy prio k ≡ raise_limit os policy prio (os.get_limit k).0 k
    unfolding raise_soft_prio
    raise-raise_limit h i = rw h (rw i refl)

    -- Where `raise_soft_prio` returns 0 it has set the limit.
    raise-Settled :
        eq_ℤ (raise_soft_prio os policy prio k).1 (pos 0) ≡ true
        → Settled prio (raise_soft_prio os policy prio k).0
    unfolding raise_soft_prio
    raise-Settled e = elim (Bool-cases (eq_ℤ (os.priority_max policy) minus_one)) [
      | inl h ↦ ground (arith, h, e, os.priority_max_failed)
      | inr h ↦ elim (Option-cases (os.get_limit k).1) [
        | inl i ↦
            let q = raise-raise_limit h i in
            subst (λ t. Settled prio t.0) (sym q)
              (raise_limit-Settled policy prio (os.get_limit k).0 k
                (ap (λ t. eq_ℤ t.1 (pos 0)) (sym q) ∙ e))
        | inr (n, i) ↦ ground (arith, h, i, e, os.get_failed k n i)
      ]
    ]

    Settled-fails :
        prio < 2 ^ 31 → Settled prio k → eq_ℤ (raise_soft_prio os policy prio k).1 (pos 0) ≡ false
    unfolding raise_soft_prio
    Settled-fails l s = elim (Bool-cases (eq_ℤ (os.priority_max policy) minus_one)) [
      | inl h ↦ ground (arith, h, os.priority_max_failed)
      | inr h ↦ elim (Option-cases (os.get_limit k).1) [
        | inl i ↦ rw h (rw i (raise_limit-fails policy prio (os.get_limit k).0 k l (s.at i)))
        | inr (n, i) ↦ ground (arith, h, i, os.get_failed k n i)
      ]
    ]

  -- After a sched_setscheduler that fails the limits are what they were.
  Settled-kept :
      (policy prio e : ℕ) (k : K)
      → (os.set_scheduler policy prio k).1 ≡ some e
      → Settled prio k
      → Settled prio (os.set_scheduler policy prio k).0
  Settled-kept policy prio e k h s =
      let q = os.limit_kept policy prio e k h in
      record { at = λ r. ap (λ t. t.0.rlim_cur) q ∙ s.at (ap (λ t. t.1) (sym q) ∙ r) }

  module _ (policy prio : ℕ) (l : prio < 2 ^ 31) where
    Settled-ends :
        (k : K)
        → Settled prio k
        → (r : K × ℕ) × ((tries : ℕ) → setscheduler os (suc tries) policy prio k ≡ some r)
    unfolding setscheduler
    Settled-ends k s =
        let k1 = (os.set_scheduler policy prio k).0 in
        let k2 = (raise_soft_prio os policy prio k1).0 in
        elim (Option-cases (os.set_scheduler policy prio k).1) [
          | inl h ↦ ((k1, 0), λ tries. rw (setscheduler, h) refl)
          | inr (e, h) ↦ elim (Bool-cases (e == eperm)) [
            | inr i ↦ ((k1, e), λ tries. rw (setscheduler, h) (rw i refl))
            | inl i ↦
                let f = Settled-fails policy prio k1 l (Settled-kept policy prio e k h s) in
                ((k2, e), λ tries. rw (setscheduler, h) (rw i (rw f refl)))
          ]
        ]

    -- `setscheduler` comes to an end: for a priority that an `int` holds and whatever the operating
    -- system answers, two tries suffice, and more give the same result.
    pub setscheduler_ends :
        (k : K)
        → (r : K × ℕ) × ((tries : ℕ) → setscheduler os (suc (suc tries)) policy prio k ≡ some r)
    unfolding setscheduler
    setscheduler_ends k =
        let k1 = (os.set_scheduler policy prio k).0 in
        let k2 = (raise_soft_prio os policy prio k1).0 in
        elim (Option-cases (os.set_scheduler policy prio k).1) [
          | inl h ↦ ((k1, 0), λ tries. rw (setscheduler, h) refl)
          | inr (e, h) ↦ elim (Bool-cases (e == eperm)) [
            | inr i ↦ ((k1, e), λ tries. rw (setscheduler, h) (rw i refl))
            | inl i ↦ elim (Bool-cases (eq_ℤ (raise_soft_prio os policy prio k1).1 (pos 0))) [
              | inr f ↦ ((k2, e), λ tries. rw (setscheduler, h) (rw i (rw f refl)))
              | inl g ↦
                  let r = Settled-ends k2 (raise-Settled policy prio k1 g) in
                  (r.0, λ tries. rw (setscheduler, h) (rw i (rw g (r.1 tries))))
            ]
          ]
        ]
