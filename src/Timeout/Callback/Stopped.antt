-- ===== src/Timeout/Callback/Stopped.antt =====
-- What `Start` and `Stop` of `TimerCallback` in OSAL/include/timeout.h promise, over every order of
-- their calls and the threads' steps.
use mathlib.Core.Bool.{false≢true}
use network_structure.Timeout.Callback.{
  stops, steps, starts_at, thread_step, ThreadStep, TimerAction, act, acts, new_timer_callback,
  thread_steps, with_timer, sleeping, start_timer, stop_last, holds, clear_flag, Timer,
  TimerCallback, disable, stop_timer,
}
use network_structure.Prelude.{
  ℕ, suc, ◌+◌, ◌≡◌, refl, sym, ap, ◌∙◌, subst, inl, inr, true, false, Option, none, some, List, [],
  ◌∷◌, ◌++◌, map, arith, ltb, ◌==◌, if◌then◌else◌, Bool-cases, ◌>>=◌, from_some, length,
  length-append, All,
}
use network_structure.Timeout.Callback.Threads.{thread_step-Changed, from-bind, late, is_late}

-- The count is right, and the only flag that may be set is the last one.
pub record Armed (t : TimerCallback) : Type 0 where
  pub count : t.n_thread ≡ length t.threads
  pub only : All (λ x. x.enable ≡ true → t.last_enable ≡ some x.address) t.threads

clear_flag_lem :
    (p : ℕ) (x : Timer)
    → (x.enable ≡ true → some p ≡ some x.address)
    → (clear_flag p x).enable ≡ false
clear_flag_lem p x h = elim (Bool-cases (x.address == p)) [
  | inl e ↦ rw e refl
  | inr e ↦ elim (Bool-cases x.enable) [
    | inl i ↦ let q = from_some (h i) in ground (arith, e, q)
    | inr i ↦ rw e i
  ]
]

clear_flags :
    (p : ℕ) (ts : List Timer)
    → All (λ x. x.enable ≡ true → some p ≡ some x.address) ts
    → All (λ x. x.enable ≡ false) (map (clear_flag p) ts)
clear_flags p [] a = a
clear_flags p (x ∷ xs) a = (clear_flag_lem p x a.0, clear_flags p xs a.1)

length-clear_flag : (p : ℕ) (ts : List Timer) → length (map (clear_flag p) ts) ≡ length ts
length-clear_flag p [] = refl
length-clear_flag p (x ∷ xs) = ap (λ t. suc t) (length-clear_flag p xs)

late-clear_flag : (p : ℕ) (ts : List Timer) → late (map (clear_flag p) ts) ≡ late ts
unfolding late
late-clear_flag p [] = refl
late-clear_flag p (x ∷ xs) =
    let q : is_late (clear_flag p x).phase ≡ is_late x.phase = elim (Bool-cases (x.address == p)) [
      | inl h ↦ rw h refl
      | inr h ↦ rw h refl
    ] in
    omega (arith, q, late-clear_flag p xs)

disable_lem : (p : ℕ) (ts us : List Timer) → disable p ts ≡ some us → us ≡ map (clear_flag p) ts
unfolding disable
disable_lem p ts us e = elim (Bool-cases (holds p ts)) [
  | inl h ↦ sym (from_some (sym (ap (λ b. if b then some (map (clear_flag p) ts) else none) h) ∙ e))
  | inr h ↦ ground (arith, sym (ap (λ b. if b then some (map (clear_flag p) ts) else none) h) ∙ e)
]

none_last :
    (ts : List Timer)
    → All (λ x. x.enable ≡ true → none ≡ some x.address) ts
    → All (λ x. x.enable ≡ false) ts
none_last [] a = a
none_last (x ∷ xs) a =
    (elim (Bool-cases x.enable) [ inl i ↦ ground (arith, a.0 i) | inr i ↦ i ], none_last xs a.1)

no_threads : (ts : List Timer) → length ts ≡ 0 → All (λ x. x.enable ≡ false) ts
no_threads [] h = record {}
no_threads (x ∷ xs) h = absurd (omega (arith, h))

-- What `Stop` leaves.
record Halted (t v : TimerCallback) : Type 0 where
  last : v.last_enable ≡ t.last_enable
  count : v.n_thread ≡ length v.threads
  ran : v.ran ≡ t.ran
  waiting : late v.threads ≡ late t.threads
  clear : All (λ x. x.enable ≡ false) v.threads

still-Halted : (t : TimerCallback) → Armed t → All (λ x. x.enable ≡ false) t.threads → Halted t t
still-Halted t a c = record { last = refl; count = a.count; ran = refl; waiting = refl; clear = c }

stop_last-Halted :
    (o : Option ℕ) (t v : TimerCallback)
    → t.last_enable ≡ o
    → stop_last o t ≡ some v
    → Armed t
    → Halted t v
unfolding stop_last
stop_last-Halted none t v h e a =
    let only = subst (λ o. All (λ x. x.enable ≡ true → o ≡ some x.address) t.threads) h a.only in
    subst (Halted t) (from_some e) (still-Halted t a (none_last t.threads only))
stop_last-Halted (some p) t v h e a =
    let only = subst (λ o. All (λ x. x.enable ≡ true → o ≡ some x.address) t.threads) h a.only in
    let halt = disable p t.threads >>= λ ts. some (record t { threads = ts }) in
    elim (Bool-cases (ltb 0 t.n_thread)) [
      | inl i ↦
          let (us, f, g) =
            from-bind (disable p t.threads) (λ ts. some (record t { threads = ts })) v
              (sym (ap (λ b. if b then halt else some t) i) ∙ e) in
          let q = disable_lem p t.threads us f in
          subst (Halted t) (from_some g) (record {
            last = refl;
            count = a.count ∙ sym (ap length q ∙ length-clear_flag p t.threads);
            ran = refl;
            waiting = ap late q ∙ late-clear_flag p t.threads;
            clear = subst (All (λ x. x.enable ≡ false)) (sym q) (clear_flags p t.threads only);
          })
      | inr i ↦
          subst (Halted t) (from_some (sym (ap (λ b. if b then halt else some t) i) ∙ e))
            (still-Halted t a (no_threads t.threads (ground (arith, i, a.count))))
    ]

stop_timer-Halted : (t v : TimerCallback) → stop_timer t ≡ some v → Armed t → Halted t v
unfolding stop_timer
stop_timer-Halted t v e a = stop_last-Halted t.last_enable t v refl e a

clear-only :
    (o : Option ℕ) (ts : List Timer)
    → All (λ x. x.enable ≡ false) ts
    → All (λ x. x.enable ≡ true → o ≡ some x.address) ts
clear-only o [] c = c
clear-only o (x ∷ xs) c = (λ e. absurd (false≢true (sym c.0 ∙ e)), clear-only o xs c.1)

Halted-Armed : (t v : TimerCallback) → Halted t v → Armed v
Halted-Armed t v h = record { count = h.count; only = clear-only v.last_enable v.threads h.clear }

append_timer :
    (p : ℕ) (ts : List Timer)
    → All (λ x. x.enable ≡ true → some p ≡ some x.address) ts
    → All
        (λ x. x.enable ≡ true → some p ≡ some x.address)
        (ts ++ record { address = p; enable = true; phase = sleeping } ∷ [])
append_timer p [] a = (λ e. refl, a)
append_timer p (x ∷ xs) a = (a.0, append_timer p xs a.1)

start_timer-Armed : (p : ℕ) (t v : TimerCallback) → start_timer p t ≡ some v → Armed t → Armed v
unfolding start_timer
start_timer-Armed p t v e a =
    let (u, g, h) =
      from-bind (stop_timer t) (λ u. if holds p u.threads then none else some (with_timer p u)) v
        e in
    let s = stop_timer-Halted t u g a in
    elim (Bool-cases (holds p u.threads)) [
      | inl i ↦ ground (arith, i, h)
      | inr i ↦
          subst Armed (from_some (sym (ap (λ b. if b then none else some (with_timer p u)) i) ∙ h))
            (record {
              count = omega (
                arith,
                s.count,
                length-append u.threads
                    (record { address = p; enable = true; phase = sleeping } ∷ []),
              );
              only = append_timer p u.threads (clear-only (some p) u.threads s.clear);
            })
    ]

act-Armed : (b : TimerAction) (t v : TimerCallback) → act b t ≡ some v → Armed t → Armed v
unfolding act
act-Armed (starts_at p) t v e a = start_timer-Armed p t v e a
act-Armed stops t v e a = Halted-Armed t v (stop_timer-Halted t v e a)
act-Armed (steps s) t v e a =
    let c = thread_step-Changed s t v e in
    record {
      count = c.count a.count;
      only =
          subst (λ o. All (λ x. x.enable ≡ true → o ≡ some x.address) v.threads) (sym c.last)
            (c.flags (λ b q. b ≡ true → t.last_enable ≡ some q) a.only);
    }

acts-from : (bs : List TimerAction) (t v : TimerCallback) → acts bs t ≡ some v → Armed t → Armed v
unfolding acts
acts-from [] t v e a = subst Armed (from_some e) a
acts-from (b ∷ bs) t v e a =
    let (u, g, h) = from-bind (act b t) (acts bs) v e in acts-from bs u v h (act-Armed b t u g a)

-- After any calls and steps from a new object nThread is the number of threads that have not ended,
-- and the only flag that may be set is the one of the last `Start`.
pub acts-Armed :
    (bs : List TimerAction) (v : TimerCallback) → acts bs new_timer_callback ≡ some v → Armed v
unfolding new_timer_callback
acts-Armed bs v e = acts-from bs new_timer_callback v e (record { count = refl; only = record {} })

thread_steps-silent :
    (ss : List ThreadStep) (t v : TimerCallback)
    → thread_steps ss t ≡ some v
    → All (λ x. x.enable ≡ false) t.threads
    → length v.ran + late v.threads ≡ length t.ran + late t.threads
unfolding thread_steps
thread_steps-silent [] t v e a = sym (ap (λ u. length u.ran + late u.threads) (from_some e))
thread_steps-silent (s ∷ ss) t v e a =
    let (u, g, h) = from-bind (thread_step s t) (thread_steps ss) v e in
    let c = thread_step-Changed s t u g in
    thread_steps-silent ss u v h (c.flags (λ b q. b ≡ false) a) ∙ c.silent a

-- After a `Stop` that is defined, from whatever state calls and steps lead to, the tasks that are
-- still called, however many steps the threads make, are those of the threads that had found their
-- flag set before the `Stop` and had not called their task yet: so many tasks have been called as
-- such threads have become fewer, and no thread becomes one.
pub stop_timer-silent :
    (bs : List TimerAction) (t u v : TimerCallback) (ss : List ThreadStep)
    → acts bs new_timer_callback ≡ some t
    → stop_timer t ≡ some u
    → thread_steps ss u ≡ some v
    → length v.ran + late v.threads ≡ length t.ran + late t.threads
stop_timer-silent bs t u v ss e f g =
    let h = stop_timer-Halted t u f (acts-Armed bs t e) in
    thread_steps-silent ss u v g h.clear
    ∙ (ap (λ r. length r + late u.threads) h.ran ∙ ap (λ n. length t.ran + n) h.waiting)
