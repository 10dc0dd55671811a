-- ===== src/Timeout/Callback/Threads.antt =====
-- What every step of the threads of `TimerCallback` in OSAL/include/timeout.h leaves alone: the
-- flags, their addresses and the count.
use network_structure.Timeout.Callback.{
  called_task, call_in, calls_task, sleeping, before_task, in_task, before_delete, before_decrement,
  wakes_up, returns, deletes, ends, TimerCallback, ThreadStep, delete_in, end_in, return_in,
  wake_in, Phase, thread_step, Timer, on_thread, without_thread,
}
use network_structure.Prelude.{
  ℕ, zero, suc, ◌-◌, ◌≡◌, refl, sym, ap, ◌∙◌, subst, Bool, false, Option, none, some, List, [], ◌∷◌,
  ◌++◌, ◌+◌, arith, if◌then◌else◌, ◌>>=◌, from_some, length, length-append, get_elem?, All,
}

pub from-bind :
    {A B : Type 0} (m : Option A) (f : A → Option B) (b : B)
    → (m >>= f) ≡ some b
    → (a : A) × (m ≡ some a) × (f a ≡ some b)
from-bind none f b e = ground (arith, e)
from-bind (some a) f b e = (a, refl, e)

-- The step changes neither the flag nor its address.
record KeepsFlag (g : Phase → Timer → Option Timer) : Type 0 where
  flag : (ph : Phase) (x y : Timer) → g ph x ≡ some y → y.enable ≡ x.enable
  place : (ph : Phase) (x y : Timer) → g ph x ≡ some y → y.address ≡ x.address

end_in_lem : (ph : Phase) (xs us : List Timer) → end_in ph xs ≡ some us → xs ≡ us
end_in_lem sleeping xs us e = ground (arith, e)
end_in_lem before_task xs us e = ground (arith, e)
end_in_lem in_task xs us e = ground (arith, e)
end_in_lem before_delete xs us e = ground (arith, e)
end_in_lem before_decrement xs us e = from_some e

module _ (Q : Bool → ℕ → Type 0) where
  on_thread-AllFlags :
      (g : Phase → Timer → Option Timer)
      → KeepsFlag g
      → (i : ℕ) (ts us : List Timer) → on_thread i (λ x. g x.phase x) ts ≡ some us
      → All (λ x. Q x.enable x.address) ts
      → All (λ x. Q x.enable x.address) us
  unfolding on_thread
  on_thread-AllFlags g k i [] us e a = ground (arith, e)
  on_thread-AllFlags g k zero (x ∷ xs) us e a =
      let (y, e1, h) = from-bind (g x.phase x) (λ y. some (y ∷ xs)) us e in
      subst (All (λ x. Q x.enable x.address)) (from_some h) (
        subst (λ b. Q b y.address) (sym (k.flag x.phase x y e1))
            (subst (λ p. Q x.enable p) (sym (k.place x.phase x y e1)) a.0),
        a.1,
      )
  on_thread-AllFlags g k (suc i) (x ∷ xs) us e a =
      let (ys, e1, h) = from-bind (on_thread i (λ x. g x.phase x) xs) (λ ys. some (x ∷ ys)) us e in
      subst (All (λ x. Q x.enable x.address)) (from_some h)
        (a.0, on_thread-AllFlags g k i xs ys e1 a.1)

  without_thread-AllFlags :
      (i : ℕ) (ts us : List Timer)
      → without_thread i ts ≡ some us
      → All (λ x. Q x.enable x.address) ts
      → All (λ x. Q x.enable x.address) us
  unfolding without_thread
  without_thread-AllFlags i [] us e a = ground (arith, e)
  without_thread-AllFlags zero (x ∷ xs) us e a =
      subst (All (λ x. Q x.enable x.address)) (end_in_lem x.phase xs us e) a.1
  without_thread-AllFlags (suc i) (x ∷ xs) us e a =
      let (ys, g, h) = from-bind (without_thread i xs) (λ ys. some (x ∷ ys)) us e in
      subst (All (λ x. Q x.enable x.address)) (from_some h)
        (a.0, without_thread-AllFlags i xs ys g a.1)

length-on_thread :
    (f : Timer → Option Timer) (i : ℕ) (ts us : List Timer)
    → on_thread i f ts ≡ some us
    → length us ≡ length ts
unfolding on_thread
length-on_thread f i [] us e = ground (arith, e)
length-on_thread f zero (x ∷ xs) us e =
    let (y, g, h) = from-bind (f x) (λ y. some (y ∷ xs)) us e in sym (ap length (from_some h))
length-on_thread f (suc i) (x ∷ xs) us e =
    let (ys, g, h) = from-bind (on_thread i f xs) (λ ys. some (x ∷ ys)) us e in
    sym (ap length (from_some h)) ∙ ap (λ t. suc t) (length-on_thread f i xs ys g)

length-without_thread :
    (i : ℕ) (ts us : List Timer) → without_thread i ts ≡ some us → suc (length us) ≡ length ts
unfolding without_thread
length-without_thread i [] us e = ground (arith, e)
length-without_thread zero (x ∷ xs) us e =
    sym (ap (λ t. suc (length t)) (end_in_lem x.phase xs us e))
length-without_thread (suc i) (x ∷ xs) us e =
    let (ys, g, h) = from-bind (without_thread i xs) (λ ys. some (x ∷ ys)) us e in
    ap (λ t. suc t) (sym (ap length (from_some h)) ∙ length-without_thread i xs ys g)

wake_in-flag : (ph : Phase) (x y : Timer) → wake_in ph x ≡ some y → y.enable ≡ x.enable
wake_in-flag sleeping x y e = sym (ap (λ t. t.enable) (from_some e))
wake_in-flag before_task x y e = ground (arith, e)
wake_in-flag in_task x y e = ground (arith, e)
wake_in-flag before_delete x y e = ground (arith, e)
wake_in-flag before_decrement x y e = ground (arith, e)

wake_in-place : (ph : Phase) (x y : Timer) → wake_in ph x ≡ some y → y.address ≡ x.address
wake_in-place sleeping x y e = sym (ap (λ t. t.address) (from_some e))
wake_in-place before_task x y e = ground (arith, e)
wake_in-place in_task x y e = ground (arith, e)
wake_in-place before_delete x y e = ground (arith, e)
wake_in-place before_decrement x y e = ground (arith, e)

return_in-flag : (ph : Phase) (x y : Timer) → return_in ph x ≡ some y → y.enable ≡ x.enable
return_in-flag sleeping x y e = ground (arith, e)
return_in-flag in_task x y e = sym (ap (λ t. t.enable) (from_some e))
return_in-flag before_task x y e = ground (arith, e)
return_in-flag before_delete x y e = ground (arith, e)
return_in-flag before_decrement x y e = ground (arith, e)

return_in-place : (ph : Phase) (x y : Timer) → return_in ph x ≡ some y → y.address ≡ x.address
return_in-place sleeping x y e = ground (arith, e)
return_in-place in_task x y e = sym (ap (λ t. t.address) (from_some e))
return_in-place before_task x y e = ground (arith, e)
return_in-place before_delete x y e = ground (arith, e)
return_in-place before_decrement x y e = ground (arith, e)

delete_in-flag : (ph : Phase) (x y : Timer) → delete_in ph x ≡ some y → y.enable ≡ x.enable
delete_in-flag sleeping x y e = ground (arith, e)
delete_in-flag before_task x y e = ground (arith, e)
delete_in-flag in_task x y e = ground (arith, e)
delete_in-flag before_delete x y e = sym (ap (λ t. t.enable) (from_some e))
delete_in-flag before_decrement x y e = ground (arith, e)

delete_in-place : (ph : Phase) (x y : Timer) → delete_in ph x ≡ some y → y.address ≡ x.address
delete_in-place sleeping x y e = ground (arith, e)
delete_in-place before_task x y e = ground (arith, e)
delete_in-place in_task x y e = ground (arith, e)
delete_in-place before_delete x y e = sym (ap (λ t. t.address) (from_some e))
delete_in-place before_decrement x y e = ground (arith, e)

call_in-flag : (ph : Phase) (x y : Timer) → call_in ph x ≡ some y → y.enable ≡ x.enable
call_in-flag sleeping x y e = ground (arith, e)
call_in-flag before_task x y e = sym (ap (λ t. t.enable) (from_some e))
call_in-flag in_task x y e = ground (arith, e)
call_in-flag before_delete x y e = ground (arith, e)
call_in-flag before_decrement x y e = ground (arith, e)

call_in-place : (ph : Phase) (x y : Timer) → call_in ph x ≡ some y → y.address ≡ x.address
call_in-place sleeping x y e = ground (arith, e)
call_in-place before_task x y e = sym (ap (λ t. t.address) (from_some e))
call_in-place in_task x y e = ground (arith, e)
call_in-place before_delete x y e = ground (arith, e)
call_in-place before_decrement x y e = ground (arith, e)

-- 1 where the thread has found its flag set and not called its task yet.
abbrev pub is_late : Phase → ℕ
is_late before_task = 1
is_late _ = 0

-- The number of threads between the load of their flag and the call of their task.
unfoldable pub late : List Timer → ℕ
late [] = 0
late (x ∷ xs) = is_late x.phase + late xs

end_in-late :
    (x : Timer) (ph : Phase) (xs us : List Timer)
    → end_in ph xs ≡ some us
    → is_late ph + late xs ≡ late us
end_in-late x sleeping xs us e = ground (arith, e)
end_in-late x before_task xs us e = ground (arith, e)
end_in-late x in_task xs us e = ground (arith, e)
end_in-late x before_delete xs us e = ground (arith, e)
end_in-late x before_decrement xs us e = omega (arith, ap late (from_some e))

without_thread-late :
    (i : ℕ) (ts us : List Timer) → without_thread i ts ≡ some us → late us ≡ late ts
unfolding without_thread late
without_thread-late i [] us e = ground (arith, e)
without_thread-late zero (x ∷ xs) us e = sym (end_in-late x x.phase xs us e)
without_thread-late (suc i) (x ∷ xs) us e =
    let (ys, g, h) = from-bind (without_thread i xs) (λ ys. some (x ∷ ys)) us e in
    sym (ap late (from_some h)) ∙ ap (λ n. is_late x.phase + n) (without_thread-late i xs ys g)

-- A step that makes `k` threads fewer late, of a thread whose flag is not set.
record Lessens (k : ℕ) (g : Phase → Timer → Option Timer) : Type 0 where
  less :
      (ph : Phase) (x y : Timer)
      → g ph x ≡ some y
      → x.enable ≡ false
      → k + is_late y.phase ≡ is_late ph

on_thread-late :
    (k : ℕ) (g : Phase → Timer → Option Timer)
    → Lessens k g
    → (i : ℕ) (ts us : List Timer) → on_thread i (λ x. g x.phase x) ts ≡ some us
    → All (λ x. x.enable ≡ false) ts
    → k + late us ≡ late ts
unfolding on_thread late
on_thread-late k g l i [] us e a = ground (arith, e)
on_thread-late k g l zero (x ∷ xs) us e a =
    let (y, e1, h) = from-bind (g x.phase x) (λ y. some (y ∷ xs)) us e in
    let q : late us ≡ is_late y.phase + late xs = sym (ap late (from_some h)) in
    omega (arith, l.less x.phase x y e1 a.0, q)
on_thread-late k g l (suc i) (x ∷ xs) us e a =
    let (ys, e1, h) = from-bind (on_thread i (λ x. g x.phase x) xs) (λ ys. some (x ∷ ys)) us e in
    let q : late us ≡ is_late x.phase + late ys = sym (ap late (from_some h)) in
    omega (arith, on_thread-late k g l i xs ys e1 a.1, q)

wake_in-late :
    (ph : Phase) (x y : Timer)
    → wake_in ph x ≡ some y
    → x.enable ≡ false
    → 0 + is_late y.phase ≡ is_late ph
wake_in-late sleeping x y e f =
    let q = ap (λ b. is_late (if b then before_task else before_delete)) f in
    omega (arith, ap (λ t. is_late t.phase) (from_some e), q)
wake_in-late before_task x y e f = ground (arith, e)
wake_in-late in_task x y e f = ground (arith, e)
wake_in-late before_delete x y e f = ground (arith, e)
wake_in-late before_decrement x y e f = ground (arith, e)

call_in-late :
    (ph : Phase) (x y : Timer)
    → call_in ph x ≡ some y
    → x.enable ≡ false
    → 1 + is_late y.phase ≡ is_late ph
call_in-late sleeping x y e f = ground (arith, e)
call_in-late before_task x y e f = sym (ap (λ t. 1 + is_late t.phase) (from_some e))
call_in-late in_task x y e f = ground (arith, e)
call_in-late before_delete x y e f = ground (arith, e)
call_in-late before_decrement x y e f = ground (arith, e)

return_in-late :
    (ph : Phase) (x y : Timer)
    → return_in ph x ≡ some y
    → x.enable ≡ false
    → 0 + is_late y.phase ≡ is_late ph
return_in-late sleeping x y e f = ground (arith, e)
return_in-late before_task x y e f = ground (arith, e)
return_in-late in_task x y e f = omega (arith, ap (λ t. is_late t.phase) (from_some e))
return_in-late before_delete x y e f = ground (arith, e)
return_in-late before_decrement x y e f = ground (arith, e)

delete_in-late :
    (ph : Phase) (x y : Timer)
    → delete_in ph x ≡ some y
    → x.enable ≡ false
    → 0 + is_late y.phase ≡ is_late ph
delete_in-late sleeping x y e f = ground (arith, e)
delete_in-late before_task x y e f = ground (arith, e)
delete_in-late in_task x y e f = ground (arith, e)
delete_in-late before_delete x y e f = omega (arith, ap (λ t. is_late t.phase) (from_some e))
delete_in-late before_decrement x y e f = ground (arith, e)

-- The thread that calls its task is there.
called_task-one :
    (f : Timer → Option Timer) (i : ℕ) (ts us : List Timer)
    → on_thread i f ts ≡ some us
    → length (called_task (get_elem? ts i)) ≡ 1
unfolding on_thread called_task
called_task-one f i [] us e = ground (arith, e)
called_task-one f zero (x ∷ xs) us e = refl
called_task-one f (suc i) (x ∷ xs) us e =
    let (ys, g, h) = from-bind (on_thread i f xs) (λ ys. some (x ∷ ys)) us e in
    called_task-one f i xs ys g

-- What a step of a thread does to the timers: a predicate on the flags that holds of every thread
-- still does.
pub record Changed (t v : TimerCallback) : Type 1 where
  pub last : v.last_enable ≡ t.last_enable
  pub count : t.n_thread ≡ length t.threads → v.n_thread ≡ length v.threads
  pub flags :
      (Q : Bool → ℕ → Type 0)
      → All (λ x. Q x.enable x.address) t.threads
      → All (λ x. Q x.enable x.address) v.threads
  pub silent :
      All (λ x. x.enable ≡ false) t.threads
      → length v.ran + late v.threads ≡ length t.ran + late t.threads

on_thread-Changed :
    (g : Phase → Timer → Option Timer) (i : ℕ) (t : TimerCallback) (ts : List Timer) (ran : List ℕ)
    → KeepsFlag g
    → on_thread i (λ x. g x.phase x) t.threads ≡ some ts
    → (All (λ x. x.enable ≡ false) t.threads → length ran + late ts ≡ length t.ran + late t.threads)
    → Changed t (record t { threads = ts; ran = ran })
on_thread-Changed g i t ts ran k e r = record {
  last = refl;
  count = λ c. c ∙ sym (length-on_thread (λ x. g x.phase x) i t.threads ts e);
  flags = λ Q a. on_thread-AllFlags Q g k i t.threads ts e a;
  silent = r;
}

-- A step that calls no task.
quiet-Changed :
    (g : Phase → Timer → Option Timer) (i : ℕ) (t v : TimerCallback)
    → KeepsFlag g
    → Lessens 0 g
    → (on_thread i (λ x. g x.phase x) t.threads >>= λ ts. some (record t { threads = ts })) ≡ some v
    → Changed t v
quiet-Changed g i t v k l e =
    let (ts, f, h) =
      from-bind (on_thread i (λ x. g x.phase x) t.threads) (λ ts. some (record t { threads = ts }))
        v e in
    subst (Changed t) (from_some h) (
      on_thread-Changed g i t ts t.ran k f
        (λ a. omega (arith, on_thread-late 0 g l i t.threads ts f a)))

pub thread_step-Changed :
    (s : ThreadStep) (t v : TimerCallback) → thread_step s t ≡ some v → Changed t v
unfolding thread_step late
thread_step-Changed (wakes_up i) t v e =
    quiet-Changed wake_in i t v (record { flag = wake_in-flag; place = wake_in-place })
      (record { less = wake_in-late }) e
thread_step-Changed (calls_task i) t v e =
    let ran = called_task (get_elem? t.threads i) ++ t.ran in
    let (ts, f, h) =
      from-bind (on_thread i (λ x. call_in x.phase x) t.threads)
        (λ ts. some (record t { threads = ts; ran = ran })) v e in
    subst (Changed t) (from_some h) (
      on_thread-Changed call_in i t ts ran (record { flag = call_in-flag; place = call_in-place }) f
        (λ a. omega (
          arith,
          length-append (called_task (get_elem? t.threads i)) t.ran,
          called_task-one (λ x. call_in x.phase x) i t.threads ts f,
          on_thread-late 1 call_in (record { less = call_in-late }) i t.threads ts f a,
        )))
thread_step-Changed (returns i) t v e =
    quiet-Changed return_in i t v (record { flag = return_in-flag; place = return_in-place })
      (record { less = return_in-late }) e
thread_step-Changed (deletes i) t v e =
    quiet-Changed delete_in i t v (record { flag = delete_in-flag; place = delete_in-place })
      (record { less = delete_in-late }) e
thread_step-Changed (ends i) t v e =
    let (ts, f, h) =
      from-bind (without_thread i t.threads)
        (λ ts. some (record t { threads = ts; n_thread = t.n_thread - 1 })) v e in
    subst (Changed t) (from_some h) (record {
      last = refl;
      count = λ c. omega (arith, c, length-without_thread i t.threads ts f);
      flags = λ Q a. without_thread-AllFlags Q i t.threads ts f a;
      silent = λ a. ap (λ n. length t.ran + n) (without_thread-late i t.threads ts f);
    })
