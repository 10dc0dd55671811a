-- ===== src/Timeout/Callback.antt =====
-- `TimerCallback` of OSAL/include/timeout.h. `Start` and `Stop` are called by one thread and are
-- one step each; the steps of the threads that `Start` makes lie in any order between them. The load
-- of a flag `enable` and the call of the task are two steps. A flag is kept with the thread that
-- deletes it.
pub mod Threads
pub mod Stopped
mod Tests
-- Where a thread is: in its sleep, before `task()`, in it, before `delete enable` and before
-- `(*thread)--`.
use network_structure.Prelude.{
  ℕ, zero, suc, ◌+◌, ◌-◌, Bool, true, false, ◌&&◌, ◌||◌, Option, none, some, List, [], ◌∷◌, ◌++◌,
  map, ltb, ◌==◌, if◌then◌else◌, ◌>>=◌, get_elem?,
}

pub data Phase : Type 0 where
  sleeping : Phase
  before_task : Phase
  in_task : Phase
  before_delete : Phase
  before_decrement : Phase

pub record Timer : Type 0 where
  pub address : ℕ
  pub enable : Bool
  pub phase : Phase

-- `ran` holds the flags of the threads that have called their task, the last first.
pub record TimerCallback : Type 0 where
  pub last_enable : Option ℕ
  pub n_thread : ℕ
  pub threads : List Timer
  pub ran : List ℕ

unfoldable pub new_timer_callback : TimerCallback
new_timer_callback = record { last_enable = none; n_thread = 0; threads = []; ran = [] }

-- The flag has not been deleted.
abbrev pub is_live : Phase → Bool
is_live before_decrement = false
is_live _ = true

unfoldable pub holds : ℕ → List Timer → Bool
holds p [] = false
holds p (x ∷ xs) = (x.address == p && is_live x.phase) || holds p xs

abbrev pub clear_flag : ℕ → Timer → Timer
clear_flag p x = if x.address == p then record x { enable = false } else x

-- A write to the flag; `none` where it has been deleted.
unfoldable pub disable : ℕ → List Timer → Option (List Timer)
unfolding holds
disable p ts = if holds p ts then some (map (clear_flag p) ts) else none

unfoldable pub stop_last : Option ℕ → TimerCallback → Option TimerCallback
unfolding disable
stop_last none t = some t
stop_last (some p) t =
    if ltb 0 t.n_thread
    then (disable p t.threads >>= λ ts. some (record t { threads = ts }))
    else some t

unfoldable pub stop_timer : TimerCallback → Option TimerCallback
unfolding stop_last
stop_timer t = stop_last t.last_enable t

-- The new flag and its thread.
abbrev pub with_timer : ℕ → TimerCallback → TimerCallback
with_timer p t = record t {
  last_enable = some p;
  n_thread = t.n_thread + 1;
  threads = t.threads ++ record { address = p; enable = true; phase = sleeping } ∷ [];
}

-- `p` is what `new` returns, which is no flag that is still there.
unfoldable pub start_timer : ℕ → TimerCallback → Option TimerCallback
unfolding stop_timer holds
start_timer p t = stop_timer t >>= λ u. if holds p u.threads then none else some (with_timer p u)

-- The steps of a thread; `none` where it is elsewhere, and for a thread that is not there.
abbrev pub wake_in : Phase → Timer → Option Timer
wake_in sleeping x = some (record x { phase = if x.enable then before_task else before_delete })
wake_in _ x = none

abbrev pub call_in : Phase → Timer → Option Timer
call_in before_task x = some (record x { phase = in_task })
call_in _ x = none

abbrev pub return_in : Phase → Timer → Option Timer
return_in in_task x = some (record x { phase = before_delete })
return_in _ x = none

abbrev pub delete_in : Phase → Timer → Option Timer
delete_in before_delete x = some (record x { phase = before_decrement })
delete_in _ x = none

abbrev pub end_in : Phase → List Timer → Option (List Timer)
end_in before_decrement xs = some xs
end_in _ xs = none

unfoldable pub on_thread : ℕ → (Timer → Option Timer) → List Timer → Option (List Timer)
on_thread i f [] = none
on_thread zero f (x ∷ xs) = f x >>= λ y. some (y ∷ xs)
on_thread (suc i) f (x ∷ xs) = on_thread i f xs >>= λ ys. some (x ∷ ys)

-- A thread ends.
unfoldable pub without_thread : ℕ → List Timer → Option (List Timer)
without_thread i [] = none
without_thread zero (x ∷ xs) = end_in x.phase xs
without_thread (suc i) (x ∷ xs) = without_thread i xs >>= λ ys. some (x ∷ ys)

-- The task that the thread calls.
unfoldable pub called_task : Option Timer → List ℕ
called_task none = []
called_task (some x) = x.address ∷ []

pub data ThreadStep : Type 0 where
  wakes_up : ℕ → ThreadStep
  calls_task : ℕ → ThreadStep
  returns : ℕ → ThreadStep
  deletes : ℕ → ThreadStep
  ends : ℕ → ThreadStep

unfoldable pub thread_step : ThreadStep → TimerCallback → Option TimerCallback
unfolding on_thread without_thread called_task
thread_step (wakes_up i) t = do
  ts ← on_thread i (λ x. wake_in x.phase x) t.threads
  some (record t { threads = ts })
thread_step (calls_task i) t = do
  ts ← on_thread i (λ x. call_in x.phase x) t.threads
  some (record t { threads = ts; ran = called_task (get_elem? t.threads i) ++ t.ran })
thread_step (returns i) t = do
  ts ← on_thread i (λ x. return_in x.phase x) t.threads
  some (record t { threads = ts })
thread_step (deletes i) t = do
  ts ← on_thread i (λ x. delete_in x.phase x) t.threads
  some (record t { threads = ts })
thread_step (ends i) t = do
  ts ← without_thread i t.threads
  some (record t { threads = ts; n_thread = t.n_thread - 1 })

pub data TimerAction : Type 0 where
  starts_at : ℕ → TimerAction
  stops : TimerAction
  steps : ThreadStep → TimerAction

unfoldable pub act : TimerAction → TimerCallback → Option TimerCallback
unfolding start_timer stop_timer thread_step
act (starts_at p) t = start_timer p t
act stops t = stop_timer t
act (steps s) t = thread_step s t

unfoldable pub acts : List TimerAction → TimerCallback → Option TimerCallback
unfolding act
acts [] t = some t
acts (a ∷ more) t = act a t >>= acts more

unfoldable pub thread_steps : List ThreadStep → TimerCallback → Option TimerCallback
unfolding thread_step
thread_steps [] t = some t
thread_steps (s ∷ ss) t = thread_step s t >>= thread_steps ss
