-- ===== src/Timeout/Callback/Tests.antt =====
-- Two timers of `TimerCallback` in OSAL/include/timeout.h, the second of which ends first.
use network_structure.Prelude.{◌+◌, length, ◌≡◌, refl, none, some, List, [], ◌∷◌}
use network_structure.Timeout.Callback.{
  wakes_up, calls_task, ends, deletes, returns, steps, stop_timer, stops, new_timer_callback,
  starts_at, thread_steps, TimerAction, TimerCallback, acts,
}
use network_structure.Timeout.Callback.Threads.{late}
use network_structure.Timeout.Callback.Stopped.{acts-Armed, Armed, stop_timer-silent}

-- The second has found its flag set.
abbrev two_timers : List TimerAction
two_timers = starts_at 7 ∷ starts_at 8 ∷ steps (wakes_up 1) ∷ []

-- The second timer has run; the first still sleeps.
abbrev second_ends : List TimerAction
second_ends =
    starts_at 7
    ∷ starts_at 8
    ∷ steps (wakes_up 1)
    ∷ steps (calls_task 1)
    ∷ steps (returns 1)
    ∷ steps (deletes 1)
    ∷ steps (ends 1)
    ∷ []

abbrev timers_after : List TimerAction → TimerCallback
timers_after bs = elim (acts bs new_timer_callback) [ none ↦ new_timer_callback | some t ↦ t ]

second_ran : acts second_ends new_timer_callback ≡ some (timers_after second_ends)
unfolding acts new_timer_callback
second_ran = refl

-- `Stop` then writes to the flag that has been deleted.
deleted_flag_written : stop_timer (timers_after second_ends) ≡ none
unfolding acts new_timer_callback stop_timer
deleted_flag_written = refl

abbrev stopped_timers : TimerCallback
stopped_timers = timers_after (starts_at 7 ∷ starts_at 8 ∷ steps (wakes_up 1) ∷ stops ∷ [])

abbrev woken_timers : TimerCallback
woken_timers = elim (thread_steps (calls_task 1 ∷ wakes_up 0 ∷ []) stopped_timers) [
  | none ↦ stopped_timers
  | some t ↦ t
]

two_started : acts two_timers new_timer_callback ≡ some (timers_after two_timers)
unfolding acts new_timer_callback
two_started = refl

two_stopped : stop_timer (timers_after two_timers) ≡ some stopped_timers
unfolding acts new_timer_callback stop_timer
two_stopped = refl

two_woken : thread_steps (calls_task 1 ∷ wakes_up 0 ∷ []) stopped_timers ≡ some woken_timers
unfolding acts new_timer_callback thread_steps
two_woken = refl

acts-Armed_example : Armed (timers_after second_ends)
acts-Armed_example = acts-Armed second_ends (timers_after second_ends) second_ran

-- The task is called after `Stop`.
called_late : woken_timers.ran ≡ 8 ∷ []
unfolding acts new_timer_callback thread_steps
called_late = refl

stop_timer-silent_example :
    length woken_timers.ran + late woken_timers.threads
    ≡ length (timers_after two_timers).ran + late (timers_after two_timers).threads
stop_timer-silent_example =
    stop_timer-silent two_timers (timers_after two_timers) stopped_timers woken_timers
      (calls_task 1 ∷ wakes_up 0 ∷ []) two_started two_stopped two_woken
