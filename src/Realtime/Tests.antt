-- ===== src/Realtime/Tests.antt =====
-- `set_sched_fifo` of OSAL/src/realtime.cpp under a hard limit that allows the priority and one
-- that does not.
use network_structure.Prelude.{ℕ, suc, ◌≡◌, refl, none, some, arith, ltb, if◌then◌else◌}
use network_structure.Prelude.Int.{pos}
use network_structure.Realtime.{Limit, Scheduler, eperm, sched_fifo, set_sched_fifo, setscheduler}
use network_structure.Realtime.Retry.{setscheduler_ends}

abbrev kernel : Scheduler Limit
kernel = record {
  priority_max = λ policy. pos 99;
  priority_max_errno = 22;
  set_scheduler = λ policy prio k. (k, if ltb k.rlim_cur prio then some eperm else none);
  get_limit = λ k. (k, none);
  set_limit = λ l k. (l, none);
  limit_set = λ l k h i. refl;
  limit_kept = λ policy prio errno k h. refl;
  priority_max_failed = omega arith;
  get_failed = λ k errno h. ground (arith, h);
  set_failed = λ l k errno h. ground (arith, h);
}

limit_raised :
    set_sched_fifo kernel 2 85 (record { rlim_cur = 0; rlim_max = 90 })
    ≡ some (record { rlim_cur = 85; rlim_max = 90 }, 0)
unfolding set_sched_fifo
limit_raised = refl

limit_refused :
    set_sched_fifo kernel 1 85 (record { rlim_cur = 0; rlim_max = 10 })
    ≡ some (record { rlim_cur = 0; rlim_max = 10 }, eperm)
unfolding set_sched_fifo
limit_refused = refl

setscheduler_ends_example :
    (r : Limit × ℕ) × ((tries : ℕ)
      → setscheduler kernel (suc (suc tries)) sched_fifo 85 (record { rlim_cur = 0; rlim_max = 90 })
        ≡ some r)
setscheduler_ends_example =
    setscheduler_ends kernel sched_fifo 85 (omega arith) (record { rlim_cur = 0; rlim_max = 90 })
