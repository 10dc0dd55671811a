-- ===== src/Realtime.antt =====
-- OSAL/src/realtime.cpp: the scheduling class and the name of a thread. `Scheduler` is what it asks
-- of the operating system: sched_setscheduler(2), getrlimit(2), setrlimit(2) and the errors that
-- they return, on a state `K` of the kernel. What is only logged is left out.
pub mod Retry
mod Tests
use network_structure.Prelude.{
  ℕ, zero, suc, ◌-◌, ◌%◌, ◌^◌, ◌<◌, ◌≡◌, not, ◌&&◌, Option, none, some, List, ltb, ◌==◌,
  if◌then◌else◌, length, take,
}
use network_structure.Prelude.Int.{ℤ, pos, negsuc, minus_one, eq_ℤ, ltb_ℤ}

-- `struct rlimit`
pub record Limit : Type 0 where
  pub rlim_cur : ℕ
  pub rlim_max : ℕ

-- RLIM_INFINITY, EPERM, SCHED_FIFO and SCHED_OTHER
abbrev pub rlim_infinity : ℕ
rlim_infinity = 2 ^ 64 - 1

abbrev pub eperm : ℕ
eperm = 1

abbrev pub sched_fifo : ℕ
sched_fifo = 1

abbrev pub sched_other : ℕ
sched_other = 0

-- The conversion of an `rlim_t` to `int`.
abbrev pub to_int : ℕ → ℤ
to_int n = if ltb (n % 2 ^ 32) (2 ^ 31) then pos (n % 2 ^ 32) else negsuc (2 ^ 32 - n % 2 ^ 32 - 1)

-- A call that fails gives its errno, which is never 0. `set_scheduler` and `set_limit` also give
-- the state after the call. A limit that has been set is read back, and a sched_setscheduler that
-- fails leaves the limits alone.
pub record Scheduler (K : Type 0) : Type 0 where
  pub priority_max : ℕ → ℤ
  pub priority_max_errno : ℕ
  pub set_scheduler : ℕ → ℕ → K → K × Option ℕ
  pub get_limit : K → Limit × Option ℕ
  pub set_limit : Limit → K → K × Option ℕ
  pub limit_set :
      (l : Limit) (k : K)
      → (set_limit l k).1 ≡ none
      → (get_limit (set_limit l k).0).1 ≡ none
      → (get_limit (set_limit l k).0).0 ≡ l
  pub limit_kept :
      (policy prio errno : ℕ) (k : K)
      → (set_scheduler policy prio k).1 ≡ some errno
      → get_limit (set_scheduler policy prio k).0 ≡ get_limit k
  pub priority_max_failed : 0 < priority_max_errno
  pub get_failed : (k : K) (errno : ℕ) → (get_limit k).1 ≡ some errno → 0 < errno
  pub set_failed : (l : Limit) (k : K) (errno : ℕ) → (set_limit l k).1 ≡ some errno → 0 < errno

module _ {K : Type 0} (os : Scheduler K) where
  -- `soft_max` and `hard_max`
  abbrev pub max_of : ℕ → ℕ → ℤ
  max_of policy n = if n == rlim_infinity then os.priority_max policy else to_int n

  abbrev pub result_of : Option ℕ → ℤ
  result_of none = pos 0
  result_of (some errno) = pos errno

  -- What `raise_soft_prio` does with the limit that it has read.
  unfoldable pub raise_limit : ℕ → ℕ → Limit → K → K × ℤ
  raise_limit policy prio l k =
      if ltb_ℤ (max_of policy l.rlim_cur) (pos prio)
        && not (ltb_ℤ (max_of policy l.rlim_max) (pos prio))
      then (
        (os.set_limit (record l { rlim_cur = prio }) k).0,
        result_of (os.set_limit (record l { rlim_cur = prio }) k).1,
      )
      else (k, minus_one)

  unfoldable pub raise_soft_prio : ℕ → ℕ → K → K × ℤ
  unfolding raise_limit
  raise_soft_prio policy prio k =
      if eq_ℤ (os.priority_max policy) minus_one
      then (k, pos os.priority_max_errno)
      else elim (os.get_limit k).1 [
        | some errno ↦ (k, pos errno)
        | none ↦ raise_limit policy prio (os.get_limit k).0 k
      ]

  -- The `goto try_again`, for at most so many tries; `none` where they do not suffice.
  unfoldable pub setscheduler : ℕ → ℕ → ℕ → K → Option (K × ℕ)
  unfolding raise_soft_prio
  setscheduler zero policy prio k = none
  setscheduler (suc tries) policy prio k = elim (os.set_scheduler policy prio k).1 [
    | none ↦ some ((os.set_scheduler policy prio k).0, 0)
    | some errno ↦
        let k1 = (os.set_scheduler policy prio k).0 in
        let k2 = (raise_soft_prio policy prio k1).0 in
        let again = setscheduler tries policy prio k2 in
        if errno == eperm
        then (if eq_ℤ (raise_soft_prio policy prio k1).1 (pos 0) then again else some (k2, errno))
        else some (k1, errno)
  ]

  unfoldable pub set_sched_fifo : ℕ → ℕ → K → Option (K × ℕ)
  unfolding setscheduler
  set_sched_fifo tries prio k = setscheduler tries sched_fifo prio k

  unfoldable pub set_sched_other : ℕ → K → K × Option ℕ
  set_sched_other prio k = os.set_scheduler sched_other prio k

-- `set_thread_name`: the name that pthread_setname_np(3) is given.
unfoldable pub thread_name : List ℕ → List ℕ
thread_name name = if ltb (length name) 16 then name else take 15 name
