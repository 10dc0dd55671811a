-- ===== src/Timeout.antt =====
-- OSAL/include/timeout.h: `CTimeout`, in microseconds, and `CTimeoutmS`, in milliseconds. `now` is
-- what `GetTimeNs` returns, a 64-bit count of nanoseconds. A signed overflow is taken to wrap.
pub mod Elapsed
pub mod Micro
pub mod Milli
pub mod Callback
mod Tests
use network_structure.Prelude.{ℕ, ◌+◌, ◌-◌, ◌/◌, ◌%◌, ◌^◌, leb, Bool, not, if◌then◌else◌}

pub record CTimeout : Type 0 where
  pub start_ns : ℕ
  pub duration_ns : ℕ

-- `a - b` on `uint64_t`.
abbrev pub sub64 : ℕ → ℕ → ℕ
sub64 a b = (a + 2 ^ 64 - b) % 2 ^ 64

-- The default constructor of both classes, and `Reset`.
abbrev pub new : CTimeout
new = record { start_ns = 0; duration_ns = 0 }

abbrev pub reset : ℕ → CTimeout → CTimeout
reset now t = record t { start_ns = now }

-- `HasExpired` and `NotExpired`, of both classes.
abbrev pub has_expired : ℕ → CTimeout → Bool
has_expired now t = leb t.duration_ns (sub64 now t.start_ns)

abbrev pub not_expired : ℕ → CTimeout → Bool
not_expired now t = not (has_expired now t)

-- `(int64_t)start_ns + (int64_t)duration_ns - (int64_t)GetTimeNs()`, and 0 where it is negative, in
-- units of `unit` nanoseconds and cut to 32 bits.
abbrev pub rest : ℕ → ℕ → CTimeout → ℕ
rest unit now t =
    let temp = sub64 ((t.start_ns + t.duration_ns) % 2 ^ 64) now in
    if leb (2 ^ 63) temp then 0 else (temp / unit) % 2 ^ 32
