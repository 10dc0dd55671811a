-- ===== src/Timeout/Milli.antt =====
-- `CTimeoutmS`. `(uint64_t)mSec*1000000` is a product of 64-bit numbers.
use network_structure.Prelude.{ℕ, ◌*◌, ◌/◌, ◌%◌, ◌^◌, ◌<◌, ◌+◌, ◌-◌, ◌≡◌, leb, arith}
use network_structure.Timeout.{CTimeout, has_expired, rest, sub64}
use network_structure.Timeout.Elapsed.{sub64-after}

abbrev pub set_expiration : ℕ → ℕ → CTimeout
set_expiration now msec = record { start_ns = now; duration_ns = (msec * 1000000) % 2 ^ 64 }

abbrev pub get_expiration : CTimeout → ℕ
get_expiration t = (t.duration_ns / 1000000) % 2 ^ 32

abbrev pub get_rest_time : ℕ → CTimeout → ℕ
get_rest_time now t = rest 1000000 now t

-- It is cut to 32 bits of nanoseconds.
abbrev pub get_elapsed : ℕ → CTimeout → ℕ
get_elapsed now t = sub64 now t.start_ns % 2 ^ 32

-- A timeout of any 32-bit number of milliseconds expires exactly when they have gone by, also
-- where the clock wraps; `GetExpiration` returns what was set.
pub milli-expires :
    (start e msec : ℕ)
    → start < 2 ^ 64
    → e < 2 ^ 64
    → msec < 2 ^ 32
    → (has_expired ((start + e) % 2 ^ 64) (set_expiration start msec) ≡ leb (msec * 1000000) e)
      × (get_expiration (set_expiration start msec) ≡ msec)
milli-expires start e msec s l m = ground (arith, sub64-after start e s l)

-- While less than 2^62 nanoseconds have gone by, `GetRestTime` returns the milliseconds, rounded
-- down, that are left of a timeout of any 32-bit number of milliseconds: 0 once it has expired.
pub milli-rest :
    (start e msec : ℕ)
    → start < 2 ^ 64
    → e < 2 ^ 62
    → msec < 2 ^ 32
    → get_rest_time ((start + e) % 2 ^ 64) (set_expiration start msec)
      ≡ (msec * 1000000 - e) / 1000000
milli-rest start e msec s l m = ground arith
