-- ===== src/Timeout/Micro.antt =====
-- `CTimeout`. `uSec*1000` is a product of 32-bit numbers.
use network_structure.Prelude.{ℕ, ◌*◌, ◌/◌, ◌%◌, ◌^◌, ◌≤◌, ◌<◌, ◌+◌, ◌≡◌, true, leb, arith}
use network_structure.Timeout.{CTimeout, has_expired, rest}
use network_structure.Timeout.Elapsed.{sub64-after}

abbrev pub set_expiration : ℕ → ℕ → CTimeout
set_expiration now usec = record { start_ns = now; duration_ns = (usec * 1000) % 2 ^ 32 }

abbrev pub ms : ℕ → ℕ → CTimeout
ms now msec = set_expiration now ((msec * 1000) % 2 ^ 32)

abbrev pub us : ℕ → ℕ → CTimeout
us now usec = set_expiration now usec

abbrev pub get_expiration : CTimeout → ℕ
get_expiration t = (t.duration_ns / 1000) % 2 ^ 32

abbrev pub get_rest_time : ℕ → CTimeout → ℕ
get_rest_time now t = rest 1000 now t

-- A timeout of `us` expires when its product with 1000, cut to 32 bits, has gone by, also where the
-- clock wraps. So it is exact up to 4294967 microseconds, where `GetExpiration` returns what was
-- set; a longer one expires early, within the first 4294967296 nanoseconds.
pub us-expires :
    (start e usec : ℕ)
    → start < 2 ^ 64
    → e < 2 ^ 64
    → (has_expired ((start + e) % 2 ^ 64) (us start usec) ≡ leb ((usec * 1000) % 2 ^ 32) e)
      × (usec ≤ 4294967
          → (has_expired ((start + e) % 2 ^ 64) (us start usec) ≡ leb (usec * 1000) e)
            × (get_expiration (us start usec) ≡ usec))
      × (4294967 < usec → 2 ^ 32 ≤ e → has_expired ((start + e) % 2 ^ 64) (us start usec) ≡ true)
us-expires start e usec s l = ground (arith, sub64-after start e s l)
