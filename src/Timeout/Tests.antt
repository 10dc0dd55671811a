-- ===== src/Timeout/Tests.antt =====
-- The theorems of the timeouts at concrete data.
use network_structure.Prelude.{◌+◌, ◌%◌, ◌^◌, ◌≡◌, true, false, arith}
use network_structure.Timeout.{has_expired}
use network_structure.Timeout.Micro.{us, us-expires}
use network_structure.Timeout.Milli.{set_expiration, get_rest_time, milli-expires, milli-rest}

-- Two milliseconds across the wrap of the clock.
milli-expires_example :
    has_expired ((18446744073709000000 + 1500000) % 2 ^ 64) (set_expiration 18446744073709000000 2)
    ≡ false
milli-expires_example =
    (milli-expires 18446744073709000000 1500000 2 (ground arith) (ground arith) (ground arith)).0

-- Five seconds, after 0.7 seconds.
us-expires_example : has_expired ((1000 + 800000000) % 2 ^ 64) (us 1000 5000000) ≡ true
us-expires_example = (us-expires 1000 800000000 5000000 (ground arith) (ground arith)).0

milli-rest_example : get_rest_time ((1000 + 1500000) % 2 ^ 64) (set_expiration 1000 5) ≡ 3
milli-rest_example = milli-rest 1000 1500000 5 (ground arith) (ground arith) (ground arith)
