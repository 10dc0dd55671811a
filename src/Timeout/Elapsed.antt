-- ===== src/Timeout/Elapsed.antt =====
-- Differences of a clock that wraps.
use network_structure.Prelude.{ℕ, ◌+◌, ◌%◌, ◌^◌, ◌<◌, ◌≡◌, arith}
use network_structure.Timeout.{sub64}

-- The clock `e` after `start`.
pub sub64-after :
    (start e : ℕ) → start < 2 ^ 64 → e < 2 ^ 64 → sub64 ((start + e) % 2 ^ 64) start ≡ e
sub64-after start e s l = omega arith
