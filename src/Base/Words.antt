-- ===== src/Base/Words.antt =====
-- Machine integers as native numbers. An atomic counter wraps at 2^64 (`fetch_add`), as does `+=` in
-- a release build; a saturating sum stops at the largest value. A `Duration` is a number of
-- nanoseconds; its saturating difference is the truncated one.
use Prim.Native.Nat.{ℕ, ◌+◌, ◌-◌, ◌*◌, ◌/◌, ◌%◌, min}

abbrev pub u16_max : ℕ
u16_max = 65535

abbrev pub u32_max : ℕ
u32_max = 4294967295

abbrev pub u64_max : ℕ
u64_max = 18446744073709551615

abbrev pub wrap64 : ℕ → ℕ
wrap64 n = n % 18446744073709551616

abbrev pub sat_add32 : ℕ → ℕ → ℕ
sat_add32 a b = min (a + b) u32_max

abbrev pub sat_add64 : ℕ → ℕ → ℕ
sat_add64 a b = min (a + b) u64_max

abbrev pub sat_mul32 : ℕ → ℕ → ℕ
sat_mul32 a b = min (a * b) u32_max

abbrev pub sat_mul64 : ℕ → ℕ → ℕ
sat_mul64 a b = min (a * b) u64_max

abbrev pub nanos_per_milli : ℕ
nanos_per_milli = 1000000

-- `Duration::MAX`, 2^64 seconds less one nanosecond.
abbrev pub duration_max : ℕ
duration_max = 18446744073709551616 * 1000000000 - 1

abbrev pub duration_add : ℕ → ℕ → ℕ
duration_add a b = min (a + b) duration_max

abbrev pub as_millis : ℕ → ℕ
as_millis d = d / nanos_per_milli
