-- ===== src/Time.antt =====
-- `std::time` as the code uses it: a `Duration` and an `Instant` are counts of nanoseconds, an
-- `Instant` since the clock's origin. Bounds are those of 64-bit Linux.
use libmutex.Prelude.{ℕ, ◌+◌, ◌-◌, ◌*◌, ◌^◌, Bool, Option, none, some, leb, ◌==◌, if◌then◌else◌}

abbrev pub nanos_per_sec : ℕ
nanos_per_sec = 1_000_000_000

-- `Duration::MAX`: `u64::MAX` seconds and 999,999,999 nanoseconds.
abbrev pub duration_max : ℕ
duration_max = 2 ^ 64 * nanos_per_sec - 1

-- The last `Instant`: `i64::MAX` seconds and 999,999,999 nanoseconds.
abbrev pub instant_max : ℕ
instant_max = 2 ^ 63 * nanos_per_sec - 1

-- `Duration::is_zero`
abbrev pub is_zero : ℕ → Bool
is_zero d = d == 0

-- `Instant::checked_add`
abbrev pub instant-checked_add : ℕ → ℕ → Option ℕ
instant-checked_add i d = if leb (i + d) instant_max then some (i + d) else none
