-- ===== src/Time.antt =====
-- What internal/keypool uses of Go's package time. An instant is its number of nanoseconds from
-- the zero Time (1 January of year 1, UTC), a Duration an int64 of nanoseconds.
pub mod Calendar
use keypooler.Base.{ℕ, ◌+◌, ◌-◌, ◌*◌, min, Bool, ltb, leb, if◌then◌else◌}
use keypooler.Base.Int.{ℤ, pos, negsuc, pos_part, int64}

abbrev pub zero_time : ℕ
zero_time = 0

abbrev pub second : ℕ
second = 1_000_000_000

abbrev pub minute : ℤ
minute = pos 60_000_000_000

abbrev pub max_duration : ℕ
max_duration = 9_223_372_036_854_775_807

-- `t.Sub(u)`, which stops at the largest and the smallest Duration.
unfoldable pub since : ℕ → ℕ → ℤ
since t u =
    if leb u t then pos (min (t - u) max_duration) else negsuc (min (u - t - 1) max_duration)

-- `time.Duration(n) * time.Second` for a positive `n`, the only use of it.
unfoldable pub seconds : ℤ → ℤ
seconds n = int64 (pos_part n * second)

-- `t.Before(u)`
abbrev pub before : ℕ → ℕ → Bool
before t u = ltb t u
