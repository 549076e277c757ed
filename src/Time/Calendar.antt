-- ===== src/Time/Calendar.antt =====
-- Dates in UTC, as `time.Date`, `Time.Year`, `Time.Month` and `Time.AddDate` compute them in
-- internal/keypool/budget.go. A month is counted from January of year 1, which is month 0.
pub mod Months
use keypooler.Base.{
  ℕ, zero, suc, ◌+◌, ◌-◌, ◌*◌, ◌/◌, ◌%◌, ◌≤◌, ◌<◌, ◌≡◌, refl, Bool, true, false, not, ◌||◌, arith,
  ltb, ◌==◌, if◌then◌else◌,
}
use keypooler.Base.Int.{ℤ, pos_part, neg_part}

abbrev pub day : ℕ
day = 86_400_000_000_000

unfoldable pub is_leap : ℕ → Bool
is_leap y = if not (y % 4 == 0) then false else if not (y % 100 == 0) then true else y % 400 == 0

unfoldable pub days_in : ℕ → ℕ → ℕ
unfolding is_leap
days_in y m =
    if (m == 4) || (m == 6) || (m == 9) || (m == 11)
    then 30
    else if not (m == 2)
    then 31
    else if is_leap y
    then 29
    else 28

unfoldable pub month_length : ℕ → ℕ
month_length n = days_in (n / 12 + 1) (n % 12 + 1)

-- The days before the first of month `n`.
unfoldable pub month_start : ℕ → ℕ
month_start zero = 0
month_start (suc n) = month_start n + month_length n

-- The month of a day, counted on from month `n` with `d` days left; a month has 28 days or more.
unfoldable pub month_from : ℕ → ℕ → ℕ → ℕ
month_from zero n d = n
month_from (suc fuel) n d = elim (ltb d (month_length n)) [
  | true ↦ n
  | false ↦ month_from fuel (suc n) (d - month_length n)
]

-- `t.Year()` and `t.Month()`, together.
unfoldable pub month_of : ℕ → ℕ
month_of t = month_from (suc (t / day)) 0 (t / day)

-- `time.Date(year, month, d, 0, 0, 0, 0, time.UTC)`: a day outside the month runs over into others.
-- Instants before the zero Time are cut off there.
unfoldable pub date : ℕ → ℤ → ℕ
date n d = (month_start n + pos_part d - (1 + neg_part d)) * day

-- `t.Day()`, from 1.
unfoldable pub day_of : ℕ → ℕ
day_of t = t / day - month_start (month_of t) + 1

-- `t.AddDate(0, 1, 0)` and `t.AddDate(0, -1, 0)`: the same day and time of the next month, and of
-- the month before.
unfoldable pub next_month : ℕ → ℕ
next_month t = (month_start (month_of t + 1) + day_of t - 1) * day + t % day

unfoldable pub previous_month : ℕ → ℕ
previous_month t = (month_start (month_of t - 1) + day_of t - 1) * day + t % day
