-- ===== src/Db/Postgres.antt =====
-- The SQL statements of internal/db/postgres_keys.go and internal/db/postgres_budget.go as functions
-- on rows. One statement is atomic in the database, and so is one transaction.
pub mod Spend
use keypooler.Base.{ℕ, ◌+◌, ◌*◌, ◌/◌, String, Option, none, some, str_eq, if◌then◌else◌}

-- What a TIMESTAMPTZ column keeps of an instant in nanoseconds: the microseconds, as the driver sends them.
unfoldable pub micros : ℕ → ℕ
micros t = (t / 1000) * 1000

abbrev pub to_micros : Option ℕ → Option ℕ
to_micros none = none
to_micros (some t) = some (micros t)

-- The usage columns of a row of `keys`.
pub record UsageRow : Type 0 where
  pub usage_count : ℕ
  pub usage_window_start : Option ℕ

abbrev pub UsageRows : Type 0
UsageRows = String → UsageRow

abbrev pub update {ℓ} : {A : Type ℓ} → (String → A) → String → (A → A) → String → A
update rows id f j = if str_eq id j then f (rows j) else rows j

-- `SET usage_count = usage_count + n`
abbrev pub add_count : ℕ → UsageRow → UsageRow
add_count n r = record r { usage_count = r.usage_count + n }

-- `SET usage_count = n, usage_window_start = start`
abbrev pub set_count : ℕ → ℕ → UsageRow → UsageRow
set_count n start r = record { usage_count = n; usage_window_start = some (micros start) }

unfoldable pub add_usage : UsageRows → String → ℕ → UsageRows
add_usage rows id n = update rows id (add_count n)

unfoldable pub reset_usage_window : UsageRows → String → ℕ → ℕ → UsageRows
reset_usage_window rows id start n = update rows id (set_count n start)
