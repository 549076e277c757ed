-- ===== src/Keypool/Budget.antt =====
-- internal/keypool/budget.go, without the methods of PoolKey.
pub mod Periods
use keypooler.Base.{
  ℕ, String, Bool, true, false, ◌||◌, not, Option, none, some, ltb, str_eq, if◌then◌else◌,
}
use keypooler.Base.Int.{ℤ, pos, ltb_ℤ}
use keypooler.Time.Calendar.{day, month_of, date, next_month, previous_month}
use keypooler.Float64.{Float64, zero_f, fle, fmax}
use keypooler.Db.{Budget}

abbrev pub unit_usd : String
unit_usd = "usd"

abbrev pub unit_credits : String
unit_credits = "credits"

abbrev pub first_reset_day : ℤ
first_reset_day = pos 1

abbrev pub last_reset_day : ℤ
last_reset_day = pos 28

-- `time.Unix(0, 0).UTC()`
abbrev pub lifetime : ℕ
lifetime = 62_135_596_800_000_000_000

-- What the errors say; `bad_budget` and `bad_spend` wrap the reason.
pub data AmountError : Type 0 where
  not_above_zero unknown_unit : AmountError

pub data BudgetError : Type 0 where
  bad_budget : AmountError → BudgetError
  bad_reset_day : BudgetError

pub data SpendError : Type 0 where
  bad_spend : AmountError → SpendError
  no_request_id : SpendError

unfoldable pub valid_amount : Float64 → String → Option AmountError
valid_amount amount unit =
    if fle amount zero_f
    then some not_above_zero
    else if not (str_eq unit unit_usd || str_eq unit unit_credits)
    then some unknown_unit
    else none

abbrev outside_reset_days : Option ℤ → Bool
outside_reset_days none = false
outside_reset_days (some d) = ltb_ℤ d first_reset_day || ltb_ℤ last_reset_day d

unfoldable pub validate_budget : Budget → Option BudgetError
unfolding valid_amount
validate_budget b = elim (valid_amount b.amount b.unit) [
  | some e ↦ some (bad_budget e)
  | none ↦ if outside_reset_days b.reset_day then some bad_reset_day else none
]

unfoldable pub validate_spend : Float64 → String → String → Option SpendError
unfolding valid_amount
validate_spend amount unit request_id = elim (valid_amount amount unit) [
  | some e ↦ some (bad_spend e)
  | none ↦ if str_eq request_id "" then some no_request_id else none
]

-- The start of the period of `now` for a budget that resets on day `d`.
unfoldable pub reset_before : ℤ → ℕ → ℕ
reset_before d now =
    let start = date (month_of now) d in if ltb now start then previous_month start else start

unfoldable pub period_start : Budget → ℕ → ℕ
period_start b now = elim b.reset_day [ none ↦ lifetime | some d ↦ reset_before d now ]

abbrev reset_after : Option ℤ → ℕ → Option ℕ
reset_after none start = none
reset_after (some d) start = some (next_month start)

unfoldable pub next_reset : Budget → ℕ → Option ℕ
next_reset b now = reset_after b.reset_day (period_start b now)

-- `Remaining`, over float64 subtraction.
unfoldable pub remaining : (Float64 → Float64 → Float64) → Option Budget → Float64 → Option Float64
remaining subtract none spent = none
remaining subtract (some b) spent = some (fmax (subtract b.amount spent) zero_f)
