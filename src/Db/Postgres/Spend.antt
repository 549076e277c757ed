-- ===== src/Db/Postgres/Spend.antt =====
-- internal/db/postgres_budget.go without DeleteTier: the budget columns of `keys`, and the spend events. A period starts
-- at midnight, which its column keeps whole; the creation time of an event is read by nothing.
pub mod Idempotence
pub mod Totals
pub mod Change
use keypooler.Base.{
  ℕ, String, Bool, true, false, ◌||◌, Option, none, some, List, [], ◌∷◌, str_eq, ◌==◌,
  if◌then◌else◌,
}
use keypooler.Base.Int.{ℤ}
use keypooler.Float64.{Float64, zero_f}
use keypooler.Db.{Budget, SpendEvent, SpendResult, recorded, key_not_found, failed}

pub record SpendRow : Type 0 where
  pub budget_amount : Option Float64
  pub budget_unit : Option String
  pub budget_reset_day : Option ℤ
  pub spent : Float64
  pub spent_period_start : Option ℕ

-- The newest event comes first.
pub record Tables : Type 0 where
  pub keys : String → Option SpendRow
  pub spend_events : List SpendEvent

unfoldable pub budget_columns : Option Budget → Option Float64 × Option String × Option ℤ
budget_columns none = (none, none, none)
budget_columns (some b) = (some b.amount, some b.unit, b.reset_day)

unfoldable pub budget_of : Option Float64 → Option String → Option ℤ → Option Budget
budget_of none unit reset_day = none
budget_of (some amount) none reset_day = none
budget_of (some amount) (some unit) reset_day =
    some (record { amount = amount; unit = unit; reset_day = reset_day })

-- `IS NOT DISTINCT FROM`
abbrev same_unit : Option String → Option String → Bool
same_unit none none = true
same_unit none (some v) = false
same_unit (some u) none = false
same_unit (some u) (some v) = str_eq u v

abbrev put_row : (String → Option SpendRow) → String → SpendRow → String → Option SpendRow
put_row keys id r j = if str_eq id j then some r else keys j

pub data UpdateResult : Type 0 where
  updated no_row update_failed : UpdateResult

-- `SET budget_… = $2…$4`, with the spend kept only if the unit stays.
abbrev pub rebudget : Option Float64 × Option String × Option ℤ → SpendRow → SpendRow
rebudget (amount, unit, reset_day) r = record {
  budget_amount = amount;
  budget_unit = unit;
  budget_reset_day = reset_day;
  spent = if same_unit r.budget_unit unit then r.spent else zero_f;
  spent_period_start = if same_unit r.budget_unit unit then r.spent_period_start else none;
}

-- How a transaction or a statement ends: it works; the connection or a statement fails, and nothing stays; or it is committed
-- and only the answer is lost.
pub data Ending : Type 0 where
  works refuses loses_reply : Ending

-- The row is changed, or there is none.
abbrev pub rebudget_row : Tables → String → Option Budget → Option SpendRow → Tables × UpdateResult
rebudget_row t id b none = (t, no_row)
rebudget_row t id b (some r) =
    (record t { keys = put_row t.keys id (rebudget (budget_columns b) r) }, updated)

-- What stays of a statement on the tables `t`, and its answer.
abbrev pub end_update : Ending → Tables → Tables × UpdateResult → Tables × UpdateResult
end_update works t done = done
end_update refuses t done = (t, update_failed)
end_update loses_reply t (t', result) = (t', update_failed)

unfoldable pub update_key_budget : Ending → Tables → String → Option Budget → Tables × UpdateResult
update_key_budget ending t id b = end_update ending t (rebudget_row t id b (t.keys id))

unfoldable pub has_request : String → List SpendEvent → Bool
has_request request [] = false
has_request request (e ∷ es) = str_eq e.request_id request || has_request request es

-- The primary key.
unfoldable pub has_id : String → List SpendEvent → Bool
has_id id [] = false
has_id id (e ∷ es) = str_eq e.id id || has_id id es

-- `spent_period_start = $2`, which NULL does not satisfy.
abbrev pub begins : Option ℕ → ℕ → Bool
begins none p = false
begins (some start) p = start == p

-- `CASE WHEN spent_period_start = $2 THEN spent ELSE 0 END`
abbrev pub spent_in_row : ℕ → SpendRow → Float64
spent_in_row p r = if begins r.spent_period_start p then r.spent else zero_f

-- `add` is float64 addition.
module _ (add : Float64 → Float64 → Float64) where
  abbrev count_spend : ℕ → Float64 → SpendRow → SpendRow
  count_spend p amount r = record r {
    spent = if begins r.spent_period_start p then add r.spent amount else amount;
    spent_period_start = some p;
  }

  -- The read or the update of the key's row: `duplicate` tells which.
  abbrev count_in : Tables → SpendEvent → ℕ → Bool → Option SpendRow → Tables × SpendResult
  count_in t e p duplicate none = (t, key_not_found)
  count_in t e p true (some r) = (t, recorded (spent_in_row p r) true)
  count_in t e p false (some r) = (
    record t { keys = put_row t.keys e.key_id (count_spend p e.amount r) },
    recorded (count_spend p e.amount r).spent false,
  )

  -- The switch of `RecordSpend`.
  abbrev count_event : Tables → SpendEvent → Bool → Option ℕ → Tables × SpendResult
  count_event t e duplicate none = (t, recorded zero_f duplicate)
  count_event t e duplicate (some p) = count_in t e p duplicate (t.keys e.key_id)

  -- The insert, which does nothing on a request that is there and fails on an id that is.
  abbrev insert_event : Tables → SpendEvent → Bool → Bool → Option ℕ → Tables × SpendResult
  insert_event t e true taken period = count_event t e true period
  insert_event t e false true period = (t, failed)
  insert_event t e false false period =
      count_event (record t { spend_events = e ∷ t.spend_events }) e false period

  -- The commit, or the rollback to the tables `t`.
  abbrev finish : Ending → Tables → Tables × SpendResult → Tables × SpendResult
  finish refuses t done = (t, failed)
  finish works t (t', recorded spent duplicate) = (t', recorded spent duplicate)
  finish works t (t', key_not_found) = (t, key_not_found)
  finish works t (t', failed) = (t, failed)
  finish loses_reply t (t', recorded spent duplicate) = (t', failed)
  finish loses_reply t (t', key_not_found) = (t, key_not_found)
  finish loses_reply t (t', failed) = (t, failed)

  unfoldable pub record_spend : Ending → Tables → SpendEvent → Option ℕ → Tables × SpendResult
  record_spend ending t e period = finish ending t (
      insert_event t e (has_request e.request_id t.spend_events) (has_id e.id t.spend_events)
        period)
