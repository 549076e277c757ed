-- ===== src/Api/Budgets.antt =====
-- internal/api/budget.go.
use keypooler.Base.{ℕ, String, Option, none, some, is_some}
use keypooler.Base.Int.{ℤ}
use keypooler.Float64.{Float64}
use keypooler.Db.{Budget, SpendEvent}
use keypooler.Db.Adapter.{WriteError, key_missing}
use keypooler.Keypool.Budget.{validate_budget, validate_spend, remaining}
use keypooler.Keypool.Manager.{PoolError, good, bad, unknown_key, unit_mismatch}
use keypooler.Keypool.Upkeep.{Spend, record_spend}
use keypooler.Api.Auth.{accepted, rejected, internal_error, KeyCaller}
use keypooler.Api.Server.{
  Setup, Request, Handler, Response, pure, reject, ◌>>=◌, ◌>>◌, reject_if, need, answer, write,
  resolve_caller, reload, budget_view_of, format_or_nil, budget_set, spend_recorded, bad_request,
  not_found, conflict,
}
use keypooler.Api.Draws.{key_in_scope, spend_store}

pub record BudgetBody : Type 0 where
  pub amount : Float64
  pub unit : String
  pub reset_day : Option ℤ

-- What decoding the body of `SetKeyBudget` gives: no JSON object, one without the field "budget", a field that is no
-- budget, or a budget, where null clears it.
pub data BudgetRequest : Type 0 where
  undecodable no_field bad_field : BudgetRequest
  wants : Option BudgetBody → BudgetRequest

pub record SpendBody : Type 0 where
  pub amount : Float64
  pub unit : String
  pub request_id : String

abbrev pub budget_in : BudgetBody → Budget
budget_in b = record { amount = b.amount; unit = b.unit; reset_day = b.reset_day }

-- ErrKeyNotFound is answered with 404.
abbrev budget_status : WriteError → ℕ
budget_status key_missing = not_found
budget_status e = internal_error

abbrev spend_status : PoolError → ℕ
spend_status unknown_key = not_found
spend_status unit_mismatch = conflict
spend_status e = internal_error

module _ {S : Type 0} where
  -- `budgetBody.budget`, answered with 400 where the budget is not valid.
  unfoldable pub valid_budget : Option BudgetBody → Handler S (Option Budget)
  unfolding validate_budget
  valid_budget none = pure none
  valid_budget (some b) = elim (validate_budget (budget_in b)) [
    | none ↦ pure (some (budget_in b))
    | some e ↦ reject bad_request
  ]

  abbrev requested : BudgetRequest → Handler S (Option BudgetBody)
  requested undecodable = reject bad_request
  requested no_field = reject bad_request
  requested bad_field = reject bad_request
  requested (wants b) = pure b

  module _ (setup : Setup S) where
    unfoldable pub set_key_budget : String → BudgetRequest → Handler S Response
    set_key_budget id body = do
      wanted ← requested body
      budget ← valid_budget wanted
      write (λ db. setup.adapter.update_key_budget db id budget) budget_status
      reload setup
      answer 200 (budget_set id (budget_view_of budget))

    abbrev pub valid_spend : SpendBody → Handler S (Unit {0})
    valid_spend b = reject_if (is_some (validate_spend b.amount b.unit b.request_id)) bad_request

    abbrev pub spend_event : Request → KeyCaller → String → SpendBody → SpendEvent
    spend_event req caller id b = record {
      id = req.fresh_id;
      key_id = id;
      consumer_id = caller.consumer_id;
      amount = b.amount;
      unit = b.unit;
      request_id = b.request_id;
      created_at = req.now;
    }

    -- `RecordSpend` of the pool, on the event that the handler makes.
    unfoldable pub report : Request → KeyCaller → String → SpendBody → Handler S Spend
    report req caller id b sv =
        let (db', pool', a) =
          record_spend (spend_store setup) sv.db sv.pool (spend_event req caller id b) req.now in
        (
          record sv { db = db'; pool = pool' },
          elim a [ good spend ↦ accepted spend | bad e ↦ rejected (spend_status e) ],
        )

    abbrev pub report_for : Request → String → Option SpendBody → KeyCaller → Handler S Response
    report_for req id body caller = do
      b ← need bad_request body
      valid_spend b
      key_in_scope setup caller id
      spend ← report req caller id b
      answer 200 (
          spend_recorded (record {
            key_id = spend.key_id;
            spent = spend.spent;
            budget = budget_view_of spend.budget;
            remaining = remaining setup.subtract spend.budget spend.spent;
            resets_at = format_or_nil setup.format_time spend.resets_at;
            duplicate = spend.duplicate;
          }))

    unfoldable pub report_spend : Request → String → Option SpendBody → Handler S Response
    report_spend req id body = do caller ← resolve_caller setup req; report_for req id body caller
