-- ===== src/Examples/Spend.antt =====
-- Spend reports on a table with one key.
use keypooler.Base.{
  ℕ, ◌+◌, ◌≡◌, refl, subst, String, Bool, true, false, none, some, [], ◌∷◌, str_eq, if◌then◌else◌,
}
use keypooler.Base.Int.{pos}
use keypooler.Float64.{Float64, nan, num}
use keypooler.Db.{SpendEvent, SpendResult, recorded}
use keypooler.Db.Postgres.Spend.{
  SpendRow, Tables, begins, works, loses_reply, has_request, has_id, record_spend,
  update_key_budget,
}
use keypooler.Db.Postgres.Spend.Idempotence.{CountsOnce, record_spend-retry}
use keypooler.Db.Postgres.Spend.Totals.{Tallies, amounts, reports, reports-Tallies}
use keypooler.Db.Postgres.Spend.Change.{Changes, update_key_budget-Changes}
use keypooler.Examples.Data.{monthly}

-- An addition of ranks, for the parameter.
abbrev plus : Float64 → Float64 → Float64
plus (num (pos a)) (num (pos b)) = num (pos (a + b))
plus a b = nan

abbrev row : SpendRow
row = record {
  budget_amount = some (num (pos 200));
  budget_unit = some "usd";
  budget_reset_day = some (pos 1);
  spent = num (pos 9);
  spent_period_start = some 3;
}

abbrev tables : Tables
tables = record { keys = λ id. if str_eq id "k" then some row else none; spend_events = [] }

abbrev spend_of : String → ℕ → SpendEvent
spend_of request amount = record {
  id = request;
  key_id = "k";
  consumer_id = "x";
  amount = num (pos amount);
  unit = "usd";
  request_id = request;
  created_at = 0;
}

-- The same request, reported again under an id of its own and in the next period.
abbrev again : SpendEvent
again = record (spend_of "r" 2) { id = "r2"; created_at = 9 }

record_spend-retry_example :
    CountsOnce plus tables
      (spend_of "r" 2)
      (some 7)
      again
      (some 8)
      (record_spend plus loses_reply tables (spend_of "r" 2) (some 7)).0
      (record_spend plus works
        (record_spend plus loses_reply tables (spend_of "r" 2) (some 7)).0
        again
        (some 8)).0
record_spend-retry_example =
    record_spend-retry plus loses_reply tables (spend_of "r" 2) again (some 7) (some 8) refl

one_key :
    (id : String) (b : Bool) (r : SpendRow) → (if b then some row else none) ≡ some r → row ≡ r
one_key id true r e = cc
one_key id false r e = cc

tables-Tallies : Tallies plus 7 tables
unfolding amounts
tables-Tallies id r e =
    subst (λ (x : SpendRow). begins x.spent_period_start 7 ≡ false) (one_key id (str_eq id "k") r e)
      refl

reports-Tallies_example : Tallies plus 7 (
    reports plus 7 tables
      ((works, spend_of "r" 2) ∷ (loses_reply, spend_of "s" 3) ∷ (works, spend_of "s" 3) ∷ []))
reports-Tallies_example =
    reports-Tallies plus 7
      ((works, spend_of "r" 2) ∷ (loses_reply, spend_of "s" 3) ∷ (works, spend_of "s" 3) ∷ [])
      tables tables-Tallies

update_key_budget-Changes_example :
    Changes works tables "k" (some monthly) (update_key_budget works tables "k" (some monthly))
update_key_budget-Changes_example = update_key_budget-Changes works tables "k" (some monthly)

-- The request that was sent twice counts once, and a duplicate is told so.
abbrev answer : SpendResult
answer =
    (record_spend plus works
      (record_spend plus works (record_spend plus loses_reply tables (spend_of "r" 2) (some 7)).0
        (spend_of "s" 3) (some 7)).0
      (spend_of "r" 2) (some 7)).1

counted_once : answer ≡ recorded (num (pos 5)) true
unfolding record_spend has_request has_id
counted_once = refl
