-- ===== src/Db/Postgres/Spend/Change.antt =====
-- A change of a key's budget.
use keypooler.Base.{
  ◌⊎◌, ◌≡◌, ◌≢◌, refl, sym, ap, inl, inr, String, true, false, Option, none, some, str_eq, eq_iff,
  arith, str_eq_refl, if◌then◌else◌, Bool-cases,
}
use keypooler.Float64.{zero_f}
use keypooler.Db.{Budget}
use keypooler.Db.Postgres.Spend.{
  Ending, works, refuses, loses_reply, rebudget_row, end_update, SpendRow, Tables, UpdateResult,
  updated, no_row, update_failed, budget_columns, budget_of, same_unit, rebudget, update_key_budget,
}

budget_of-budget_columns :
    (b : Option Budget)
    → (let (amount, unit, reset_day) = budget_columns b in budget_of amount unit reset_day) ≡ b
unfolding budget_of budget_columns
budget_of-budget_columns none = refl
budget_of-budget_columns (some b) = refl

same_unit_refl : (u v : Option String) → v ≡ u → same_unit u v ≡ true
same_unit_refl none none e = refl
same_unit_refl none (some v) e = cc
same_unit_refl (some u) none e = cc
same_unit_refl (some u) (some v) e = ground (arith, e, eq_iff u v)

equal_units : (u v : String) → str_eq u v ≡ true → u ≡ v
equal_units u v h = ground (arith, eq_iff u v)

same_unit-ne : (u v : Option String) → v ≢ u → same_unit u v ≡ false
same_unit-ne none none e = absurd (e refl)
same_unit-ne none (some v) e = refl
same_unit-ne (some u) none e = refl
same_unit-ne (some u) (some v) e = elim (Bool-cases (str_eq u v)) [
  | inl h ↦ absurd (e (ap some (sym (equal_units u v h))))
  | inr h ↦ h
]

-- The row before and the row after a change to the budget `b`.
pub record IsChanged (b : Option Budget) (r r' : SpendRow) : Type 0 where
  pub budget : budget_of r'.budget_amount r'.budget_unit r'.budget_reset_day ≡ b
  pub kept :
      r'.budget_unit ≡ r.budget_unit
      → (r'.spent ≡ r.spent) × (r'.spent_period_start ≡ r.spent_period_start)
  pub cleared :
      r'.budget_unit ≢ r.budget_unit → (r'.spent ≡ zero_f) × (r'.spent_period_start ≡ none)

rebudget-IsChanged :
    (b : Option Budget) (r : SpendRow) → IsChanged b r (rebudget (budget_columns b) r)
rebudget-IsChanged b r = record {
  budget = budget_of-budget_columns b;
  kept = λ e.
      let c = same_unit_refl r.budget_unit (budget_columns b).1 e in
      (
        ap (λ x. if x then r.spent else zero_f) c,
        ap (λ x. if x then r.spent_period_start else none) c,
      );
  cleared = λ e.
      let c = same_unit-ne r.budget_unit (budget_columns b).1 e in
      (
        ap (λ x. if x then r.spent else zero_f) c,
        ap (λ x. if x then r.spent_period_start else none) c,
      );
}

-- The tables before and after a change of the budget of a key that is there.
abbrev pub Rebudgeted : Tables → String → Option Budget → Tables → Type 0
Rebudgeted t id b t' =
    ((r : SpendRow) × (r' : SpendRow) × (t.keys id ≡ some r)
      × (t'.keys id ≡ some r')
      × IsChanged b r r')
    × ((j : String) → str_eq id j ≡ false → t'.keys j ≡ t.keys j)
    × (t'.spend_events ≡ t.spend_events)

-- The key has no row, and nothing changes.
abbrev pub Missing : Tables → String → Tables → Type 0
Missing t id t' = (t' ≡ t) × (t.keys id ≡ none)

-- What each ending says of the tables before and after, and of the result.
abbrev pub Changes : Ending → Tables → String → Option Budget → Tables × UpdateResult → Type 0
Changes works t id b (t', updated) = Rebudgeted t id b t'
Changes works t id b (t', no_row) = Missing t id t'
Changes works t id b (t', update_failed) = ⊥
Changes refuses t id b (t', result) = (result ≡ update_failed) × (t' ≡ t)
Changes loses_reply t id b (t', result) =
    (result ≡ update_failed) × (Rebudgeted t id b t' ⊎ Missing t id t')

rebudget_row-Changes :
    (t : Tables) (id : String) (b : Option Budget) (row : Option SpendRow)
    → t.keys id ≡ row
    → Changes works t id b (rebudget_row t id b row)
rebudget_row-Changes t id b none e = (refl, e)
rebudget_row-Changes t id b (some r) e = (
  (
    r,
    rebudget (budget_columns b) r,
    e,
    ap (λ c. if c then some (rebudget (budget_columns b) r) else t.keys id) (str_eq_refl id),
    rebudget-IsChanged b r,
  ),
  (λ j other. ap (λ c. if c then some (rebudget (budget_columns b) r) else t.keys j) other),
  refl,
)

end_update-Changes :
    (ending : Ending) (t : Tables) (id : String) (b : Option Budget) (done : Tables × UpdateResult)
    → Changes works t id b done
    → Changes ending t id b (end_update ending t done)
end_update-Changes works t id b done h = h
end_update-Changes refuses t id b done h = (refl, refl)
end_update-Changes loses_reply t id b (t', updated) h = (refl, inl h)
end_update-Changes loses_reply t id b (t', no_row) h = (refl, inr h)
end_update-Changes loses_reply t id b (t', update_failed) h = absurd h

-- `UpdateKeyBudget`, by how its statement ends. Where it works, an updated key's columns read back as the budget that
-- was set, what it has spent stays if the unit does and starts over if not, and other keys and the spend events stay;
-- and where the key has no row that is the result, and nothing changes. Where the statement is refused, nothing changes,
-- and where it is committed and its answer is lost, the tables are as after one of the two; both are answered as failures.
pub update_key_budget-Changes :
    (ending : Ending) (t : Tables) (id : String) (b : Option Budget)
    → Changes ending t id b (update_key_budget ending t id b)
unfolding update_key_budget
update_key_budget-Changes ending t id b =
    end_update-Changes ending t id b (rebudget_row t id b (t.keys id))
      (rebudget_row-Changes t id b (t.keys id) refl)
