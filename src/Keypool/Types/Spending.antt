-- ===== src/Keypool/Types/Spending.antt =====
-- The spend that a key holds against its budget, over the periods of the budget.
use keypooler.Base.{
  subst, sym, true, false, ◌≢◌, ℕ, ◌≤◌, ◌<◌, ◌≡◌, ap, ◌∙◌, some, arith, ◌==◌, if◌then◌else◌,
}
use keypooler.Base.Int.{pos}
use keypooler.Float64.{Float64, zero_f, flt}
use keypooler.Time.Calendar.Months.{second_month}
use keypooler.Db.{Budget}
use keypooler.Keypool.Budget.{period_start, next_reset}
use keypooler.Keypool.Budget.Periods.{period_start-Cuts}
use keypooler.Keypool.Types.{PoolKey, spent_in, spent_now, hold_spent, under, within_budget}

hold_spent-start :
    (k : PoolKey) (spent : Float64) (start : ℕ)
    → (hold_spent k spent start).spent_period_start ≡ some start
unfolding hold_spent
hold_spent-start k spent start = ground arith

hold_spent-budget :
    (k : PoolKey) (spent : Float64) (start : ℕ) → (hold_spent k spent start).budget ≡ k.budget
unfolding hold_spent
hold_spent-budget k spent start = ground arith

spent_now_lem :
    (k : PoolKey) (b : Budget) (start t : ℕ)
    → k.budget ≡ some b
    → k.spent_period_start ≡ some start
    → spent_now k t ≡ (if start == period_start b t then k.spent else zero_f)
unfolding spent_now
spent_now_lem k b start t has at = λ i. spent_in (has i) (at i) k.spent t

-- What a key with budget `b` says at `t`, by the period that its spend was held in.
module _ (k : PoolKey) (b : Budget) (start : ℕ) (has : k.budget ≡ some b)
    (held : k.spent_period_start ≡ some start) where
  spent_within : (t : ℕ) → period_start b t ≡ start → spent_now k t ≡ k.spent
  spent_within t e = spent_now_lem k b start t has held ∙ ground (arith, e)

  spent_past : (t : ℕ) → start < period_start b t → spent_now k t ≡ zero_f
  spent_past t h = spent_now_lem k b start t has held ∙ ground arith

  within_budget_lem : (t : ℕ) → within_budget k t ≡ flt (spent_now k t) b.amount
  unfolding within_budget
  within_budget_lem t = ap (λ o. under o (spent_now k t)) has

-- What a key holds in the period from `start` on, after a report of `spent`: a lower report of the period that the
-- key already holds is passed over.
pub record Holds (k : PoolKey) (spent : Float64) (start : ℕ) (amount : Float64) : Type 0 where
  pub lower : k.spent_period_start ≡ some start → flt spent k.spent ≡ true → amount ≡ k.spent
  pub higher : k.spent_period_start ≡ some start → flt spent k.spent ≡ false → amount ≡ spent
  pub begins : k.spent_period_start ≢ some start → amount ≡ spent

hold_spent-Holds :
    (k : PoolKey) (spent : Float64) (start : ℕ)
    → Holds k spent start (hold_spent k spent start).spent
unfolding hold_spent
hold_spent-Holds k spent start = record {
  lower = λ e h. ground (arith, e, h);
  higher = λ e h. ground (arith, e, h);
  begins = λ e. ground (arith, e);
}

-- A spend that is held in the period of `now`, at the instant `t`: until the next reset the key counts the spend that was
-- reported, or what it already held in that period if that is more, and is within budget just if what it counts is below
-- the amount; from the next reset on it counts
-- nothing, and is within budget if the amount is above 0. For a reset day from 1 to 28, and `now` after January
-- of year 1.
pub hold_spent-periods :
    (k : PoolKey) (b : Budget) (d now : ℕ) (spent : Float64)
    → k.budget ≡ some b
    → b.reset_day ≡ some (pos d)
    → 1 ≤ d
    → d ≤ 28
    → second_month ≤ now
    → let k' = hold_spent k spent (period_start b now) in
      (next : ℕ) × (next_reset b now ≡ some next)
      × ((t : ℕ)
          → now ≤ t
          → t < next
          → Holds k spent (period_start b now) (spent_now k' t)
            × (within_budget k' t ≡ flt (spent_now k' t) b.amount))
      × ((t : ℕ)
          → next ≤ t
          → (spent_now k' t ≡ zero_f) × (within_budget k' t ≡ flt zero_f b.amount))
hold_spent-periods k b d now spent has monthly low high h =
    let (next, cuts) = period_start-Cuts b d now monthly low high h in
    (
      next,
      cuts.reset,
      (λ t from to.
          let e =
            spent_within k' b start has' held t
              (cuts.same t (omega arith) (omega (arith, cuts.started)) to) in
          (
            subst (Holds k spent start) (sym e) (hold_spent-Holds k spent start),
            within_budget_lem k' b start has' held t,
          )),
      (λ t from.
          let e = spent_past k' b start has' held t (
            omega (arith, cuts.started, cuts.ends, cuts.later t (omega (arith, cuts.ends)) from)) in
          (e, within_budget_lem k' b start has' held t ∙ ap (λ x. flt x b.amount) e)),
    )
  where
    start : ℕ
    start = period_start b now

    k' : PoolKey
    k' = hold_spent k spent (period_start b now)

    has' : k'.budget ≡ some b
    has' = hold_spent-budget k spent start ∙ has

    held : k'.spent_period_start ≡ some start
    held = hold_spent-start k spent start
