-- ===== src/Keypool/Budget/Periods.antt =====
-- The periods of a monthly budget: `periodStart` and `nextReset` cut time into one period a month.
use keypooler.Base.{
  ℕ, suc, ◌-◌, ◌≤◌, ◌<◌, ◌≡◌, sym, ap, ◌∙◌, inl, inr, some, arith, ltb, Bool-cases,
}
use keypooler.Base.Int.{pos}
use keypooler.Time.Calendar.{date, month_of, next_month, previous_month}
use keypooler.Time.Calendar.Months.{
  reset_at, date-reset_at, next_month-reset_at, previous_month-reset_at, reset_at_next,
  reset_at_before, reset_at_mono, tri, second_month, month_of-pos,
}
use keypooler.Db.{Budget}
use keypooler.Keypool.Budget.{reset_before, period_start, reset_after, next_reset}

-- `now` lies in the period that the reset of month `n` opens.
abbrev pub InPeriod : ℕ → ℕ → ℕ → Type 0
InPeriod d n now = (reset_at n d ≤ now) × (now < reset_at (suc n) d)

-- An instant lies in one period only.
InPeriod-unique : (d m n now : ℕ) → InPeriod d m now → InPeriod d n now → m ≡ n
InPeriod-unique d m n now a b = elim (tri m n) [
  | inl e ↦ e
  | inr (inl h) ↦ absurd (omega (arith, reset_at_mono (suc m) n d h))
  | inr (inr h) ↦ absurd (omega (arith, reset_at_mono (suc n) m d h))
]

module _ (d : ℕ) (low : 1 ≤ d) (high : d ≤ 28) where
  -- `reset_before` finds the last reset that is not after `now`.
  abbrev Opens : ℕ → Type 0
  Opens now = (m : ℕ) × (reset_before (pos d) now ≡ reset_at m d) × InPeriod d m now

  reset_before-Opens : (now n : ℕ) → month_of now ≡ suc n → Opens now
  unfolding reset_before
  reset_before-Opens now n e = elim (Bool-cases (ltb now (date (month_of now) (pos d)))) [
    | inl early ↦ (
      n,
      rw early (
          ap previous_month start
          ∙ previous_month-reset_at (suc n) d low high
          ∙ ap (λ k. reset_at k d) {x = suc n - 1} {y = n} (omega arith)),
      (reset_at_before n d low high now e, ground (arith, start)),
    )
    | inr late ↦
        (suc n, rw late start, (ground (arith, start), reset_at_next (suc n) d low high now e))
  ]
    where
      start : date (month_of now) (pos d) ≡ reset_at (suc n) d
      start = ap (λ m. date m (pos d)) e ∙ date-reset_at (suc n) d low high

  opens : (now : ℕ) → second_month ≤ now → Opens now
  opens now h = reset_before-Opens now (month_of now - 1) (month_of-pos now h)

-- The period of `now` that starts at `start`: what the three operations on it say.
pub record Cuts (b : Budget) (now : ℕ) (next : ℕ) : Type 0 where
  pub reset : next_reset b now ≡ some next
  pub started : period_start b now ≤ now
  pub ends : now < next
  pub same :
      (t : ℕ)
      → second_month ≤ t
      → period_start b now ≤ t
      → t < next
      → period_start b t ≡ period_start b now
  pub later : (t : ℕ) → second_month ≤ t → next ≤ t → next ≤ period_start b t

module _ (b : Budget) (d : ℕ) (monthly : b.reset_day ≡ some (pos d)) (low : 1 ≤ d)
    (high : d ≤ 28) where
  monthly_start : (now : ℕ) → period_start b now ≡ reset_before (pos d) now
  unfolding period_start
  monthly_start now = rw (monthly, period_start)

  monthly_next : (now : ℕ) → next_reset b now ≡ some (next_month (period_start b now))
  unfolding next_reset
  monthly_next now = ap (λ o. reset_after o (period_start b now)) monthly

  period_opens :
      (now : ℕ)
      → second_month ≤ now
      → (m : ℕ) × (period_start b now ≡ reset_at m d) × InPeriod d m now
  period_opens now h =
      let (m, starts, inside) = opens d low high now h in (m, monthly_start now ∙ starts, inside)

  same_period : (m t : ℕ) → second_month ≤ t → InPeriod d m t → period_start b t ≡ reset_at m d
  same_period m t h inside =
      let (n, starts, inside') = period_opens t h in
      starts ∙ ap (λ k. reset_at k d) (InPeriod-unique d n m t inside' inside)

  later_period :
      (m t : ℕ) → second_month ≤ t → reset_at (suc m) d ≤ t → reset_at (suc m) d ≤ period_start b t
  later_period m t h from =
      let (n, starts, inside) = period_opens t h in
      elim (tri m n) [
        | inl e ↦ absurd (omega (arith, inside.1, ap (λ k. reset_at (suc k) d) e))
        | inr (inl lt) ↦ omega (arith, starts, reset_at_mono (suc m) n d lt)
        | inr (inr gt) ↦
            absurd (omega (arith, inside.1, reset_at_mono (suc n) (suc m) d (omega arith)))
      ]

-- Monthly budgets cut time into periods: the period of `now` has begun and its next reset is still to
-- come; an instant has the same period start exactly within it, and from the next reset on the
-- period starts no earlier than that reset. For a reset day from 1 to 28, and instants after January of
-- year 1.
pub period_start-Cuts :
    (b : Budget) (d now : ℕ)
    → b.reset_day ≡ some (pos d)
    → 1 ≤ d
    → d ≤ 28
    → second_month ≤ now
    → (next : ℕ) × Cuts b now next
period_start-Cuts b d now monthly low high h =
    let (m, starts, inside) = period_opens b d monthly low high now h in
    (
      reset_at (suc m) d,
      record {
        reset =
            monthly_next b d monthly low high now
            ∙ ap some (ap next_month starts ∙ next_month-reset_at m d low high);
        started = omega (arith, starts, inside.0);
        ends = inside.1;
        same = λ t ht from to.
            same_period b d monthly low high m t ht (omega (arith, starts), to) ∙ sym starts;
        later = λ t ht from. later_period b d monthly low high m t ht from;
      },
    )
