-- ===== src/Examples/Pool.antt =====
-- The pool's theorems at concrete keys, and draws from a pool of two.
use keypooler.Base.{
  ◌⊎◌, ◌∙◌, ℕ, ◌+◌, ◌*◌, ◌≤◌, ◌<◌, ◌≡◌, refl, sym, zero, suc, inl, inr, String, none, some, List,
  [], ◌∷◌, arith, min, ◌-◌, get_elem?,
}
use keypooler.Base.Int.{pos, ◌≤ℤ◌, int64}
use keypooler.Base.Dict.{lookup, insert}
use keypooler.Time.{since, seconds}
use keypooler.Time.Calendar.{
  day, month_of, month_from, month_start, month_length, days_in, is_leap, date, previous_month,
  next_month, day_of,
}
use keypooler.Writeback.{new, served, window_reset}
use keypooler.Float64.{num, zero_f, flt}
use keypooler.Db.Postgres.{UsageRow}
use keypooler.Keypool.Types.{
  PoolKey, spent_now, hold_spent, within_budget, try_consume_usage, try_rate, window, counter, roll,
  available, has_feature,
}
use keypooler.Keypool.Types.Rate.{
  rate_calls, passed_window, passed_stretch, allowance, InWindow, Spans,
}
use keypooler.Keypool.Types.Usage.{usage_calls, Running, usage_calls-granted}
use keypooler.Keypool.Types.Spending.{Holds, hold_spent-periods}
use keypooler.Keypool.Budget.{period_start, next_reset, reset_before}
use keypooler.Keypool.Budget.Periods.{Cuts, period_start-Cuts}
use keypooler.Keypool.Manager.Draw.{some_inj}
use keypooler.Keypool.Manager.{
  out_of_scope, draw, candidates, offers, tier_allowed, attempt, persist_usage, serve, Manager,
  Answer, good, bad, Served, get_key_for_feature, key_by_id,
}
use keypooler.Keypool.Manager.Fuel.{draw_fuel}
use keypooler.Keypool.Manager.Outcome.{Justified, get_key_for_feature-Justified}
use keypooler.Keypool.Manager.Persistence.{PoolSynced, draws-PoolSynced}
use keypooler.Examples.Data.{
  at, two_a_minute, limited_key, running_key, pool, monthly, budgeted_key, march,
}

over : window two_a_minute ≤ℤ since (at 100) (counter (limited_key "a") "tts").window_start
unfolding window since seconds int64 counter lookup
over = omega arith

within : InWindow two_a_minute (at 100) (at 110 ∷ at 120 ∷ at 159 ∷ [])
unfolding window since seconds int64
within = (omega arith, (omega arith, (omega arith, tt)))

-- Of four calls in the minute from second 100 on, two pass.
passed_window_example :
    (rate_calls (limited_key "a") "tts" (at 100 ∷ at 110 ∷ at 120 ∷ at 159 ∷ [])).1
    ≡ min 4 (allowance two_a_minute)
unfolding lookup
passed_window_example =
    passed_window "tts" two_a_minute (limited_key "a") (at 100) (at 110 ∷ at 120 ∷ at 159 ∷ []) refl
      over within

close : Spans two_a_minute (at 30 ∷ at 50 ∷ at 70 ∷ [])
unfolding window since seconds int64
close = ((omega arith, (omega arith, tt)), ((omega arith, tt), (tt, tt)))

passed_stretch_example :
    (rate_calls (limited_key "a") "tts" (at 30 ∷ at 50 ∷ at 70 ∷ [])).1 ≤ 2 * allowance two_a_minute
unfolding lookup
passed_stretch_example =
    passed_stretch "tts" two_a_minute (at 30 ∷ at 50 ∷ at 70 ∷ []) (limited_key "a") refl close

still-Running : Running (running_key "a") (at 110 ∷ at 120 ∷ at 130 ∷ at 140 ∷ [])
unfolding window since seconds int64
still-Running = (refl, (refl, (refl, (refl, tt))))

-- Of four calls within one window three are granted.
usage_calls-granted_example :
    let (k', granted) = usage_calls (running_key "a") (at 110 ∷ at 120 ∷ at 130 ∷ at 140 ∷ []) in
    (granted ≡ min 4 (3 - 0)) × (k'.usage_count ≡ 0 + granted)
usage_calls-granted_example =
    usage_calls-granted (at 110 ∷ at 120 ∷ at 130 ∷ at 140 ∷ []) (running_key "a") (pos 3) refl
      still-Running

-- Held on 10 March; the period that began on 15 February ends on 15 March.
hold_spent-periods_example :
    let k' = hold_spent budgeted_key (num (pos 2)) (period_start monthly march) in
    (next : ℕ) × (next_reset monthly march ≡ some next)
    × ((t : ℕ)
        → march ≤ t
        → t < next
        → Holds budgeted_key (num (pos 2)) (period_start monthly march) (spent_now k' t)
          × (within_budget k' t ≡ flt (spent_now k' t) (num (pos 5))))
    × ((t : ℕ)
        → next ≤ t
        → (spent_now k' t ≡ zero_f) × (within_budget k' t ≡ flt zero_f (num (pos 5))))
hold_spent-periods_example =
    hold_spent-periods budgeted_key monthly 15 march (num (pos 2)) refl refl (omega arith)
      (omega arith) (omega arith)

period_start-Cuts_example : (next : ℕ) × Cuts monthly march next
period_start-Cuts_example =
    period_start-Cuts monthly 15 march refl (omega arith) (omega arith) (omega arith)

march_period : period_start monthly march ≡ 45 * day
unfolding period_start reset_before month_of month_from month_start month_length days_in is_leap
    date previous_month day_of
march_period = refl

march_reset : next_reset monthly march ≡ some (73 * day)
unfolding next_reset period_start reset_before month_of month_from month_start month_length days_in
    is_leap date previous_month next_month day_of
march_reset = refl

-- Call n reads the clock at second 100 + n.
abbrev clock : ℕ → ℕ
clock n = at (100 + n)

get_key_for_feature-Justified_example :
    Justified pool "tts" none clock (get_key_for_feature pool "tts" none clock)
get_key_for_feature-Justified_example = get_key_for_feature-Justified pool "tts" none clock

abbrev fresh_row : String → UsageRow
fresh_row id = record { usage_count = 0; usage_window_start = none }

two_keys :
    (p : ℕ) (k : PoolKey)
    → get_elem? pool.keys p ≡ some k
    → ((p ≡ 0) × (k ≡ limited_key "a")) ⊎ ((p ≡ 1) × (k ≡ limited_key "b"))
two_keys zero k e = inl (refl, sym (some_inj _ _ e))
two_keys (suc zero) k e = inr (refl, sym (some_inj _ _ e))
two_keys (suc (suc p)) k e = cc

pool-PoolSynced : PoolSynced fresh_row pool
unfolding new lookup
pool-PoolSynced = record {
  distinct = λ p q k j e g ne. elim (two_keys p k e) [
    | inl (p0, ka) ↦ elim (two_keys q j g) [
      | inl (q0, ja) ↦ absurd (ne (p0 ∙ sym q0))
      | inr (q1, jb) ↦ rw (ka, jb) refl
    ]
    | inr (p1, kb) ↦ elim (two_keys q j g) [
      | inl (q0, ja) ↦ rw (kb, ja) refl
      | inr (q1, jb) ↦ absurd (ne (p1 ∙ sym q1))
    ]
  ];
  positive = λ p k e. elim (two_keys p k e) [
    | inl (p0, ka) ↦ rw ka (omega arith)
    | inr (p1, kb) ↦ rw kb (omega arith)
  ];
  synced = λ p k e. elim (two_keys p k e) [ inl (p0, ka) ↦ rw ka refl | inr (p1, kb) ↦ rw kb refl ];
}

draws-PoolSynced_example :
    PoolSynced fresh_row (get_key_for_feature pool "tts" none clock).0
    × PoolSynced fresh_row (key_by_id pool "b" "tts" none clock).0
draws-PoolSynced_example = draws-PoolSynced fresh_row pool "b" "tts" none clock pool-PoolSynced

-- The keys take turns, and a feature that no key has is out of scope.
abbrev answered : Answer Served → String
answered (good s) = s.id
answered (bad out_of_scope) = "out of scope"
answered (bad e) = "refused"

abbrev draw_names : ℕ → Manager → List String
draw_names zero m = []
draw_names (suc n) m =
    let (m', a) = get_key_for_feature m "tts" none clock in answered a ∷ draw_names n m'

-- Two calls a minute for each of two keys, and no fifth.
turns : draw_names 5 pool ≡ "a" ∷ "b" ∷ "a" ∷ "b" ∷ "refused" ∷ []
unfolding get_key_for_feature draw candidates offers tier_allowed has_feature available attempt
    try_rate try_consume_usage within_budget spent_now persist_usage served window_reset serve new
    lookup insert roll counter window since seconds int64
turns = refl

draw_fuel_example : draw 2 pool "tts" clock 2 (0 ∷ 1 ∷ []) ≡ draw 9 pool "tts" clock 2 (0 ∷ 1 ∷ [])
draw_fuel_example = draw_fuel 2 9 pool "tts" clock 2 (0 ∷ 1 ∷ []) (omega arith) (omega arith)

no_such_feature : answered (get_key_for_feature pool "stt" none clock).1 ≡ "out of scope"
unfolding get_key_for_feature draw candidates offers tier_allowed has_feature available attempt
    lookup
no_such_feature = refl
