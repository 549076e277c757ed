-- ===== src/Time/Calendar/Months.antt =====
-- The month of a day, and the resets on one day of each month.
use native.Mathlib.Numerals.{add-one}
use keypooler.Base.{
  ℕ, zero, suc, ◌+◌, ◌-◌, ◌*◌, ◌/◌, ◌%◌, ◌≤◌, ◌<◌, ◌≡◌, refl, ap, ◌∙◌, subst, ◌⊎◌, inl, inr, arith,
  ltb, Bool-cases,
}
use keypooler.Base.Int.{pos}
use keypooler.Time.Calendar.{
  day, days_in, month_length, month_start, month_from, month_of, date, day_of, next_month,
  previous_month,
}

pub month_length_range : (n : ℕ) → (28 ≤ month_length n) × (month_length n ≤ 31)
unfolding month_length days_in
month_length_range n = ground arith

month_start-zero : month_start 0 ≡ 0
unfolding month_start
month_start-zero = refl

pub month_start-suc : (n : ℕ) → month_start (suc n) ≡ month_start n + month_length n
unfolding month_start
month_start-suc n = refl

month_start_up : (k n : ℕ) → month_start n ≤ month_start (n + k)
month_start_up zero n = omega (arith, ap month_start {x = n + zero} {y = n} (omega arith))
month_start_up (suc k) n = omega (
  arith,
  month_start_up k n,
  month_start-suc (n + k),
  ap month_start {x = n + suc k} {y = suc (n + k)} (omega arith),
)

pub month_start_mono : (m n : ℕ) → m ≤ n → month_start m ≤ month_start n
month_start_mono m n h =
    omega (arith, month_start_up (n - m) m, ap month_start {x = m + (n - m)} {y = n} (omega arith))

-- Day `d` lies in month `n`.
abbrev pub IsIn : ℕ → ℕ → Type 0
IsIn d n = (month_start n ≤ d) × (d < month_start (suc n))

pub tri : (m n : ℕ) → (m ≡ n) ⊎ ((suc m ≤ n) ⊎ (suc n ≤ m))
tri m n = grind arith

IsIn-unique : (d m n : ℕ) → IsIn d m → IsIn d n → m ≡ n
IsIn-unique d m n a b = elim (tri m n) [
  | inl e ↦ e
  | inr (inl h) ↦ absurd (omega (arith, month_start_mono (suc m) n h))
  | inr (inr h) ↦ absurd (omega (arith, month_start_mono (suc n) m h))
]

month_from-IsIn : (fuel n d : ℕ) → d < fuel → IsIn (month_start n + d) (month_from fuel n d)
unfolding month_from
month_from-IsIn zero n d h = absurd (omega arith)
month_from-IsIn (suc fuel) n d h = elim (Bool-cases (ltb d (month_length n))) [
  | inl e ↦ rw (e, month_from) (ground (arith, month_start-suc n))
  | inr e ↦
      rw (e, month_from)
        (subst (λ x. IsIn x (month_from fuel (suc n) (d - month_length n)))
          (ground (arith, month_start-suc n))
          (month_from-IsIn fuel (suc n) (d - month_length n)
            (ground (arith, month_length_range n))))
]

pub month_of-IsIn : (t : ℕ) → IsIn (t / day) (month_of t)
unfolding month_of
month_of-IsIn t =
    subst (λ d. IsIn d (month_from (suc (t / day)) 0 (t / day))) (omega (arith, month_start-zero))
      (month_from-IsIn (suc (t / day)) 0 (t / day) (omega arith))

pub month_of_unique : (t n : ℕ) → IsIn (t / day) n → month_of t ≡ n
month_of_unique t n h = IsIn-unique (t / day) (month_of t) n (month_of-IsIn t) h

-- Midnight of day `d` in month `n`.
pub reset_at : ℕ → ℕ → ℕ
reset_at n d = (month_start n + d - 1) * day

module _ (n d : ℕ) (low : 1 ≤ d) (high : d ≤ 28) where
  reset_at-IsIn : IsIn (reset_at n d / day) n
  unfolding reset_at
  reset_at-IsIn = omega (arith, month_length_range n, month_start-suc n)

  pub date-reset_at : date n (pos d) ≡ reset_at n d
  unfolding date reset_at
  date-reset_at = omega arith

  month_of-reset_at : month_of (reset_at n d) ≡ n
  month_of-reset_at = month_of_unique (reset_at n d) n reset_at-IsIn

  day_of-reset_at : day_of (reset_at n d) ≡ d
  unfolding day_of
  day_of-reset_at =
      ap (λ m. reset_at n d / day - month_start m + 1) month_of-reset_at
      ∙ (unfold reset_at in omega arith)

  midnight : reset_at n d % day ≡ 0
  unfolding reset_at
  midnight = omega arith

  pub next_month-reset_at : next_month (reset_at n d) ≡ reset_at (suc n) d
  unfolding next_month
  next_month-reset_at =
      rw (month_of-reset_at, day_of-reset_at, midnight, add-one n) (unfold reset_at in omega arith)

  pub previous_month-reset_at : previous_month (reset_at n d) ≡ reset_at (n - 1) d
  unfolding previous_month
  previous_month-reset_at =
      rw (month_of-reset_at, day_of-reset_at, midnight) (unfold reset_at in omega arith)

  -- An instant of a month lies between the reset of the month before and that of the next.
  pub reset_at_next : (t : ℕ) → month_of t ≡ n → t < reset_at (suc n) d
  unfolding reset_at
  reset_at_next t e = omega (arith, subst (IsIn (t / day)) e (month_of-IsIn t))

  pub reset_at_before : (t : ℕ) → month_of t ≡ suc n → reset_at n d ≤ t
  unfolding reset_at
  reset_at_before t e =
      omega
        (arith, subst (IsIn (t / day)) e (month_of-IsIn t), month_start-suc n, month_length_range n)

pub reset_at_mono : (m n d : ℕ) → m ≤ n → reset_at m d ≤ reset_at n d
unfolding reset_at
reset_at_mono m n d h = grind (arith, month_start_mono m n h)

-- January of year 1 is over.
abbrev pub second_month : ℕ
second_month = 31 * day

month_start-one : month_start 1 ≡ 31
unfolding month_start month_length days_in
month_start-one = refl

pub month_of-pos : (t : ℕ) → second_month ≤ t → month_of t ≡ suc (month_of t - 1)
month_of-pos t h = elim (tri (month_of t) 0) [
  | inl e ↦ absurd (omega (arith, subst (IsIn (t / day)) e (month_of-IsIn t), month_start-one))
  | inr (inl lt) ↦ absurd (omega arith)
  | inr (inr gt) ↦ omega arith
]
