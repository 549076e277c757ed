-- ===== src/Keypool/Types/Usage.antt =====
-- `TryConsumeUsage` over sequences of calls.
use keypooler.Base.{
  ℕ, suc, ◌+◌, ◌-◌, ◌≡◌, refl, ap, ◌∙◌, inl, inr, min, true, false, some, List, [], ◌∷◌, arith,
  if◌then◌else◌, Bool-cases, length,
}
use keypooler.Base.Int.{ℤ, pos, pos_part, ◌≤ℤ◌}
use keypooler.Keypool.Types.{
  PoolKey, Consumed, reached, usage_resets, resets_at, roll_usage, count_usage, consume,
  try_consume_usage,
}
use keypooler.Keypool.Types.Rate.{All}

-- The calls at the times `ts`, in order: the key they leave, and how many were granted.
pub usage_calls : PoolKey → List ℕ → PoolKey × ℕ
usage_calls k [] = (k, 0)
usage_calls k (t ∷ ts) =
    let (k', r) = try_consume_usage k t in
    let (k'', more) = usage_calls k' ts in (k'', if r.ok then suc more else more)

-- What every outcome of a call means, for a key with a limit: a grant counts one more and
-- stays within the limit; a refusal finds the limit reached; a reset starts a window at `now` with an empty
-- count, and without one the window stays.
pub record Accounts (k : PoolKey) (limit : ℤ) (now : ℕ) (k' : PoolKey) (r : Consumed) : Type 0 where
  pub kept_id : k'.id ≡ k.id
  pub kept : k'.usage_limit ≡ k.usage_limit
  pub kept_window : k'.usage_window_seconds ≡ k.usage_window_seconds
  pub reset_exactly : r.did_reset ≡ usage_resets k now
  pub granted :
      r.ok ≡ true
      → (pos k'.usage_count ≤ℤ limit)
        × (k'.usage_count ≡ (if r.did_reset then 1 else suc k.usage_count))
  pub refused :
      r.ok ≡ false
      → (limit ≤ℤ pos k'.usage_count)
        × (k'.usage_count ≡ (if r.did_reset then 0 else k.usage_count))
  pub started : k'.usage_window_start ≡ (if r.did_reset then some now else k.usage_window_start)
  pub reported : r.did_reset ≡ true → r.window_start ≡ now

consume_lem :
    (k : PoolKey) (limit : ℤ) (now : ℕ)
    → k.usage_limit ≡ some limit
    → try_consume_usage k now ≡ count_usage limit (roll_usage k now)
unfolding try_consume_usage
consume_lem k limit now e = ap (consume k now) e

-- The count after the window has been looked at decides.
count-Accounts :
    (k : PoolKey) (limit : ℤ) (now : ℕ)
    → Accounts k limit now
        (count_usage limit (roll_usage k now)).0
        (count_usage limit (roll_usage k now)).1
count-Accounts k limit now = elim (Bool-cases (usage_resets k now)) [
  | inl over ↦ elim (Bool-cases (reached 0 limit)) [
    | inl full ↦ rw (over, full) (ground arith)
    | inr free ↦ rw (over, free) (ground arith)
  ]
  | inr running ↦ elim (Bool-cases (reached k.usage_count limit)) [
    | inl full ↦ rw (running, full) (ground arith)
    | inr free ↦ rw (running, free) (ground arith)
  ]
]

pub try_consume_usage-Accounts :
    (k : PoolKey) (limit : ℤ) (now : ℕ)
    → k.usage_limit ≡ some limit
    → Accounts k limit now (try_consume_usage k now).0 (try_consume_usage k now).1
try_consume_usage-Accounts k limit now e =
    rw (consume_lem k limit now e) (count-Accounts k limit now)

-- The calls at `ts` as long as no window runs out.
abbrev pub Running : PoolKey → List ℕ → Type 0
Running k ts = All (λ t. usage_resets k t ≡ false) ts

Running-cong :
    (k k' : PoolKey) (ts : List ℕ)
    → k'.usage_window_seconds ≡ k.usage_window_seconds
    → k'.usage_window_start ≡ k.usage_window_start
    → Running k ts
    → Running k' ts
Running-cong k k' [] w s h = tt
Running-cong k k' (t ∷ ts) w s h =
    ((λ i. resets_at (w i) (s i) t) ∙ h.0, Running-cong k k' ts w s h.1)

usage_calls-next :
    (k : PoolKey) (t : ℕ) (ts : List ℕ) (limit : ℤ)
    → k.usage_limit ≡ some limit
    → usage_resets k t ≡ false
    → Running k ts
    → let k' = (try_consume_usage k t).0 in
      (k'.usage_limit ≡ some limit)
      × Running k' ts
      × (k'.usage_count
          ≡ (if reached k.usage_count limit then k.usage_count else suc k.usage_count))
      × ((try_consume_usage k t).1.ok ≡ (if reached k.usage_count limit then false else true))
usage_calls-next k t ts limit e running h = elim (Bool-cases (reached k.usage_count limit)) [
  | inl full ↦ rw (consume_lem k limit t e, running, full) (e, h, refl, refl)
  | inr free ↦
      rw (consume_lem k limit t e, running, free)
        (
          e,
          Running-cong k (record k { usage_count = suc k.usage_count }) ts refl refl h,
          refl,
          refl,
        )
]

-- Within one window, or without one: exactly as many calls are granted as the limit leaves,
-- and each grant is counted.
pub usage_calls-granted :
    (ts : List ℕ) (k : PoolKey) (limit : ℤ)
    → k.usage_limit ≡ some limit
    → Running k ts
    → let (k', granted) = usage_calls k ts in
      (granted ≡ min (length ts) (pos_part limit - k.usage_count))
      × (k'.usage_count ≡ k.usage_count + granted)
unfolding usage_calls
usage_calls-granted [] k limit e h = (omega arith, omega arith)
usage_calls-granted (t ∷ ts) k limit e h =
    let (e', h', counted, done) = usage_calls-next k t ts limit e h.0 h.1 in
    let (granted, total) = usage_calls-granted ts (try_consume_usage k t).0 limit e' h' in
    elim (Bool-cases (reached k.usage_count limit)) [
      | inl full ↦ rw (done, full) (ground (arith, counted, granted, total))
      | inr free ↦ rw (done, free) (ground (arith, counted, granted, total))
    ]
