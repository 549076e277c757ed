-- ===== src/Keypool/Types/Rate.antt =====
-- `TryRate` over sequences of calls.
use keypooler.Base.{
  ℕ, suc, ◌+◌, ◌-◌, ◌*◌, ◌≤◌, ◌≡◌, ap, ◌∙◌, inl, inr, min, String, true, false, some, List, [], ◌∷◌,
  arith, str_eq, str_eq_refl, if◌then◌else◌, Bool-cases, length,
}
use keypooler.Base.Int.{pos_part, ◌<ℤ◌, ◌≤ℤ◌, leb_ℤ}
use keypooler.Base.Dict.{lookup, lookup-insert}
use keypooler.Time.{since}
use keypooler.Keypool.Types.{
  FeatureLimit, RateCounter, PoolKey, window, roll, counter, reached, put_counter, count_call,
  try_rate,
}

-- The calls at the times `ts`, in order: the key they leave, and how many passed.
pub rate_calls : PoolKey → String → List ℕ → PoolKey × ℕ
rate_calls k feature [] = (k, 0)
rate_calls k feature (t ∷ ts) =
    let (k', passed) = try_rate k feature t in
    let (k'', more) = rate_calls k' feature ts in (k'', if passed then suc more else more)

abbrev pub All {ℓ κ} : {A : Type ℓ} → (A → Type κ) → List A → Type κ
All P [] = Unit
All P (x ∷ xs) = P x × All P xs

counter-put :
    (k : PoolKey) (f g : String) (rc : RateCounter)
    → counter (put_counter k f rc) g ≡ (if str_eq f g then rc else counter k g)
unfolding counter
counter-put k f g rc = elim (Bool-cases (str_eq f g)) [
  | inl e ↦ rw (lookup-insert f g rc k.rate_counters, e)
  | inr e ↦ rw (lookup-insert f g rc k.rate_counters, e)
]

-- One call on a feature whose window is still running.
module _ (k : PoolKey) (f : String) (fl : FeatureLimit) (now : ℕ)
    (covered : lookup f k.features ≡ some fl) where
  try_rate_lem : try_rate k f now ≡ count_call k f fl (roll fl now (counter k f))
  unfolding try_rate
  try_rate_lem = rw (covered, try_rate)

  counter-try_rate : counter (try_rate k f now).0 f ≡ (
      let rc = roll fl now (counter k f) in
      if reached rc.count fl.rate_limit then rc else record rc { count = suc rc.count })
  counter-try_rate = elim (Bool-cases (reached (roll fl now (counter k f)).count fl.rate_limit)) [
    | inl e ↦ rw (try_rate_lem, e, counter-put k f f _, str_eq_refl f)
    | inr e ↦ rw (try_rate_lem, e, counter-put k f f _, str_eq_refl f)
  ]

  passed-try_rate :
      (try_rate k f now).1
      ≡ (if reached (roll fl now (counter k f)).count fl.rate_limit then false else true)
  passed-try_rate = elim (Bool-cases (reached (roll fl now (counter k f)).count fl.rate_limit)) [
    | inl e ↦ rw (try_rate_lem, e)
    | inr e ↦ rw (try_rate_lem, e)
  ]

  features-try_rate : (try_rate k f now).0.features ≡ k.features
  features-try_rate = elim (Bool-cases (reached (roll fl now (counter k f)).count fl.rate_limit)) [
    | inl e ↦ rw (try_rate_lem, e)
    | inr e ↦ rw (try_rate_lem, e)
  ]

-- Every one of the times falls into the window that begins at `start`.
abbrev pub InWindow : FeatureLimit → ℕ → List ℕ → Type 0
InWindow fl start ts = All (λ t. since t start <ℤ window fl) ts

-- Any two of the times, the later one second, are less than a window apart.
abbrev pub Spans : FeatureLimit → List ℕ → Type 0
Spans fl [] = Unit {0}
Spans fl (t ∷ ts) = InWindow fl t ts × Spans fl ts

-- A limit below 0 lets nothing pass, like 0.
abbrev pub allowance : FeatureLimit → ℕ
allowance fl = pos_part fl.rate_limit

roll_inside :
    (fl : FeatureLimit) (now : ℕ) (rc : RateCounter)
    → since now rc.window_start <ℤ window fl
    → roll fl now rc ≡ rc
unfolding roll
roll_inside fl now rc h = ground arith

module _ (f : String) (fl : FeatureLimit) where
  passed_next :
      (k : PoolKey) (t : ℕ) (ts : List ℕ) (rc : RateCounter)
      → lookup f k.features ≡ some fl
      → roll fl t (counter k f) ≡ rc
      → (rate_calls k f (t ∷ ts)).1 ≡ (
          let rest = (rate_calls (try_rate k f t).0 f ts).1 in
          if reached rc.count fl.rate_limit then rest else suc rest)
  unfolding rate_calls
  passed_next k t ts rc covered e = elim (Bool-cases (reached rc.count fl.rate_limit)) [
    | inl full ↦ rw (passed-try_rate k f fl t covered, e, full)
    | inr free ↦ rw (passed-try_rate k f fl t covered, e, free)
  ]

  counter_next :
      (k : PoolKey) (t : ℕ) (rc : RateCounter)
      → lookup f k.features ≡ some fl
      → roll fl t (counter k f) ≡ rc
      → counter (try_rate k f t).0 f
        ≡ (if reached rc.count fl.rate_limit then rc else record rc { count = suc rc.count })
  counter_next k t rc covered e = rw (counter-try_rate k f fl t covered, e)

  covered_next :
      (k : PoolKey) (t : ℕ)
      → lookup f k.features ≡ some fl
      → lookup f (try_rate k f t).0.features ≡ some fl
  covered_next k t covered = rw (features-try_rate k f fl t covered) covered

  -- The two ways in which a call under the counter `rc` goes on.
  passed_full :
      (k : PoolKey) (t : ℕ) (ts : List ℕ) (rc : RateCounter)
      → lookup f k.features ≡ some fl
      → roll fl t (counter k f) ≡ rc
      → reached rc.count fl.rate_limit ≡ true
      → (counter (try_rate k f t).0 f ≡ rc)
        × ((rate_calls k f (t ∷ ts)).1 ≡ (rate_calls (try_rate k f t).0 f ts).1)
  passed_full k t ts rc covered e full =
      (rw (counter_next k t rc covered e, full), rw (passed_next k t ts rc covered e, full))

  passed_free :
      (k : PoolKey) (t : ℕ) (ts : List ℕ) (rc : RateCounter)
      → lookup f k.features ≡ some fl
      → roll fl t (counter k f) ≡ rc
      → reached rc.count fl.rate_limit ≡ false
      → (counter (try_rate k f t).0 f ≡ record rc { count = suc rc.count })
        × ((rate_calls k f (t ∷ ts)).1 ≡ suc (rate_calls (try_rate k f t).0 f ts).1)
  passed_free k t ts rc covered e free =
      (rw (counter_next k t rc covered e, free), rw (passed_next k t ts rc covered e, free))

  -- What the calls at `ts` do in one window, from any key.
  abbrev Share : List ℕ → Type 0
  Share ts =
      (k : PoolKey) (rc : RateCounter)
      → lookup f k.features ≡ some fl
      → counter k f ≡ rc
      → InWindow fl rc.window_start ts
      → (rate_calls k f ts).1 ≡ min (length ts) (allowance fl - rc.count)

  passed_rolled :
      (ts : List ℕ)
      → Share ts
      → (k : PoolKey) (t : ℕ) (rc : RateCounter) → lookup f k.features ≡ some fl
      → roll fl t (counter k f) ≡ rc
      → InWindow fl rc.window_start ts
      → (rate_calls k f (t ∷ ts)).1 ≡ min (suc (length ts)) (allowance fl - rc.count)
  passed_rolled ts ih k t rc covered e h = elim (Bool-cases (reached rc.count fl.rate_limit)) [
    | inl full ↦
        let (same, total) = passed_full k t ts rc covered e full in
        ground (arith, total, ih (try_rate k f t).0 rc (covered_next k t covered) same h)
    | inr free ↦
        let (more, total) = passed_free k t ts rc covered e free in
        ground (arith, total, ih (try_rate k f t).0 _ (covered_next k t covered) more h)
  ]

  -- Calls in one window share what the window has left.
  passed_inside : (ts : List ℕ) → Share ts
  unfolding rate_calls
  passed_inside [] k rc covered e h = omega arith
  passed_inside (t ∷ ts) k rc covered e h =
      passed_rolled ts (passed_inside ts) k t rc covered
        (ap (roll fl t) e ∙ roll_inside fl t rc h.0) h.1

  -- A call that opens a window, and the calls that follow within it: as many pass as the rate limit
  -- allows, from the first on, whatever the counter was before.
  pub passed_window :
      (k : PoolKey) (t : ℕ) (ts : List ℕ)
      → lookup f k.features ≡ some fl
      → window fl ≤ℤ since t (counter k f).window_start
      → InWindow fl t ts
      → (rate_calls k f (t ∷ ts)).1 ≡ min (length (t ∷ ts)) (allowance fl)
  passed_window k t ts covered over h =
      passed_rolled ts (passed_inside ts) k t (record { count = 0; window_start = t }) covered
        (unfold roll in ground arith) h
      ∙ omega arith

  -- The bound of a stretch of calls, from any key.
  abbrev Bounded : List ℕ → Type 0
  Bounded ts =
      (k : PoolKey)
      → lookup f k.features ≡ some fl
      → Spans fl ts
      → (rate_calls k f ts).1 ≤ (allowance fl - (counter k f).count) + allowance fl

  stretch_running :
      (ts : List ℕ)
      → Bounded ts
      → (k : PoolKey) (t : ℕ) → lookup f k.features ≡ some fl
      → Spans fl ts
      → roll fl t (counter k f) ≡ counter k f
      → (rate_calls k f (t ∷ ts)).1 ≤ (allowance fl - (counter k f).count) + allowance fl
  stretch_running ts ih k t covered h e =
      elim (Bool-cases (reached (counter k f).count fl.rate_limit)) [
        | inl full ↦
            let (same, total) = passed_full k t ts _ covered e full in
            omega (
              arith,
              total,
              ih (try_rate k f t).0 (covered_next k t covered) h,
              ap (λ (rc : RateCounter). rc.count) same,
            )
        | inr free ↦
            let (more, total) = passed_free k t ts _ covered e free in
            ground (
              arith,
              total,
              ih (try_rate k f t).0 (covered_next k t covered) h,
              ap (λ (rc : RateCounter). rc.count) more,
            )
      ]

  stretch : (ts : List ℕ) → Bounded ts
  unfolding rate_calls
  stretch [] k covered h = omega arith
  stretch (t ∷ ts) k covered h =
      elim (Bool-cases (leb_ℤ (window fl) (since t (counter k f).window_start))) [
        | inl over ↦ omega (arith, passed_window k t ts covered (unfold roll in ground arith) h.0)
        | inr running ↦
            stretch_running ts (stretch ts) k t covered h.1 (unfold roll in ground arith)
      ]

  -- Of calls any two of which are less than a window apart, at most twice the rate limit passes,
  -- whatever the counter was before.
  pub passed_stretch :
      (ts : List ℕ) (k : PoolKey)
      → lookup f k.features ≡ some fl
      → Spans fl ts
      → (rate_calls k f ts).1 ≤ 2 * allowance fl
  passed_stretch ts k covered h = omega (arith, stretch ts k covered h)
