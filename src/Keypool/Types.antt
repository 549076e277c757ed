-- ===== src/Keypool/Types.antt =====
-- internal/keypool/types.go, with the methods of PoolKey in internal/keypool/budget.go. A method
-- returns the key that it leaves behind; `time.Now()` is an argument. A method holds the key's mutex
-- while it runs, so each is one atomic step.
pub mod Rate
pub mod Usage
pub mod Spending
use keypooler.Base.{
  ℕ, suc, ◌+◌, ◌≡◌, String, Bool, true, false, not, ◌&&◌, ◌||◌, Option, none, some, List, [], ◌∷◌,
  map, leb, ◌==◌, if◌then◌else◌, is_some, or_else,
}
use keypooler.Base.Int.{ℤ, pos, leb_ℤ, ltb_ℤ}
use keypooler.Base.Dict.{Dict, lookup, insert}
use keypooler.Time.{zero_time, minute, since, seconds, before}
use keypooler.Float64.{Float64, zero_f, flt, fle}
use keypooler.Json.{Members}
use keypooler.Crypto.{Bytes}
use keypooler.Db.{Budget, Key}
use keypooler.Keypool.Budget.{period_start}

pub record FeatureLimit : Type 0 where
  pub rate_limit : ℤ
  pub window_seconds : ℤ

pub record RateCounter : Type 0 where
  pub count : ℕ
  pub window_start : ℕ

-- internal/keypool/balance.go
pub record Balance : Type 0 where
  pub used : Float64
  pub limit : Float64
  pub unit : String
  pub resets_at : Option ℕ
  pub checked_at : ℕ

-- `Balance.Spent`
unfoldable pub balance_spent : Balance → Bool
balance_spent b = flt zero_f b.limit && fle b.limit b.used

pub record PoolKey : Type 0 where
  pub id : String
  pub name : String
  pub key_value : Bytes
  pub tier_id : String
  pub is_active : Bool
  pub expires_at : Option ℕ
  pub usage_limit : Option ℤ
  pub usage_count : ℕ
  pub usage_window_seconds : Option ℤ
  pub usage_window_start : Option ℕ
  pub exhausted_until : Option ℕ
  pub budget : Option Budget
  pub spent : Float64
  pub spent_period_start : Option ℕ
  pub balance : Option Balance
  pub metadata : Members
  pub secrets : Dict Bytes
  pub features : Dict FeatureLimit
  pub rate_counters : Dict RateCounter

-- Everything but the counters, the window's start and the balance comes from the row.
unfoldable pub load : PoolKey → Key → Dict FeatureLimit → Dict Bytes → PoolKey
load k row features secrets = record k {
  id = row.id;
  name = row.name;
  key_value = row.key_value;
  tier_id = row.tier_id;
  is_active = row.is_active;
  expires_at = row.expires_at;
  usage_limit = row.usage_limit;
  usage_window_seconds = row.usage_window_seconds;
  exhausted_until = row.exhausted_until;
  budget = row.budget;
  spent = row.spent;
  spent_period_start = row.spent_period_start;
  metadata = row.metadata;
  secrets = secrets;
  features = features;
}

unfoldable pub window : FeatureLimit → ℤ
window fl = if leb_ℤ fl.window_seconds (pos 0) then minute else seconds fl.window_seconds

-- `&rateCounter{}`
abbrev pub zero_counter : RateCounter
zero_counter = record { count = 0; window_start = zero_time }

-- `count >= limit`
abbrev pub reached : ℕ → ℤ → Bool
reached count limit = leb_ℤ limit (pos count)

-- A counter at `now`: a window that has run its length starts anew.
unfoldable pub roll : FeatureLimit → ℕ → RateCounter → RateCounter
roll fl now rc =
    if leb_ℤ (window fl) (since now rc.window_start)
    then record { count = 0; window_start = now }
    else rc

unfoldable pub counter : PoolKey → String → RateCounter
counter k feature = or_else (lookup feature k.rate_counters) zero_counter

abbrev pub put_counter : PoolKey → String → RateCounter → PoolKey
put_counter k feature rc = record k { rate_counters = insert feature rc k.rate_counters }

abbrev pub count_call : PoolKey → String → FeatureLimit → RateCounter → PoolKey × Bool
count_call k feature fl rc =
    if reached rc.count fl.rate_limit
    then (put_counter k feature rc, false)
    else (put_counter k feature (record rc { count = suc rc.count }), true)

unfoldable pub try_rate : PoolKey → String → ℕ → PoolKey × Bool
try_rate k feature now = elim (lookup feature k.features) [
  | none ↦ (k, false)
  | some fl ↦ count_call k feature fl (roll fl now (counter k feature))
]

abbrev same_instant : Option ℕ → ℕ → Bool
same_instant none t = false
same_instant (some u) t = u == t

abbrev spent_in : Option Budget → Option ℕ → Float64 → ℕ → Float64
spent_in none start spent now = zero_f
spent_in (some b) start spent now =
    if same_instant start (period_start b now) then spent else zero_f

unfoldable pub spent_now : PoolKey → ℕ → Float64
spent_now k now = spent_in k.budget k.spent_period_start k.spent now

unfoldable pub hold_spent : PoolKey → Float64 → ℕ → PoolKey
hold_spent k spent start =
    if same_instant k.spent_period_start start && flt spent k.spent
    then k
    else record k { spent = spent; spent_period_start = some start }

abbrev under : Option Budget → Float64 → Bool
under none spent = true
under (some b) spent = flt spent b.amount

unfoldable pub within_budget : PoolKey → ℕ → Bool
within_budget k now = under k.budget (spent_now k now)

abbrev pub unexpired : Option ℕ → ℕ → Bool
unexpired none now = true
unexpired (some t) now = before now t

abbrev pub rested : Option ℕ → ℕ → Bool
rested none now = true
rested (some t) now = not (before now t)

unfoldable pub available : PoolKey → ℕ → Bool
available k now =
    k.is_active && unexpired k.expires_at now && rested k.exhausted_until now && within_budget k now

-- The three results of `TryConsumeUsage`.
pub record Consumed : Type 0 where
  pub ok : Bool
  pub did_reset : Bool
  pub window_start : ℕ

-- `UsageWindowStart == nil || now.Sub(*UsageWindowStart) >= window`
abbrev pub usage_window_over : ℤ → Option ℕ → ℕ → Bool
usage_window_over w none now = true
usage_window_over w (some start) now = leb_ℤ (seconds w) (since now start)

abbrev pub resets_at : Option ℤ → Option ℕ → ℕ → Bool
resets_at none start now = false
resets_at (some w) start now = ltb_ℤ (pos 0) w && usage_window_over w start now

abbrev pub usage_resets : PoolKey → ℕ → Bool
usage_resets k now = resets_at k.usage_window_seconds k.usage_window_start now

abbrev pub roll_usage : PoolKey → ℕ → PoolKey × Consumed
roll_usage k now =
    if usage_resets k now
    then (
      record k { usage_count = 0; usage_window_start = some now },
      record { ok = true; did_reset = true; window_start = now },
    )
    else (k, record { ok = true; did_reset = false; window_start = zero_time })

abbrev pub count_usage : ℤ → PoolKey × Consumed → PoolKey × Consumed
count_usage limit (k, r) =
    if reached k.usage_count limit
    then (k, record r { ok = false })
    else (record k { usage_count = suc k.usage_count }, r)

abbrev pub consume : PoolKey → ℕ → Option ℤ → PoolKey × Consumed
consume k now none = (k, record { ok = true; did_reset = false; window_start = zero_time })
consume k now (some limit) = count_usage limit (roll_usage k now)

unfoldable pub try_consume_usage : PoolKey → ℕ → PoolKey × Consumed
try_consume_usage k now = consume k now k.usage_limit

unfoldable pub has_feature : PoolKey → String → Bool
has_feature k feature = is_some (lookup feature k.features)

pub record RateInfo : Type 0 where
  pub used : ℕ
  pub limit : ℤ
  pub window_seconds : ℤ

abbrev used_now : Option RateCounter → FeatureLimit → ℕ → ℕ
used_now none fl now = 0
used_now (some rc) fl now = if ltb_ℤ (since now rc.window_start) (window fl) then rc.count else 0

abbrev rate_info : PoolKey → ℕ → String × FeatureLimit → String × RateInfo
rate_info k now (feature, fl) = (
  feature,
  record {
    used = used_now (lookup feature k.rate_counters) fl now;
    limit = fl.rate_limit;
    window_seconds = fl.window_seconds;
  },
)

unfoldable pub rate_usage : PoolKey → ℕ → Dict RateInfo
rate_usage k now = map (rate_info k now) k.features
