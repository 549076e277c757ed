-- ===== src/Keypool/Upkeep.antt =====
-- The other operations of Manager, in internal/keypool/manager.go and internal/keypool/balance.go:
-- `TierOf`, `MarkExhausted`, `RecordSpend`, `PoolSize`, `GetHealthStatus`, `Holding` and `SetBalance`.
-- `S` is the state of the database behind `keypool.Store`.
use keypooler.Base.{
  ℕ, suc, String, Bool, true, false, not, ◌||◌, Option, none, some, List, [], ◌∷◌, map, str_eq,
  if◌then◌else◌, length, set,
}
use keypooler.Base.Int.{ℤ}
use keypooler.Base.Dict.{Dict}
use keypooler.Float64.{Float64, zero_f}
use keypooler.Json.{Members}
use keypooler.Crypto.{Bytes, Sealer, Result, ok, err, open_sealed}
use keypooler.Db.{Budget, SpendEvent, SpendResult, recorded, key_not_found, failed}
use keypooler.Keypool.Budget.{period_start, next_reset}
use keypooler.Keypool.Types.{
  Balance, PoolKey, RateInfo, has_feature, spent_now, hold_spent, rate_usage,
}
use keypooler.Keypool.Manager.{
  Manager, Answer, good, bad, unknown_key, unit_mismatch, store_failed, find,
}

unfoldable pub tier_of : Manager → String → Option String
tier_of m id = elim (find id m.keys) [ none ↦ none | some (p, k) ↦ some k.tier_id ]

unfoldable pub set_balance : Manager → String → Balance → Manager
set_balance m id b = elim (find id m.keys) [
  | none ↦ m
  | some (p, k) ↦ record m { keys = set m.keys p (record k { balance = some b }) }
]

pub record Held : Type 0 where
  pub id : String
  pub key_value : Bytes

abbrev add_held : PoolKey → Result Bytes → List Held → List Held
add_held k (ok value) held = record { id = k.id; key_value = value } ∷ held
add_held k (err e) held = held

-- The loop of `Holding`: a key whose value does not open is left out.
unfoldable pub holding : Sealer → String → List PoolKey → List Held
holding sealer feature [] = []
holding sealer feature (k ∷ ks) =
    let rest = holding sealer feature ks in
    if not k.is_active || not (has_feature k feature)
    then rest
    else add_held k (open_sealed sealer k.key_value) rest

-- `keypool.Store` past the reads: the database after the call, and the result.
pub record SpendStore (S : Type 0) : Type 0 where
  pub set_key_exhausted : S → String → ℕ → S × Bool
  pub record_spend : S → SpendEvent → Option ℕ → S × SpendResult

pub record Spend : Type 0 where
  pub key_id : String
  pub budget : Option Budget
  pub spent : Float64
  pub resets_at : Option ℕ
  pub duplicate : Bool

module _ {S : Type 0} (store : SpendStore S) where
  -- A failed write is logged, and the mark stays in memory.
  abbrev pub mark_found : S → Manager → String → ℕ → Option (ℕ × PoolKey) → S × Manager × Bool
  mark_found s m id until none = (s, m, false)
  mark_found s m id until (some (p, k)) = (
    (store.set_key_exhausted s id until).0,
    record m { keys = set m.keys p (record k { exhausted_until = some until }) },
    true,
  )

  unfoldable pub mark_exhausted : S → Manager → String → ℕ → S × Manager × Bool
  mark_exhausted s m id until = mark_found s m id until (find id m.keys)

  abbrev wrong_unit : Option Budget → String → Bool
  wrong_unit none unit = false
  wrong_unit (some b) unit = not (str_eq unit b.unit)

  abbrev start_of : Option Budget → ℕ → Option ℕ
  start_of none now = none
  start_of (some b) now = some (period_start b now)

  -- The end of `RecordSpend`, on the key at position p as it is when the store has answered.
  abbrev settle_spend :
      Manager → String → ℕ → PoolKey → Option Budget → ℕ → SpendResult → Manager × Answer Spend
  settle_spend m id p k budget now key_not_found = (m, bad unknown_key)
  settle_spend m id p k budget now failed = (m, bad store_failed)
  settle_spend m id p k none now (recorded spent duplicate) = (
    m,
    good (record {
      key_id = id;
      budget = none;
      spent = zero_f;
      resets_at = none;
      duplicate = duplicate;
    }),
  )
  settle_spend m id p k (some b) now (recorded spent duplicate) = (
    record m { keys = set m.keys p (hold_spent k spent (period_start b now)) },
    good (record {
      key_id = id;
      budget = some b;
      spent = spent;
      resets_at = next_reset b now;
      duplicate = duplicate;
    }),
  )

  -- `RecordSpend` with no other call on the manager between its two locks.
  abbrev pub spend_in_unit :
      S → Manager → SpendEvent → ℕ → ℕ → PoolKey → Bool → S × Manager × Answer Spend
  spend_in_unit s m event now p k true = (s, m, bad unit_mismatch)
  spend_in_unit s m event now p k false =
      let (s', result) = store.record_spend s event (start_of k.budget now) in
      let (m', answer) = settle_spend m event.key_id p k k.budget now result in (s', m', answer)

  abbrev pub spend_found :
      S → Manager → SpendEvent → ℕ → Option (ℕ × PoolKey) → S × Manager × Answer Spend
  spend_found s m event now none = (s, m, bad unknown_key)
  spend_found s m event now (some (p, k)) =
      spend_in_unit s m event now p k (wrong_unit k.budget event.unit)

  unfoldable pub record_spend : S → Manager → SpendEvent → ℕ → S × Manager × Answer Spend
  record_spend s m event now = spend_found s m event now (find event.key_id m.keys)

unfoldable pub pool_size : Manager → ℕ
pool_size m = length m.keys

pub record KeyHealth : Type 0 where
  pub id : String
  pub name : String
  pub tier_id : String
  pub is_active : Bool
  pub expires_at : Option ℕ
  pub exhausted_until : Option ℕ
  pub usage_limit : Option ℤ
  pub usage_count : ℕ
  pub budget : Option Budget
  pub spent : Float64
  pub resets_at : Option ℕ
  pub balance : Option Balance
  pub metadata : Members
  pub secret_names : List String
  pub usage : Dict RateInfo

abbrev resets_of : Option Budget → ℕ → Option ℕ
resets_of none now = none
resets_of (some b) now = next_reset b now

-- One reading of the clock serves every key, but `RateUsage` takes its own: here `rate_now`.
unfoldable pub key_health : ℕ → ℕ → PoolKey → KeyHealth
key_health now rate_now k = record {
  id = k.id;
  name = k.name;
  tier_id = k.tier_id;
  is_active = k.is_active;
  expires_at = k.expires_at;
  exhausted_until = k.exhausted_until;
  usage_limit = k.usage_limit;
  usage_count = k.usage_count;
  budget = k.budget;
  spent = spent_now k now;
  resets_at = resets_of k.budget now;
  balance = k.balance;
  metadata = k.metadata;
  secret_names = map (λ (s : String × Bytes). s.0) k.secrets;
  usage = rate_usage k rate_now;
}

-- `rate_clock n` is the reading for the key at position n.
unfoldable pub health_from : ℕ → (ℕ → ℕ) → ℕ → List PoolKey → List KeyHealth
unfolding key_health
health_from now rate_clock i [] = []
health_from now rate_clock i (k ∷ ks) =
    key_health now (rate_clock i) k ∷ health_from now rate_clock (suc i) ks

unfoldable pub get_health_status : Manager → ℕ → (ℕ → ℕ) → List KeyHealth
unfolding health_from
get_health_status m now rate_clock = health_from now rate_clock 0 m.keys
