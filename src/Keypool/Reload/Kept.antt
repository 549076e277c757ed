-- ===== src/Keypool/Reload/Kept.antt =====
-- What a reload leaves of the pool.
use keypooler.Base.{
  ◌≡◌, String, Bool, true, false, Option, none, some, List, [], ◌∷◌, str_eq, is_some, or_else,
  if◌then◌else◌,
}
use keypooler.Base.Dict.{Dict, lookup}
use keypooler.Crypto.{Sealer}
use keypooler.Db.{Key}
use keypooler.Keypool.Types.{PoolKey}
use keypooler.Keypool.Manager.{Manager}
use keypooler.Keypool.Reload.{TierFeatures, KeySecrets, new_key, limits_of, open_secrets}

-- The first key of the id.
abbrev pub held : String → List PoolKey → Option PoolKey
held id [] = none
held id (k ∷ ks) = if str_eq k.id id then some k else held id ks

abbrev pub DistinctIds : List PoolKey → Type 0
DistinctIds [] = Unit
DistinctIds (k ∷ ks) = (is_some (held k.id ks) ≡ false) × DistinctIds ks

abbrev either : Option PoolKey → Option PoolKey → Option PoolKey
either none x = x
either (some k) x = some k

-- The key has everything of its row that a reload brings, the secrets of its id that open, and its tier's features.
pub record Brought (sealer : Sealer) (by_tier : TierFeatures) (by_key : KeySecrets) (row : Key)
    (k : PoolKey) : Type 0 where
  pub id : k.id ≡ row.id
  pub name : k.name ≡ row.name
  pub key_value : k.key_value ≡ row.key_value
  pub tier_id : k.tier_id ≡ row.tier_id
  pub is_active : k.is_active ≡ row.is_active
  pub expires_at : k.expires_at ≡ row.expires_at
  pub exhausted_until : k.exhausted_until ≡ row.exhausted_until
  pub usage_limit : k.usage_limit ≡ row.usage_limit
  pub usage_window_seconds : k.usage_window_seconds ≡ row.usage_window_seconds
  pub budget : k.budget ≡ row.budget
  pub spent : k.spent ≡ row.spent
  pub spent_period_start : k.spent_period_start ≡ row.spent_period_start
  pub metadata : k.metadata ≡ row.metadata
  pub secrets : k.secrets ≡ open_secrets sealer (or_else (lookup row.id by_key) [])
  pub features : k.features ≡ limits_of by_tier row

-- What is counted in memory, and the balance.
pub record CountsAs (j k : PoolKey) : Type 0 where
  pub usage_count : k.usage_count ≡ j.usage_count
  pub usage_window_start : k.usage_window_start ≡ j.usage_window_start
  pub rate_counters : k.rate_counters ≡ j.rate_counters
  pub balance : k.balance ≡ j.balance

-- The pool `ks` after a reload of the rows, from the pool `old`: row by row, the key is skipped for a tier without
-- features, stays with its counts, or enters with those of the row.
pub data Reloads (sealer : Sealer) (old : List PoolKey) (by_tier : TierFeatures)
    (by_key : KeySecrets) : List Key → List PoolKey → Type 0 where
  done : Reloads sealer old by_tier by_key [] []
  skips :
      {row : Key} {rows : List Key} {ks : List PoolKey}
      → limits_of by_tier row ≡ []
      → Reloads sealer old by_tier by_key rows ks
      → Reloads sealer old by_tier by_key (row ∷ rows) ks
  stays :
      {row : Key} {rows : List Key} {j k : PoolKey} {ks : List PoolKey}
      → held row.id old ≡ some j
      → Brought sealer by_tier by_key row k
      → CountsAs j k
      → Reloads sealer old by_tier by_key rows ks
      → Reloads sealer old by_tier by_key (row ∷ rows) (k ∷ ks)
  enters :
      {row : Key} {rows : List Key} {k : PoolKey} {ks : List PoolKey}
      → held row.id old ≡ none
      → Brought sealer by_tier by_key row k
      → CountsAs (new_key row) k
      → Reloads sealer old by_tier by_key rows ks
      → Reloads sealer old by_tier by_key (row ∷ rows) (k ∷ ks)

-- Whether a reload worked, and the pool after it.
abbrev pub IsReload :
    Sealer
    → Manager
    → Option (List Key)
    → Option TierFeatures
    → Option KeySecrets
    → Manager × Bool
    → Type 0
IsReload sealer m (some rows) (some by_tier) (some by_key) (m', worked) =
    (worked ≡ true)
    × Reloads sealer m.keys by_tier by_key rows m'.keys
    × (m'.next ≡ m.next)
    × (m'.usage ≡ m.usage)
IsReload sealer m rows by_tier by_key (m', worked) = (worked ≡ false) × (m' ≡ m)
