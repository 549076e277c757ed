-- ===== src/Keypool/Reload.antt =====
-- `ReloadKeys` of internal/keypool/manager.go, with what it calls. The three reads of the database are
-- arguments, none where the read failed. The keys are loaded under the manager's lock; a key that stays
-- in the pool is the same object, so it keeps its counters. The rows
-- are read by their primary key, so no id comes twice.
pub mod Kept
use keypooler.Base.{String, Bool, true, false, Option, none, some, List, [], ◌∷◌, or_else}
use keypooler.Base.Dict.{Dict, lookup, insert}
use keypooler.Float64.{zero_f}
use keypooler.Json.{end_of}
use keypooler.Crypto.{Bytes, Sealer, Result, ok, err, open_sealed}
use keypooler.Db.{Key, TierFeature, KeySecret}
use keypooler.Keypool.Types.{FeatureLimit, PoolKey, load}
use keypooler.Keypool.Manager.{Manager}

abbrev limit_of : TierFeature → FeatureLimit
limit_of f = record { rate_limit = f.rate_limit; window_seconds = f.window_seconds }

-- The loop of `featureLimits`, over the map that it fills.
unfoldable pub fill_limits : Dict FeatureLimit → List TierFeature → Dict FeatureLimit
fill_limits limits [] = limits
fill_limits limits (f ∷ fs) = fill_limits (insert f.feature (limit_of f) limits) fs

unfoldable pub feature_limits : List TierFeature → Dict FeatureLimit
unfolding fill_limits
feature_limits fs = fill_limits [] fs

abbrev add_secret : Dict Bytes → String → Result Bytes → Dict Bytes
add_secret secrets name (ok plaintext) = insert name plaintext secrets
add_secret secrets name (err e) = secrets

-- The loop of `openSecrets`: a secret that does not open is left out.
unfoldable pub fill_secrets : Sealer → Dict Bytes → List KeySecret → Dict Bytes
fill_secrets sealer secrets [] = secrets
fill_secrets sealer secrets (s ∷ rows) =
    fill_secrets sealer (add_secret secrets s.name (open_sealed sealer s.value)) rows

unfoldable pub open_secrets : Sealer → List KeySecret → Dict Bytes
unfolding fill_secrets
open_secrets sealer rows = fill_secrets sealer [] rows

-- `existing`, filled from the keys of the pool.
unfoldable pub by_id : Dict PoolKey → List PoolKey → Dict PoolKey
by_id existing [] = existing
by_id existing (k ∷ ks) = by_id (insert k.id k existing) ks

-- `&PoolKey{UsageCount: …, UsageWindowStart: …}`
abbrev pub new_key : Key → PoolKey
new_key row = record {
  id = "";
  name = "";
  key_value = [];
  tier_id = "";
  is_active = false;
  expires_at = none;
  usage_limit = none;
  usage_count = row.usage_count;
  usage_window_seconds = none;
  usage_window_start = row.usage_window_start;
  exhausted_until = none;
  budget = none;
  spent = zero_f;
  spent_period_start = none;
  balance = none;
  metadata = end_of;
  secrets = [];
  features = [];
  rate_counters = [];
}

abbrev pub TierFeatures : Type 0
TierFeatures = Dict (List TierFeature)

abbrev pub KeySecrets : Type 0
KeySecrets = Dict (List KeySecret)

abbrev pub limits_of : TierFeatures → Key → Dict FeatureLimit
limits_of by_tier row = feature_limits (or_else (lookup row.tier_id by_tier) [])

-- One row, loaded into the key that the pool has for it, or into a new one.
abbrev pub loaded : Sealer → Dict PoolKey → KeySecrets → Key → Dict FeatureLimit → PoolKey
loaded sealer existing by_key row features =
    load (or_else (lookup row.id existing) (new_key row)) row features
      (open_secrets sealer (or_else (lookup row.id by_key) []))

abbrev pub add_loaded :
    Sealer → Dict PoolKey → KeySecrets → Key → Dict FeatureLimit → List PoolKey → List PoolKey
add_loaded sealer existing by_key row [] rest = rest
add_loaded sealer existing by_key row (f ∷ fs) rest =
    loaded sealer existing by_key row (f ∷ fs) ∷ rest

-- The loop over the rows: a key whose tier has no features is skipped.
unfoldable pub load_rows :
    Sealer → Dict PoolKey → TierFeatures → KeySecrets → List Key → List PoolKey
load_rows sealer existing by_tier by_key [] = []
load_rows sealer existing by_tier by_key (row ∷ rows) =
    add_loaded sealer existing by_key row (limits_of by_tier row)
      (load_rows sealer existing by_tier by_key rows)

-- The manager afterwards, and whether it worked.
unfoldable pub reload_keys :
    Sealer → Manager → Option (List Key) → Option TierFeatures → Option KeySecrets → Manager × Bool
reload_keys sealer m (some rows) (some by_tier) (some by_key) =
    (record m { keys = load_rows sealer (by_id [] m.keys) by_tier by_key rows }, true)
reload_keys sealer m rows by_tier by_key = (m, false)
