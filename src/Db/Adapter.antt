-- ===== src/Db/Adapter.antt =====
-- The interface DBAdapter of internal/db/adapter.go, over a state `S` of the database. A read is none where
-- it fails; a write returns the database after it, and its error.
use keypooler.Base.{ℕ, String, Bool, Option, List}
use keypooler.Base.Dict.{Dict}
use keypooler.Db.{
  Tier, TierFeature, Key, KeySecret, Budget, SpendEvent, SpendResult, Consumer, UsageEvent,
}

-- ErrDuplicate, ErrTierInUse, ErrTierNotFound and ErrKeyNotFound, and any other error.
pub data WriteError : Type 0 where
  already_exists tier_in_use tier_missing key_missing other_error : WriteError

pub record Adapter (S : Type 0) : Type 0 where
  pub create_tier : S → Tier → List TierFeature → S × Option WriteError
  pub get_tier_by_name : S → String → Option (Option Tier)
  pub get_all_tiers : S → Option (List Tier)
  pub update_tier_description : S → String → String → S × Option WriteError
  pub set_tier_features : S → String → List TierFeature → S × Option WriteError
  pub delete_tier : S → String → S × Option WriteError
  pub tier_features_by_tier : S → Option (Dict (List TierFeature))
  pub create_key : S → Key → List KeySecret → S × Option WriteError
  pub get_all_keys : S → Option (List Key)
  pub delete_key : S → String → S × Option WriteError
  pub add_usage : S → String → ℕ → S × Bool
  pub reset_usage_window : S → String → ℕ → ℕ → S × Bool
  pub set_key_exhausted : S → String → ℕ → S × Bool
  pub update_key_budget : S → String → Option Budget → S × Option WriteError
  pub record_spend : S → SpendEvent → Option ℕ → S × SpendResult
  pub key_secrets_by_key : S → Option (Dict (List KeySecret))
  pub create_consumer : S → Consumer → S × Option WriteError
  pub get_consumer_by_token_hash : S → String → Option (Option Consumer)
  pub get_all_consumers : S → Option (List Consumer)
  pub delete_consumer : S → String → S × Option WriteError
  pub add_consumer_scope : S → String → String → S × Option WriteError
  pub get_consumer_scopes : S → String → Option (List String)
  pub consumer_scopes_by_consumer : S → Option (Dict (List String))
  pub record_usage_events : S → List UsageEvent → S × Bool
  pub list_usage_events : S → ℕ → Option (List UsageEvent)
