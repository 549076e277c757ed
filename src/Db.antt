-- ===== src/Db.antt =====
-- The rows of internal/db/adapter.go. An int that the program only counts up from 0 is a natural,
-- any other a ℤ; a pointer is an Option.
pub mod Postgres
pub mod Adapter
pub mod Store
pub mod Migrations
use keypooler.Base.{ℕ, String, Bool, Option}
use keypooler.Base.Int.{ℤ}
use keypooler.Float64.{Float64}
use keypooler.Json.{Members}
use keypooler.Crypto.{Bytes}

pub record Budget : Type 0 where
  pub amount : Float64
  pub unit : String
  pub reset_day : Option ℤ

pub record Tier : Type 0 where
  pub id : String
  pub name : String
  pub description : String
  pub created_at : ℕ

pub record TierFeature : Type 0 where
  pub tier_id : String
  pub feature : String
  pub rate_limit : ℤ
  pub window_seconds : ℤ

pub record Key : Type 0 where
  pub id : String
  pub name : String
  pub key_value : Bytes
  pub tier_id : String
  pub is_active : Bool
  pub expires_at : Option ℕ
  pub usage_limit : Option ℤ
  pub usage_count : ℕ
  pub usage_window_seconds : Option ℤ
  pub usage_window_start : Option ℕ
  pub exhausted_until : Option ℕ
  pub budget : Option Budget
  pub spent : Float64
  pub spent_period_start : Option ℕ
  pub metadata : Members
  pub created_at : ℕ

pub record KeySecret : Type 0 where
  pub key_id : String
  pub name : String
  pub value : Bytes

pub record SpendEvent : Type 0 where
  pub id : String
  pub key_id : String
  pub consumer_id : String
  pub amount : Float64
  pub unit : String
  pub request_id : String
  pub created_at : ℕ

pub record Consumer : Type 0 where
  pub id : String
  pub name : String
  pub token_hash : String
  pub description : String
  pub is_active : Bool
  pub created_at : ℕ

-- The results of `RecordSpend`: what the key has spent in the period and whether the request was a duplicate, or an error.
pub data SpendResult : Type 0 where
  recorded : Float64 → Bool → SpendResult
  key_not_found failed : SpendResult

pub record UsageEvent : Type 0 where
  pub id : String
  pub key_id : String
  pub consumer_id : String
  pub feature : String
  pub created_at : ℕ
