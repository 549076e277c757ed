-- ===== src/Db/Store.antt =====
-- The tables of src/migrations as lists of rows, oldest first, and the SQL that the statements of internal/db share. A
-- statement is atomic, and so is a transaction. What the database checks (keys, references) is written out where a
-- statement can offend against it.
pub mod Tiers
pub mod Keys
pub mod Consumers
pub mod Features
pub mod Created
pub mod References
pub mod Implementation
pub mod Callers
pub mod Counting
use keypooler.Base.{
  ℕ, ◌+◌, String, Bool, true, false, not, ◌||◌, Option, none, some, List, [], ◌∷◌, ◌++◌, str_eq,
  if◌then◌else◌,
}
use keypooler.Base.Int.{ℤ}
use keypooler.Base.Dict.{Dict, lookup, insert}
use keypooler.Crypto.{Bytes}
use keypooler.Db.{Tier, TierFeature, KeySecret, Consumer, SpendEvent}
use keypooler.Db.Adapter.{WriteError, already_exists, other_error}
use keypooler.Db.Postgres.{UsageRow}
use keypooler.Db.Postgres.Spend.{SpendRow, Ending, works, refuses, loses_reply}

-- A row of `keys`: the usage columns and those of the budget are records of their own.
pub record KeyRow : Type 0 where
  pub id : String
  pub name : String
  pub key_value : Bytes
  pub tier_id : String
  pub is_active : Bool
  pub expires_at : Option ℕ
  pub usage_limit : Option ℤ
  pub usage_window_seconds : Option ℤ
  pub usage : UsageRow
  pub exhausted_until : Option ℕ
  pub metadata_json : String
  pub created_at : ℕ
  pub spending : SpendRow

pub record ScopeRow : Type 0 where
  pub consumer_id : String
  pub tier_id : String

pub record EventRow : Type 0 where
  pub id : String
  pub key_id : String
  pub consumer_id : Option String
  pub feature : String
  pub created_at : ℕ

pub record Store : Type 0 where
  pub tiers : List Tier
  pub tier_features : List TierFeature
  pub keys : List KeyRow
  pub key_secrets : List KeySecret
  pub consumers : List Consumer
  pub consumer_scopes : List ScopeRow
  pub usage_events : List EventRow
  pub spend_events : List SpendEvent

module _ {A : Type 0} where
  unfoldable pub any : (A → Bool) → List A → Bool
  any p [] = false
  any p (x ∷ xs) = p x || any p xs

  -- `DELETE … WHERE p`
  unfoldable pub delete_where : (A → Bool) → List A → List A
  delete_where p [] = []
  delete_where p (x ∷ xs) = let rest = delete_where p xs in if p x then rest else x ∷ rest

  -- `SELECT … WHERE p`
  unfoldable pub select_where : (A → Bool) → List A → List A
  select_where p [] = []
  select_where p (x ∷ xs) = let rest = select_where p xs in if p x then x ∷ rest else rest

  -- `UPDATE … SET f WHERE p`
  unfoldable pub update_where : (A → Bool) → (A → A) → List A → List A
  update_where p f [] = []
  update_where p f (x ∷ xs) = (if p x then f x else x) ∷ update_where p f xs

  unfoldable pub first : List A → Option A
  first [] = none
  first (x ∷ xs) = some x

  -- `ORDER BY`, by the test whether a row may stand before another; rows that may stand either way keep their order.
  unfoldable pub place : (A → A → Bool) → A → List A → List A
  place before x [] = x ∷ []
  place before x (y ∷ ys) =
      let rest = place before x ys in if before x y then x ∷ y ∷ ys else y ∷ rest

  unfoldable pub order_by : (A → A → Bool) → List A → List A
  order_by before [] = []
  order_by before (x ∷ xs) = place before x (order_by before xs)

  -- `by[k] = append(by[k], v)` over the rows.
  unfoldable pub group : {B : Type 0} → (A → String × B) → Dict (List B) → List A → Dict (List B)
  group f by [] = by
  group f by (x ∷ xs) =
      let (k, v) = f x in
      group f (insert k ((elim (lookup k by) [ none ↦ [] | some vs ↦ vs ]) ++ (v ∷ [])) by) xs

-- The end of a write: what it made of the tables, and its error, which keeps the tables as they were. Where
-- nothing reaches the database, or the answer is lost, the error is another one.
abbrev pub commit : Ending → Store → Store × Option WriteError → Store × Option WriteError
commit refuses st done = (st, some other_error)
commit works st (st', none) = (st', none)
commit works st (st', some e) = (st, some e)
commit loses_reply st (st', none) = (st', some other_error)
commit loses_reply st (st', some e) = (st, some other_error)

-- A read that fails gives none.
abbrev pub read : {A : Type 0} → Bool → A → Option A
read false a = none
read true a = some a

-- What the statements are given: whether a read works and how a write ends, the order of the text columns, `now()`.
pub record Weather : Type 0 where
  pub reading : Bool
  pub writing : Ending
  pub text_before : String → String → Bool
  pub now : ℕ
