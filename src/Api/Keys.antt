-- ===== src/Api/Keys.antt =====
-- `AddKey`, `ListKeys` and `DeleteKey` of internal/api/keys.go.
use keypooler.Base.{
  ℕ, suc, String, Bool, true, false, ◌||◌, Option, none, some, List, [], ◌∷◌, map, str_eq,
  if◌then◌else◌, or_else,
}
use keypooler.Base.Int.{ℤ}
use keypooler.Base.Dict.{Dict}
use keypooler.Float64.{zero_f}
use keypooler.Json.{Members, end_of}
use keypooler.Crypto.{Bytes, Sealer, Result, ok, err, seal}
use keypooler.Db.{Budget, Key, KeySecret, Tier}
use keypooler.Keypool.Budget.{remaining}
use keypooler.Keypool.Types.{RateInfo}
use keypooler.Keypool.Upkeep.{KeyHealth, get_health_status}
use keypooler.Api.Auth.{internal_error}
use keypooler.Api.Server.{
  Setup, Request, Handler, Response, RateUsage, ListedKey, pure, reject, ◌>>=◌, ◌>>◌, reject_if,
  need, gets, answer, write, reload, budget_view_of, balance_view_of, format_or_nil, added_key,
  listed_keys, status_body, bad_request, not_found, always,
}
use keypooler.Api.Budgets.{BudgetBody, valid_budget}

pub record AddKeyBody : Type 0 where
  pub name : String
  pub key : Bytes
  pub tier : String
  pub expires_at : Option String
  pub usage_limit : Option ℤ
  pub usage_window_seconds : Option ℤ
  pub metadata : Option Members
  pub secrets : Dict Bytes
  pub budget : Option BudgetBody

pub record NewKey : Type 0 where
  pub body : AddKeyBody
  pub expires_at : Option ℕ
  pub budget : Option Budget

abbrev is_empty : Bytes → Bool
is_empty [] = true
is_empty (c ∷ cs) = false

abbrev put_secret :
    String → String → Result Bytes → Result (List KeySecret) → Result (List KeySecret)
put_secret id name (err e) rest = err e
put_secret id name (ok value) (err e) = err e
put_secret id name (ok value) (ok rows) =
    ok (record { key_id = id; name = name; value = value } ∷ rows)

-- The loop of `sealedRows`; the secret numbered n is sealed under the n-th random bytes.
unfoldable pub seal_secrets :
    Sealer → (ℕ → Option Bytes) → ℕ → String → Dict Bytes → Result (List KeySecret)
seal_secrets sealer random n id [] = ok []
seal_secrets sealer random n id ((name, value) ∷ secrets) =
    put_secret id name (seal sealer (random n) value)
      (seal_secrets sealer random (suc n) id secrets)

abbrev pub key_row : NewKey → String → String → Bytes → Key
key_row k id tier_id sealed = record {
  id = id;
  name = k.body.name;
  key_value = sealed;
  tier_id = tier_id;
  is_active = true;
  expires_at = k.expires_at;
  usage_limit = k.body.usage_limit;
  usage_count = 0;
  usage_window_seconds = k.body.usage_window_seconds;
  usage_window_start = none;
  exhausted_until = none;
  budget = k.budget;
  spent = zero_f;
  spent_period_start = none;
  metadata = or_else k.body.metadata end_of;
  created_at = 0;
}

abbrev with_secrets :
    NewKey
    → String
    → String
    → Result Bytes
    → Result (List KeySecret)
    → Result (Key × List KeySecret)
with_secrets k id tier_id (err e) rows = err e
with_secrets k id tier_id (ok sealed) (err e) = err e
with_secrets k id tier_id (ok sealed) (ok rows) = ok (key_row k id tier_id sealed, rows)

unfoldable pub sealed_rows :
    Sealer → (ℕ → Option Bytes) → String → NewKey → String → Result (Key × List KeySecret)
unfolding seal_secrets
sealed_rows sealer random id k tier_id =
    with_secrets k id tier_id (seal sealer (random 0) k.body.key)
      (seal_secrets sealer random 1 id k.body.secrets)

abbrev pub rate_usage_of : String × RateInfo → String × RateUsage
rate_usage_of (feature, info) =
    (feature, record { used = info.used; limit = info.limit; window_seconds = info.window_seconds })

module _ {S : Type 0} (setup : Setup S) where
  unfoldable pub listed_key : KeyHealth → ListedKey
  listed_key h = record {
    id = h.id;
    name = h.name;
    tier_id = h.tier_id;
    is_active = h.is_active;
    expires_at = format_or_nil setup.format_time h.expires_at;
    exhausted_until = format_or_nil setup.format_time h.exhausted_until;
    usage_limit = h.usage_limit;
    usage_count = h.usage_count;
    budget = budget_view_of h.budget;
    spent = h.spent;
    remaining = remaining setup.subtract h.budget h.spent;
    resets_at = format_or_nil setup.format_time h.resets_at;
    balance = balance_view_of setup.format_time h.balance;
    metadata = h.metadata;
    secret_names = h.secret_names;
    usage = map rate_usage_of h.usage;
  }

  unfoldable pub list_keys : Request → Handler S Response
  list_keys req = do
    statuses ← gets (λ sv. get_health_status sv.pool req.now req.clock)
    answer 200 (listed_keys (map listed_key statuses))

  -- `GetTierByName`, with an error for a read that fails and for no such tier.
  unfoldable pub tier_named : String → Handler S Tier
  tier_named name sv = elim (setup.adapter.get_tier_by_name sv.db name) [
    | none ↦ reject internal_error sv
    | some found ↦ need not_found found sv
  ]

  abbrev expiry : Option String → Handler S (Option ℕ)
  expiry none = pure none
  expiry (some text) =
      if str_eq text ""
      then pure none
      else (need bad_request (setup.parse_time text) >>= λ t. pure (some t))

  unfoldable pub decode_add_key : Option AddKeyBody → Handler S NewKey
  unfolding valid_budget
  decode_add_key decoded = do
    b ← need bad_request decoded
    reject_if (str_eq b.name "" || is_empty b.key || str_eq b.tier "") bad_request
    budget ← valid_budget b.budget
    expires_at ← expiry b.expires_at
    pure (record { body = b; expires_at = expires_at; budget = budget })

  abbrev sealed : Result (Key × List KeySecret) → Handler S (Key × List KeySecret)
  sealed (ok rows) = pure rows
  sealed (err e) = reject internal_error

  unfoldable pub add_key : Request → Option AddKeyBody → Handler S Response
  unfolding decode_add_key
  add_key req decoded = do
    k ← decode_add_key decoded
    tier ← tier_named k.body.tier
    rows ← sealed (sealed_rows setup.sealer req.random req.fresh_id k tier.id)
    write (λ db. setup.adapter.create_key db rows.0 rows.1) (always internal_error)
    reload setup
    answer 201 (
        added_key (record {
          id = rows.0.id;
          name = rows.0.name;
          tier = k.body.tier;
          expires_at = k.body.expires_at;
          usage_limit = k.body.usage_limit;
          usage_window_seconds = k.body.usage_window_seconds;
          metadata = rows.0.metadata;
          secret_names = map (λ (s : KeySecret). s.name) rows.1;
        }))

  unfoldable pub delete_key : String → Handler S Response
  delete_key id = do
    write (λ db. setup.adapter.delete_key db id) (always internal_error)
    reload setup
    answer 200 (status_body "deleted")
