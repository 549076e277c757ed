-- ===== src/Api/Server.antt =====
-- The server of internal/api/handlers.go and the answers of internal/api/responses.go. A handler takes the server and leaves
-- it changed, with an answer: `accepted`, or `rejected` with the status of `writeError`, whose message is left
-- out. What is changed before a rejection stays changed. A handler runs with no other call in between.
use keypooler.Base.{
  ℕ, String, Bool, true, Option, none, some, List, [], if◌then◌else◌, is_some, or_else,
}
use keypooler.Base.Int.{ℤ}
use keypooler.Base.Dict.{Dict}
use keypooler.Float64.{Float64}
use keypooler.Json.{Members}
use keypooler.Crypto.{Bytes, Sealer}
use keypooler.Db.{Budget, Consumer}
use keypooler.Db.Adapter.{Adapter, WriteError}
use keypooler.Writeback.{event}
use keypooler.Keypool.Types.{Balance}
use keypooler.Keypool.Manager.{Manager}
use keypooler.Keypool.Reload.{reload_keys}
use keypooler.Api.Auth.{
  Reply, accepted, rejected, KeyCaller, AuthCache, Directory, Conditions, bearer_token,
  resolve_key_caller,
}

abbrev pub bad_request : ℕ
bad_request = 400

abbrev pub forbidden : ℕ
forbidden = 403

abbrev pub not_found : ℕ
not_found = 404

abbrev pub conflict : ℕ
conflict = 409

abbrev pub too_many_requests : ℕ
too_many_requests = 429

-- A time in an answer is the text of RFC 3339, which the server's `format_time` gives.
pub record DrawnKey : Type 0 where
  pub key_id : String
  pub value : Bytes
  pub metadata : Members
  pub secrets : Dict Bytes

pub record AddedKey : Type 0 where
  pub id : String
  pub name : String
  pub tier : String
  pub expires_at : Option String
  pub usage_limit : Option ℤ
  pub usage_window_seconds : Option ℤ
  pub metadata : Members
  pub secret_names : List String

pub record RateUsage : Type 0 where
  pub used : ℕ
  pub limit : ℤ
  pub window_seconds : ℤ

pub record BudgetView : Type 0 where
  pub amount : Float64
  pub unit : String
  pub reset_day : Option ℤ

pub record BalanceView : Type 0 where
  pub used : Float64
  pub limit : Float64
  pub unit : String
  pub resets_at : Option String
  pub checked_at : String

pub record ListedKey : Type 0 where
  pub id : String
  pub name : String
  pub tier_id : String
  pub is_active : Bool
  pub expires_at : Option String
  pub exhausted_until : Option String
  pub usage_limit : Option ℤ
  pub usage_count : ℕ
  pub budget : Option BudgetView
  pub spent : Float64
  pub remaining : Option Float64
  pub resets_at : Option String
  pub balance : Option BalanceView
  pub metadata : Members
  pub secret_names : List String
  pub usage : Dict RateUsage

pub record SpendRecorded : Type 0 where
  pub key_id : String
  pub spent : Float64
  pub budget : Option BudgetView
  pub remaining : Option Float64
  pub resets_at : Option String
  pub duplicate : Bool

pub record FeatureLimitBody : Type 0 where
  pub rate_limit : ℤ
  pub window_seconds : ℤ

pub record TierView : Type 0 where
  pub id : String
  pub name : String
  pub description : String
  pub features : Dict FeatureLimitBody

pub record ListedConsumer : Type 0 where
  pub id : String
  pub name : String
  pub description : String
  pub is_active : Bool
  pub scopes : List String

pub record ListedEvent : Type 0 where
  pub key_id : String
  pub consumer_id : String
  pub feature : String
  pub created_at : String

-- The bodies of the answers that are no errors.
pub data Body : Type 0 where
  status_body : String → Body
  pool_health : ℕ → Bool → Body
  drawn_key : DrawnKey → Body
  added_key : AddedKey → Body
  listed_keys : List ListedKey → Body
  budget_set : String → Option BudgetView → Body
  spend_recorded : SpendRecorded → Body
  exhausted_key : String → String → Body
  created_consumer : String → String → Bytes → Body
  listed_consumers : List ListedConsumer → Body
  granted_scope : String → String → Body
  listed_events : List ListedEvent → Body
  tier_view : TierView → Body
  tier_views : List TierView → Body

pub record Response : Type 0 where
  pub status : ℕ
  pub body : Body

unfoldable pub budget_view_of : Option Budget → Option BudgetView
budget_view_of none = none
budget_view_of (some b) =
    some (record { amount = b.amount; unit = b.unit; reset_day = b.reset_day })

-- `rfc3339OrNil`, over `rfc3339`.
unfoldable pub format_or_nil : (ℕ → String) → Option ℕ → Option String
format_or_nil format_time none = none
format_or_nil format_time (some t) = some (format_time t)

unfoldable pub balance_view_of : (ℕ → String) → Option Balance → Option BalanceView
unfolding format_or_nil
balance_view_of format_time none = none
balance_view_of format_time (some b) = some (record {
  used = b.used;
  limit = b.limit;
  unit = b.unit;
  resets_at = format_or_nil format_time b.resets_at;
  checked_at = format_time b.checked_at;
})

-- The fields that a request changes: the writer is the pool's `usage`, the one that the server logs events to.
pub record Server (S : Type 0) : Type 0 where
  pub db : S
  pub pool : Manager
  pub auth : AuthCache

-- What never changes, and what is taken from other packages: the database's operations, SHA-256 with its
-- hex, and the times of RFC 3339, none where a text is no such time.
pub record Setup (S : Type 0) : Type 0 where
  pub adapter : Adapter S
  pub admin_token : Bytes
  pub sealer : Sealer
  pub hash_token : Bytes → String
  pub format_time : ℕ → String
  pub parse_time : String → Option ℕ
  pub subtract : Float64 → Float64 → Float64

-- One request: its header `Authorization`, the readings of the clock while it is served, the identifiers that
-- are generated, and the n-th delivery of `rand.Read`.
pub record Request : Type 0 where
  pub authorization : Bytes
  pub got_at : ℕ
  pub put_at : ℕ
  pub now : ℕ
  pub clock : ℕ → ℕ
  pub fresh_id : String
  pub random : ℕ → Option Bytes

abbrev pub always : ℕ → WriteError → ℕ
always status e = status

abbrev pub Handler : Type 0 → Type 0 → Type 0
Handler S A = Server S → Server S × Reply A

module _ {S : Type 0} where
  abbrev pub pure : {A : Type 0} → A → Handler S A
  pure a sv = (sv, accepted a)

  abbrev pub reject : {A : Type 0} → ℕ → Handler S A
  reject status sv = (sv, rejected status)

  infixl 5 ◌>>=◌ ◌>>◌
  abbrev pub ◌>>=◌ : {A B : Type 0} → Handler S A → (A → Handler S B) → Handler S B
  ◌>>=◌ m f sv =
      let (sv', r) = m sv in elim r [ accepted a ↦ f a sv' | rejected c ↦ (sv', rejected c) ]

  abbrev pub ◌>>◌ : {B : Type 0} → Handler S (Unit {0}) → Handler S B → Handler S B
  m >> k = m >>= λ _. k

  abbrev pub reject_if : Bool → ℕ → Handler S (Unit {0})
  reject_if c status sv = (sv, if c then rejected status else accepted tt)

  -- An Option that is none rejects.
  abbrev pub need : {A : Type 0} → ℕ → Option A → Handler S A
  need status none sv = (sv, rejected status)
  need status (some a) sv = (sv, accepted a)

  abbrev pub gets : {A : Type 0} → (Server S → A) → Handler S A
  gets f sv = (sv, accepted (f sv))

  abbrev pub answer : ℕ → Body → Handler S Response
  answer status body sv = (sv, accepted (record { status = status; body = body }))

  module _ (setup : Setup S) where
    -- What the two reads of `consumerCaller` find, and which of them work.
    abbrev pub directory : S → Directory
    directory s = record {
      by_token_hash = λ hash. or_else (setup.adapter.get_consumer_by_token_hash s hash) none;
      scopes = λ id. or_else (setup.adapter.get_consumer_scopes s id) [];
    }

    abbrev pub scopes_work : S → Option (Option Consumer) → Bool
    scopes_work s none = true
    scopes_work s (some none) = true
    scopes_work s (some (some c)) = is_some (setup.adapter.get_consumer_scopes s c.id)

    abbrev pub conditions : S → String → Request → Conditions
    conditions s hash req = record {
      consumer_read = is_some (setup.adapter.get_consumer_by_token_hash s hash);
      scopes_read = scopes_work s (setup.adapter.get_consumer_by_token_hash s hash);
      got_at = req.got_at;
      put_at = req.put_at;
    }

    -- The conditions under which the caller of a request is resolved.
    abbrev pub asked : S → Request → Conditions
    asked s req = conditions s (setup.hash_token (or_else (bearer_token req.authorization) [])) req

    -- `resolveKeyCaller`, on the server's cache.
    unfoldable pub resolve_caller : Request → Handler S KeyCaller
    resolve_caller req sv =
        let hash = setup.hash_token (or_else (bearer_token req.authorization) []) in
        let (auth', r) =
          resolve_key_caller setup.hash_token setup.admin_token sv.auth (directory sv.db)
            (conditions sv.db hash req) req.authorization in
        (record sv { auth = auth' }, r)

    -- A failed reload is logged, and the pool stays.
    unfoldable pub reload : Handler S (Unit {0})
    reload sv = (
      record sv {
        pool =
            (reload_keys setup.sealer sv.pool (setup.adapter.get_all_keys sv.db)
              (setup.adapter.tier_features_by_tier sv.db)
              (setup.adapter.key_secrets_by_key sv.db)).0;
      },
      accepted tt,
    )

  -- `s.Usage.Event(db.NewUsageEvent(key, consumer, feature))`
  unfoldable pub log_event : Request → String → String → String → Handler S (Unit {0})
  log_event req key_id consumer_id feature sv = (
    record sv {
      pool = record (sv.pool) {
        usage = event sv.pool.usage (record {
          id = req.fresh_id;
          key_id = key_id;
          consumer_id = consumer_id;
          feature = feature;
          created_at = req.now;
        });
      };
    },
    accepted tt,
  )

  -- A write of the adapter, with the status that each error is answered with.
  abbrev pub write : (S → S × Option WriteError) → (WriteError → ℕ) → Handler S (Unit {0})
  write op status sv =
      let (db', e) = op sv.db in
      (record sv { db = db' }, elim e [ none ↦ accepted tt | some why ↦ rejected (status why) ])
