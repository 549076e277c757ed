-- ===== src/Api/Draws.antt =====
-- `GetKey`, `GetKeyByID`, `ExhaustKey` and `keyInScope` of internal/api/keys.go, and `HealthCheck` and `Health` of
-- internal/api/handlers.go. The query, the path and the decoded body of a request are arguments.
pub mod Outcome
pub mod Scope
pub mod Exhaustion
use keypooler.Base.{
  ℕ, String, Bool, true, false, not, Option, none, some, List, [], ◌∷◌, str_eq, if◌then◌else◌,
  is_some,
}
use keypooler.Base.Dict.{Dict}
use keypooler.Crypto.{Bytes, Result, ok, err, enabled, open_sealed}
use keypooler.Keypool.Manager.{
  Manager, Served, PoolError, Answer, good, bad, out_of_scope, unknown_key, get_key_for_feature,
  key_by_id, tier_allowed,
}
use keypooler.Keypool.Manager as Pool
use keypooler.Keypool.Upkeep.{SpendStore, tier_of, mark_exhausted, pool_size}
use keypooler.Api.Auth.{Reply, accepted, rejected, internal_error, KeyCaller}
use keypooler.Api.Server.{
  Server, Setup, Request, Handler, Response, pure, reject, ◌>>=◌, ◌>>◌, reject_if, need, gets,
  answer, resolve_caller, log_event, status_body, pool_health, drawn_key, exhausted_key,
  bad_request, forbidden, not_found, too_many_requests,
}

-- The statuses of `GetKey`: with every tier allowed, "out of scope" is answered as "exhausted".
abbrev pub feature_status : Option (Dict Bool) → PoolError → ℕ
feature_status (some tiers) out_of_scope = forbidden
feature_status (some tiers) e = too_many_requests
feature_status none e = too_many_requests

-- The switch of `GetKeyByID`.
abbrev pub id_status : PoolError → ℕ
id_status Pool.not_found = not_found
id_status out_of_scope = forbidden
id_status e = too_many_requests

module _ {S : Type 0} where
  -- A draw from the pool, with the status that its error is answered with.
  abbrev pub draw_from : (Manager → Manager × Answer Served) → (PoolError → ℕ) → Handler S Served
  draw_from draws status sv =
      let (pool', a) = draws sv.pool in
      (record sv { pool = pool' }, elim a [ good s ↦ accepted s | bad e ↦ rejected (status e) ])

  -- The end of both, with the key's value as it opened: the event is logged, and the key given out.
  abbrev pub give_opened : Request → KeyCaller → String → Served → Result Bytes → Handler S Response
  give_opened req caller feature s (err e) = reject internal_error
  give_opened req caller feature s (ok value) = do
    log_event req s.id caller.consumer_id feature
    answer 200 (
        drawn_key
          (record { key_id = s.id; value = value; metadata = s.metadata; secrets = s.secrets }))

  module _ (setup : Setup S) where
    unfoldable pub give : Request → KeyCaller → String → Served → Handler S Response
    unfolding log_event
    give req caller feature s =
        give_opened req caller feature s (open_sealed setup.sealer s.key_value)

    -- What both do with the caller.
    abbrev pub give_to :
        Request
        → String
        → (Manager → Manager × Answer Served)
        → (PoolError → ℕ)
        → KeyCaller
        → Handler S Response
    give_to req feature draws status caller = do
      reject_if (str_eq feature "") bad_request
      served ← draw_from draws status
      give req caller feature served

    abbrev pub feature_key_for : Request → String → KeyCaller → Handler S Response
    feature_key_for req feature caller =
        give_to req feature
          (λ pool. get_key_for_feature pool feature caller.allowed_tier_ids req.clock)
          (feature_status caller.allowed_tier_ids) caller

    abbrev pub own_key_for : Request → String → String → KeyCaller → Handler S Response
    own_key_for req id feature caller =
        give_to req feature (λ pool. key_by_id pool id feature caller.allowed_tier_ids req.clock)
          id_status caller

    unfoldable pub get_key : Request → String → Handler S Response
    get_key req feature = do caller ← resolve_caller setup req; feature_key_for req feature caller

    unfoldable pub get_key_by_id : Request → String → String → Handler S Response
    get_key_by_id req id feature = do
      caller ← resolve_caller setup req
      own_key_for req id feature caller

    -- A key's tier must be known to the pool and open to the caller.
    abbrev pub tier_in_scope : KeyCaller → Option String → Handler S (Unit {0})
    tier_in_scope caller none = reject not_found
    tier_in_scope caller (some tier) =
        reject_if (not (tier_allowed caller.allowed_tier_ids tier)) forbidden

    unfoldable pub key_in_scope : KeyCaller → String → Handler S (Unit {0})
    key_in_scope caller id sv = tier_in_scope caller (tier_of sv.pool id) sv

    -- What `keypool.Store` needs of the adapter.
    abbrev pub spend_store : SpendStore S
    spend_store = record {
      set_key_exhausted = setup.adapter.set_key_exhausted;
      record_spend = setup.adapter.record_spend;
    }

    unfoldable pub mark : String → ℕ → Handler S (Unit {0})
    mark id until sv =
        let (db', pool', marked) = mark_exhausted spend_store sv.db sv.pool id until in
        (record sv { db = db'; pool = pool' }, accepted tt)

    abbrev pub exhaust_for : Request → String → Option String → KeyCaller → Handler S Response
    exhaust_for req id body caller = do
      text ← need bad_request body
      until ← need bad_request (setup.parse_time text)
      key_in_scope caller id
      mark id until
      log_event req id caller.consumer_id "exhausted"
      answer 200 (exhausted_key "exhausted" (setup.format_time until))

    -- `until` is the field of the decoded body, none where it does not decode.
    unfoldable pub exhaust_key : Request → String → Option String → Handler S Response
    exhaust_key req id body = do caller ← resolve_caller setup req; exhaust_for req id body caller

    unfoldable pub health : Handler S Response
    health = do
      size ← gets (λ sv. pool_size sv.pool)
      answer 200 (pool_health size (enabled setup.sealer))

  unfoldable pub health_check : Handler S Response
  health_check = answer 200 (status_body "ok")
