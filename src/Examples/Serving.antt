-- ===== src/Examples/Serving.antt =====
-- A server on the store, with a consumer of the tier "free".
use keypooler.Keypool.Manager.{find}
use keypooler.Base.{
  arith, ℕ, ◌+◌, ◌≡◌, refl, subst, String, true, false, none, some, [], ◌∷◌, if◌then◌else◌,
}
use keypooler.Base.Int.{pos}
use keypooler.Float64.{Float64, nan, num}
use keypooler.Crypto.{Bytes}
use keypooler.Crypto.RoundTrip.{plain}
use keypooler.Db.{Consumer}
use keypooler.Db.Postgres.Spend.{works}
use keypooler.Db.Store.{Store, Weather}
use keypooler.Db.Store.Keys.{Codec}
use keypooler.Db.Store.Implementation.{adapter}
use keypooler.Api.Auth.{Reply, accepted, rejected, same_bytes}
use keypooler.Api.Auth.Admission.{start-IsCurrent}
use keypooler.Api.Server.{Server, Setup, Request, Response, status_body}
use keypooler.Api.Draws.{get_key}
use keypooler.Api.Draws.Scope.{GivesOwn}
use keypooler.Api.Router.{
  get_feature_key, post_exhausted, admin, delete_consumers, get_consumers, serve,
}
use keypooler.Base.Int.{int64}
use keypooler.Base.Dict.{lookup, insert}
use keypooler.Time.{since, seconds}
use keypooler.Crypto.{open_sealed, cut_prefix}
use keypooler.Writeback.{new, window_reset, event}
use keypooler.Writeback as Writeback
use keypooler.Keypool.Types.{
  spent_now, within_budget, try_consume_usage, try_rate, window, counter, roll, available,
  has_feature,
}
use keypooler.Keypool.Manager.{
  draw, candidates, offers, tier_allowed, attempt, persist_usage, get_key_for_feature,
}
use keypooler.Keypool.Manager as Pool
use keypooler.Db.Store.{any, delete_where, select_where, first, order_by, place, group}
use keypooler.Db.Store.Tiers.{get_all_tiers}
use keypooler.Db.Store.Consumers.{
  get_all_consumers, consumer_scopes_by_consumer, get_consumer_by_token_hash, get_consumer_scopes,
}
use keypooler.Api.Auth.{
  admin_auth, clear_after_write, resolve_key_caller, bearer_token, cut_blank, equal_fold,
  consumer_caller, get, put, new_auth_cache, caller_of, allow_all,
}
use keypooler.Api.Server.{directory, resolve_caller, log_event}
use keypooler.Api.Draws.{give, exhaust_key, get_key_by_id, key_in_scope, mark}
use keypooler.Api.Draws.Exhaustion.{Rests, IsRejected, exhaust_key-Rests}
use keypooler.Keypool.Upkeep.{tier_of, mark_exhausted}
use keypooler.Db.Store.Keys.{set_key_exhausted}
use keypooler.Db.Store.{update_where}
use keypooler.Api.Consumers.{list_consumers, delete_consumer}
use keypooler.Db.Store.Consumers as Consumers
use keypooler.Api.Router.{serve_admin, handle_admin, method_of, clearing, get_health_check}
use keypooler.Api.Router.Reach.{here, after, served, new_server, serve-GivesOwn}
use keypooler.Api.Router.Guard.{IsStranger, TurnedAway, serve-TurnedAway}
use keypooler.Api.Revocation.{deployed, deployed-LeavesDirectory, delete_consumer-TurnedAway}
use keypooler.Examples.Data.{at, pool}

-- In the place of SHA-256: whether the token is the letter t.
abbrev hash_of : Bytes → String
hash_of token = if same_bytes token (b't' ∷ []) then "t" else "?"

-- An addition of ranks, for the parameter.
abbrev plus : Float64 → Float64 → Float64
plus (num (pos a)) (num (pos b)) = num (pos (a + b))
plus a b = nan

abbrev codec : Codec
codec = record { marshal = λ m. some "{}"; unmarshal = λ text. some none }

abbrev calm : Weather
calm = record { reading = true; writing = works; text_before = λ s t. true; now = 7 }

abbrev reader : Consumer
reader = record {
  id = "c";
  name = "reader";
  token_hash = "t";
  description = "";
  is_active = true;
  created_at = 0;
}

abbrev held : Store
held = record {
  tiers = record { id = "free"; name = "free"; description = ""; created_at = 0 } ∷ [];
  tier_features = [];
  keys = [];
  key_secrets = [];
  consumers = reader ∷ [];
  consumer_scopes = record { consumer_id = "c"; tier_id = "free" } ∷ [];
  usage_events = [];
  spend_events = [];
}

abbrev base : Setup Store
base = record {
  adapter = adapter codec calm plus;
  admin_token = b'a' ∷ [];
  sealer = plain;
  hash_token = hash_of;
  format_time = λ t. "";
  parse_time = λ text. some (at 500);
  subtract = λ a b. nan;
}

abbrev setup : Setup Store
setup = deployed base codec calm plus

-- "bearer …"
abbrev header : ℕ → Bytes
header c = b'b' ∷ b'e' ∷ b'a' ∷ b'r' ∷ b'e' ∷ b'r' ∷ b' ' ∷ c ∷ []

abbrev by_letter : ℕ → Request
by_letter c = record {
  authorization = header c;
  got_at = at 99;
  put_at = at 99;
  now = at 100;
  clock = λ n. at (100 + n);
  fresh_id = "e";
  random = λ n. none;
}

abbrev as_admin : Request
as_admin = by_letter b'a'

abbrev as_reader : Request
as_reader = by_letter b't'

abbrev started : Server Store
started = new_server setup held pool 60

abbrev answered : Reply Response → Response
answered (accepted r) = r
answered (rejected status) = record { status = status; body = status_body "" }

abbrev listed : Server Store
listed = (serve setup as_admin (admin get_consumers) started).0

abbrev drawn : Server Store × Reply Response
drawn = serve setup as_reader (get_feature_key "tts") listed

drawn_200 : drawn ≡ (drawn.0, accepted (answered drawn.1))
unfolding serve serve_admin handle_admin method_of clearing clear_after_write admin_auth
    list_consumers get_all_consumers get_all_tiers consumer_scopes_by_consumer order_by place group
    get_key resolve_caller resolve_key_caller bearer_token cut_blank equal_fold same_bytes
    consumer_caller get put new_auth_cache caller_of allow_all get_consumer_by_token_hash
    get_consumer_scopes select_where first give log_event open_sealed cut_prefix get_key_for_feature
    draw candidates offers tier_allowed has_feature available attempt try_rate try_consume_usage
    within_budget spent_now persist_usage Pool.serve Writeback.served window_reset event new lookup
    insert roll counter window since seconds int64
drawn_200 = refl

serve-GivesOwn_example : GivesOwn setup as_reader "tts" listed (answered drawn.1)
serve-GivesOwn_example =
    serve-GivesOwn setup (deployed-LeavesDirectory base codec calm plus) held pool 60 listed drawn.0
      as_reader "tts" (answered drawn.1) (after here (served as_admin (admin get_consumers)))
      drawn_200

some_inj : (s t : Bytes) → some s ≡ some t → s ≡ t
some_inj s t e = cc

not_health : (feature : String) → get_feature_key feature ≡ get_health_check → ⊥
not_health feature e = cc

-- Of the letter z, a token of nobody.
nobody-IsStranger : IsStranger setup (directory setup held) (header b'z')
unfolding bearer_token cut_blank equal_fold same_bytes get_consumer_by_token_hash select_where first
nobody-IsStranger token e =
    subst
      (λ (x : Bytes).
        (same_bytes x (b'a' ∷ []) ≡ false)
        × ((c : Consumer) → (directory setup held).by_token_hash (hash_of x) ≡ some c → ⊥))
      (some_inj (b'z' ∷ []) token e) (refl, λ c g. cc)

serve-TurnedAway_example :
    TurnedAway setup
      (by_letter b'z').authorization
      started
      (serve setup (by_letter b'z') (get_feature_key "tts") started)
serve-TurnedAway_example =
    serve-TurnedAway setup (by_letter b'z') (get_feature_key "tts") started
      (start-IsCurrent hash_of (b'a' ∷ []) 60 _) nobody-IsStranger (not_health "tts")

-- The reader draws a key, which puts it into the cache, and is then deleted.
abbrev deleting : Server Store × Reply Response
deleting = serve setup as_admin (admin (delete_consumers "c")) drawn.0

deleted_200 : deleting ≡ (deleting.0, accepted (answered deleting.1))
unfolding serve serve_admin handle_admin method_of clearing clear_after_write admin_auth
    delete_consumer Consumers.delete_consumer any delete_where bearer_token cut_blank equal_fold
    same_bytes get_key resolve_caller resolve_key_caller list_consumers get_all_consumers
    get_all_tiers consumer_scopes_by_consumer order_by place group consumer_caller get put
    new_auth_cache caller_of allow_all get_consumer_by_token_hash get_consumer_scopes select_where
    first give log_event open_sealed cut_prefix get_key_for_feature draw candidates offers
    tier_allowed has_feature available attempt try_rate try_consume_usage within_budget spent_now
    persist_usage Pool.serve Writeback.served window_reset event new lookup insert roll counter
    window since seconds int64
deleted_200 = refl

delete_consumer-TurnedAway_example :
    TurnedAway setup as_reader.authorization deleting.0
      (serve setup as_reader (get_feature_key "tts") deleting.0)
unfolding serve serve_admin handle_admin method_of clearing clear_after_write admin_auth
    bearer_token cut_blank equal_fold same_bytes get_key resolve_caller resolve_key_caller
    list_consumers get_all_consumers get_all_tiers consumer_scopes_by_consumer order_by place group
    consumer_caller get put new_auth_cache caller_of allow_all get_consumer_by_token_hash
    get_consumer_scopes select_where first any give log_event open_sealed cut_prefix
    get_key_for_feature draw candidates offers tier_allowed has_feature available attempt try_rate
    try_consume_usage within_budget spent_now persist_usage Pool.serve Writeback.served window_reset
    event new lookup insert roll counter window since seconds int64
delete_consumer-TurnedAway_example =
    delete_consumer-TurnedAway base codec calm plus drawn.0 deleting.0 as_admin as_reader "c"
      (answered deleting.1) reader (b't' ∷ []) (get_feature_key "tts") (refl, tt) refl refl
      deleted_200 refl refl (not_health "tts")

-- The reader reports the key "a" exhausted until second 500.
abbrev reporting : Server Store × Reply Response
reporting = serve setup as_reader (post_exhausted "a" (some "soon")) started

reported_200 :
    exhaust_key setup as_reader "a" (some "soon") started
    ≡ (reporting.0, accepted (answered reporting.1))
unfolding serve exhaust_key resolve_caller resolve_key_caller bearer_token cut_blank equal_fold
    same_bytes consumer_caller get put new_auth_cache caller_of allow_all get_consumer_by_token_hash
    lookup insert get_consumer_scopes select_where first key_in_scope tier_of find tier_allowed mark
    mark_exhausted set_key_exhausted update_where log_event event new
reported_200 = refl

exhaust_key-Rests_example :
    Rests "a" (at 500) reporting.0.pool
    × IsRejected setup
        (get_key_by_id setup (record as_reader { clock = λ n. at 400 }) "a" "tts" reporting.0)
exhaust_key-Rests_example =
    exhaust_key-Rests setup as_reader (record as_reader { clock = λ n. at 400 }) "a" "tts" "soon"
      (at 500) started reporting.0 (answered reporting.1) refl reported_200 (λ n. omega arith)
