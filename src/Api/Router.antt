-- ===== src/Api/Router.antt =====
-- internal/api/router.go. The multiplexer has matched a route; its parameters and the decoded body are arguments.
pub mod Guard
pub mod Keeps
pub mod Cache
pub mod Reach
use keypooler.Base.{ℕ, String, Bool, true, false, Option, none, some, if◌then◌else◌}
use keypooler.Crypto.{Bytes}
use keypooler.Api.Auth.{Reply, accepted, rejected, admin_auth, clear_after_write}
use keypooler.Api.Server.{Server, Setup, Request, Handler, Response}
use keypooler.Api.Draws.{get_key, get_key_by_id, exhaust_key, health, health_check}
use keypooler.Api.Budgets.{BudgetRequest, SpendBody, set_key_budget, report_spend}
use keypooler.Api.Keys.{AddKeyBody, list_keys, add_key, delete_key}
use keypooler.Api.Tiers.{TierBody, create_tier, update_tier_features, delete_tier, list_tiers}
use keypooler.Api.Consumers.{
  ConsumerBody, create_consumer, list_consumers, delete_consumer, add_consumer_scope,
  list_usage_events,
}

pub data AdminRoute : Type 0 where
  get_tiers get_keys get_health get_consumers : AdminRoute
  get_usage : Bytes → AdminRoute
  post_tiers patch_tiers : Option TierBody → AdminRoute
  delete_tiers : String → AdminRoute
  post_keys : Option AddKeyBody → AdminRoute
  patch_keys : String → BudgetRequest → AdminRoute
  delete_keys : String → AdminRoute
  post_consumers : Option ConsumerBody → AdminRoute
  delete_consumers : String → AdminRoute
  post_scopes : String → Option String → AdminRoute

pub data Route : Type 0 where
  get_health_check : Route
  get_feature_key : String → Route
  get_own_key : String → String → Route
  post_exhausted : String → Option String → Route
  post_spend : String → Option SpendBody → Route
  admin : AdminRoute → Route

unfoldable pub method_of : AdminRoute → String
method_of get_tiers = "GET"
method_of get_keys = "GET"
method_of get_health = "GET"
method_of get_consumers = "GET"
method_of (get_usage raw) = "GET"
method_of (post_tiers b) = "POST"
method_of (patch_tiers b) = "PATCH"
method_of (delete_tiers name) = "DELETE"
method_of (post_keys b) = "POST"
method_of (patch_keys id b) = "PATCH"
method_of (delete_keys id) = "DELETE"
method_of (post_consumers b) = "POST"
method_of (delete_consumers id) = "DELETE"
method_of (post_scopes id b) = "POST"

module _ {S : Type 0} (setup : Setup S) where
  unfoldable pub handle_admin : Request → AdminRoute → Handler S Response
  handle_admin req get_tiers = list_tiers setup
  handle_admin req get_keys = list_keys setup req
  handle_admin req get_health = health setup
  handle_admin req get_consumers = list_consumers setup
  handle_admin req (get_usage raw) = list_usage_events setup raw
  handle_admin req (post_tiers b) = create_tier setup req b
  handle_admin req (patch_tiers b) = update_tier_features setup b
  handle_admin req (delete_tiers name) = delete_tier setup name
  handle_admin req (post_keys b) = add_key setup req b
  handle_admin req (patch_keys id b) = set_key_budget setup id b
  handle_admin req (delete_keys id) = delete_key setup id
  handle_admin req (post_consumers b) = create_consumer setup req b
  handle_admin req (delete_consumers id) = delete_consumer setup id
  handle_admin req (post_scopes id b) = add_consumer_scope setup id b

  -- `clearAfterWrite(h)`: the handler, and then the cache by the method.
  unfoldable pub clearing : String → Handler S Response → Handler S Response
  clearing method h sv =
      let (sv', r) = h sv in (record sv' { auth = clear_after_write sv'.auth method }, r)

  -- `authorized(…)`: the handler behind it runs only if the token is the admin's.
  abbrev pub guarded : Reply (Unit {0}) → Handler S Response → Handler S Response
  guarded (accepted u) h sv = h sv
  guarded (rejected status) h sv = (sv, rejected status)

  unfoldable pub serve_admin : Request → AdminRoute → Handler S Response
  serve_admin req route =
      guarded (admin_auth setup.admin_token req.authorization (accepted tt))
        (clearing (method_of route) (handle_admin req route))

  unfoldable pub serve : Request → Route → Handler S Response
  unfolding serve_admin
  serve req get_health_check = health_check
  serve req (get_feature_key feature) = get_key setup req feature
  serve req (get_own_key id feature) = get_key_by_id setup req id feature
  serve req (post_exhausted id b) = exhaust_key setup req id b
  serve req (post_spend id b) = report_spend setup req id b
  serve req (admin route) = serve_admin req route
