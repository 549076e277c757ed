-- ===== src/Api/Router/Cache.antt =====
-- The cache of callers through any requests that the router serves.
use keypooler.Base.{
  ℕ, ◌≡◌, refl, sym, subst, ◌⊎◌, inl, inr, String, true, not, ◌&&◌, Option, str_eq,
}
use keypooler.Crypto.{Bytes}
use keypooler.Keypool.Manager.{get_key_for_feature, key_by_id, Manager, Answer, Served, PoolError}
use keypooler.Api.Auth.{Reply, accepted, rejected, internal_error, KeyCaller, clear_after_write}
use keypooler.Api.Auth.Current.{IsCurrent}
use keypooler.Api.Auth.Admission.{cleared-IsCurrent, emptied-IsCurrent, resolve_key_caller-Decides}
use keypooler.Api.Server.{
  Server, Setup, Request, Handler, Response, gets, reject_if, need, log_event, exhausted_key,
  bad_request, ◌>>=◌, resolve_caller, directory,
}
use keypooler.Api.Draws.{
  feature_status, id_status, get_key, get_key_by_id, exhaust_key, health, health_check, exhaust_for,
  give_to, mark, draw_from, give, key_in_scope,
}
use keypooler.Api.Budgets.{SpendBody, report, report_for, report_spend, valid_spend}
use keypooler.Api.Keys.{list_keys}
use keypooler.Api.Tiers.{list_tiers}
use keypooler.Api.Consumers.{list_consumers, list_usage_events}
use keypooler.Api.Router.{
  AdminRoute, get_tiers, get_keys, get_health, get_consumers, get_usage, post_tiers, patch_tiers,
  delete_tiers, post_keys, patch_keys, delete_keys, post_consumers, delete_consumers, post_scopes,
  Route, get_health_check, get_feature_key, get_own_key, post_exhausted, post_spend, admin,
  method_of, handle_admin, serve_admin, serve, clearing, guarded,
}
use keypooler.Api.Router.Keeps.{
  LeavesDirectory, Same, Keeps, Keeps-bind, Keeps-then, draw_from-Keeps, reject_if-Keeps,
  need-Keeps, answer-Keeps, log_event-Keeps, give-Keeps, key_in_scope-Keeps, mark-Keeps,
  report-Keeps,
}

module _ {S : Type 0} (setup : Setup S) where
  -- The cache of the server is in step with its database.
  abbrev pub Current : Server S → Type 0
  Current sv = IsCurrent (directory setup sv.db) sv.auth

  pub Same-Current : (sv sv' : Server S) → Same setup sv sv' → Current sv → Current sv'
  Same-Current sv sv' same h =
      subst (λ d. IsCurrent d sv'.auth) (sym same.1)
        (subst (IsCurrent (directory setup sv.db)) (sym same.0) h)

  resolved-Current :
      (sv : Server S) (r : Reply KeyCaller) (f : KeyCaller → Handler S Response)
      → ((caller : KeyCaller) → Keeps setup (f caller))
      → Current sv
      → Current (((λ (x : Server S). (sv, r)) >>= f) sv).0
  resolved-Current sv (accepted caller) f k h = Same-Current sv (f caller sv).0 ((k caller).at sv) h
  resolved-Current sv (rejected status) f k h = h

  -- A handler that resolves its caller and then leaves cache and consumers alone.
  resolving-Current :
      (req : Request) (f : KeyCaller → Handler S Response) (sv : Server S)
      → ((caller : KeyCaller) → Keeps setup (f caller))
      → Current sv
      → Current ((resolve_caller setup req >>= f) sv).0
  unfolding resolve_caller
  resolving-Current req f sv k h =
      resolved-Current _ _ f k
        (resolve_key_caller-Decides setup.hash_token setup.admin_token (directory setup sv.db)
          sv.auth _ req.authorization h).0

  give_to-Keeps :
      (req : Request) (feature : String) (draws : Manager → Manager × Answer Served)
      (status : PoolError → ℕ) (caller : KeyCaller)
      → Keeps setup (give_to setup req feature draws status caller)
  give_to-Keeps req feature draws status caller =
      Keeps-then setup (reject_if (str_eq feature "") bad_request) _
        (reject_if-Keeps setup (str_eq feature "") bad_request)
        (Keeps-bind setup (draw_from draws status) (give setup req caller feature)
          (draw_from-Keeps setup draws status) (give-Keeps setup req caller feature))

  exhaust_for-Keeps :
      LeavesDirectory setup
      → (req : Request) (id : String) (b : Option String) (caller : KeyCaller)
      → Keeps setup (exhaust_for setup req id b caller)
  exhaust_for-Keeps l req id b caller =
      Keeps-bind setup (need bad_request b) _ (need-Keeps setup bad_request b) (λ text.
        Keeps-bind setup (need bad_request (setup.parse_time text)) _
          (need-Keeps setup bad_request (setup.parse_time text))
          (λ until.
            Keeps-then setup (key_in_scope setup caller id) _ (key_in_scope-Keeps setup caller id) (
              Keeps-then setup (mark setup id until) _ (mark-Keeps setup l id until) (
                Keeps-then setup (log_event req id caller.consumer_id "exhausted") _
                  (log_event-Keeps setup req id caller.consumer_id "exhausted")
                  (answer-Keeps setup 200 (exhausted_key "exhausted" (setup.format_time until)))))))

  report_for-Keeps :
      LeavesDirectory setup
      → (req : Request) (id : String) (b : Option SpendBody) (caller : KeyCaller)
      → Keeps setup (report_for setup req id b caller)
  report_for-Keeps l req id b caller =
      Keeps-bind setup (need bad_request b) _ (need-Keeps setup bad_request b) (λ body.
        Keeps-then setup (valid_spend setup body) _ (reject_if-Keeps setup _ bad_request) (
          Keeps-then setup (key_in_scope setup caller id) _ (key_in_scope-Keeps setup caller id) (
            Keeps-bind setup (report setup req caller id body) _
              (report-Keeps setup l req caller id body) (λ spend. answer-Keeps setup 200 _))))

  read-Keeps :
      {A : Type 0} (o : S → Option A) (f : A → Handler S Response)
      → ((a : A) → Keeps setup (f a))
      → Keeps setup (gets (λ sv. o sv.db) >>= λ x. need internal_error x >>= f)
  read-Keeps o f k = record {
    at = λ sv.
        (Keeps-bind setup (need internal_error (o sv.db)) f
            (need-Keeps setup internal_error (o sv.db)) k).at
          sv;
  }

  list_tiers-Keeps : Keeps setup (list_tiers setup)
  unfolding list_tiers
  list_tiers-Keeps = read-Keeps setup.adapter.get_all_tiers _ (λ tiers.
      read-Keeps setup.adapter.tier_features_by_tier _ (λ by_tier. answer-Keeps setup 200 _))

  list_consumers-Keeps : Keeps setup (list_consumers setup)
  unfolding list_consumers
  list_consumers-Keeps = read-Keeps setup.adapter.get_all_consumers _ (λ consumers.
      read-Keeps setup.adapter.get_all_tiers _ (λ tiers.
        read-Keeps setup.adapter.consumer_scopes_by_consumer _
          (λ by_consumer. answer-Keeps setup 200 _)))

  list_usage_events-Keeps : (raw : Bytes) → Keeps setup (list_usage_events setup raw)
  unfolding list_usage_events
  list_usage_events-Keeps raw =
      read-Keeps (λ s. setup.adapter.list_usage_events s _) _ (λ events. answer-Keeps setup 200 _)

  list_keys-Keeps : (req : Request) → Keeps setup (list_keys setup req)
  unfolding list_keys
  list_keys-Keeps req = record { at = λ sv. (refl, refl) }

  health-Keeps : Keeps setup (health setup)
  unfolding health
  health-Keeps = record { at = λ sv. (refl, refl) }

  -- A method that changes something clears the cache; the handlers of the others leave it alone.
  abbrev ClearsOrKeeps : Request → AdminRoute → Type 0
  ClearsOrKeeps req route =
      ((not (str_eq (method_of route) "GET") && not (str_eq (method_of route) "HEAD")) ≡ true)
      ⊎ Keeps setup (handle_admin setup req route)

  handle_admin-ClearsOrKeeps : (req : Request) (route : AdminRoute) → ClearsOrKeeps req route
  unfolding method_of handle_admin
  handle_admin-ClearsOrKeeps req get_tiers = inr list_tiers-Keeps
  handle_admin-ClearsOrKeeps req get_keys = inr (list_keys-Keeps req)
  handle_admin-ClearsOrKeeps req get_health = inr health-Keeps
  handle_admin-ClearsOrKeeps req get_consumers = inr list_consumers-Keeps
  handle_admin-ClearsOrKeeps req (get_usage raw) = inr (list_usage_events-Keeps raw)
  handle_admin-ClearsOrKeeps req (post_tiers b) = inl refl
  handle_admin-ClearsOrKeeps req (patch_tiers b) = inl refl
  handle_admin-ClearsOrKeeps req (delete_tiers name) = inl refl
  handle_admin-ClearsOrKeeps req (post_keys b) = inl refl
  handle_admin-ClearsOrKeeps req (patch_keys id b) = inl refl
  handle_admin-ClearsOrKeeps req (delete_keys id) = inl refl
  handle_admin-ClearsOrKeeps req (post_consumers b) = inl refl
  handle_admin-ClearsOrKeeps req (delete_consumers id) = inl refl
  handle_admin-ClearsOrKeeps req (post_scopes id b) = inl refl

  clearing-Current :
      (method : String) (h : Handler S Response) (sv : Server S)
      → ((not (str_eq method "GET") && not (str_eq method "HEAD")) ≡ true) ⊎ Keeps setup h
      → Current sv
      → Current (clearing setup method h sv).0
  unfolding clearing clear_after_write
  clearing-Current method h sv (inl clears) c =
      cleared-IsCurrent setup.hash_token setup.admin_token (directory setup (h sv).0.db)
        (h sv).0.auth _ clears
  clearing-Current method h sv (inr keeps) c =
      emptied-IsCurrent setup.hash_token setup.admin_token (directory setup (h sv).0.db)
        (directory setup (h sv).0.db) (h sv).0.auth _ (Same-Current sv (h sv).0 (keeps.at sv) c)
        (inr refl)

  guarded-Current :
      (r : Reply (Unit {0})) (h : Handler S Response) (sv : Server S)
      → (Current sv → Current (h sv).0)
      → Current sv
      → Current (guarded setup r h sv).0
  guarded-Current (accepted u) h sv k c = k c
  guarded-Current (rejected status) h sv k c = c

  serve_admin-Current :
      (req : Request) (route : AdminRoute) (sv : Server S)
      → Current sv
      → Current (serve_admin setup req route sv).0
  unfolding serve_admin
  serve_admin-Current req route sv =
      guarded-Current _ (clearing setup (method_of route) (handle_admin setup req route)) sv (
        clearing-Current (method_of route) (handle_admin setup req route) sv
          (handle_admin-ClearsOrKeeps req route))

  pub serve-Current :
      LeavesDirectory setup
      → (req : Request) (route : Route) (sv : Server S) → Current sv
      → Current (serve setup req route sv).0
  unfolding serve health_check get_key get_key_by_id exhaust_key report_spend
  serve-Current l req get_health_check sv c = c
  serve-Current l req (get_feature_key feature) sv c =
      resolving-Current req _ sv
        (λ caller.
          give_to-Keeps req feature
            (λ pool. get_key_for_feature pool feature caller.allowed_tier_ids req.clock)
            (feature_status caller.allowed_tier_ids) caller)
        c
  serve-Current l req (get_own_key id feature) sv c =
      resolving-Current req _ sv
        (λ caller.
          give_to-Keeps req feature
            (λ pool. key_by_id pool id feature caller.allowed_tier_ids req.clock) id_status caller)
        c
  serve-Current l req (post_exhausted id b) sv c =
      resolving-Current req (exhaust_for setup req id b) sv (exhaust_for-Keeps l req id b) c
  serve-Current l req (post_spend id b) sv c =
      resolving-Current req (report_for setup req id b) sv (report_for-Keeps l req id b) c
  serve-Current l req (admin route) sv c = serve_admin-Current req route sv c
