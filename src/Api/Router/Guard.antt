-- ===== src/Api/Router/Guard.antt =====
-- Who is not known is turned away on every route but the check of health, and changes nothing.
use keypooler.Base.{
  ap, not_both, or_else, ℕ, ◌≡◌, refl, ◌⊎◌, inl, inr, Bool, true, false, Option, none, some,
  if◌then◌else◌,
}
use keypooler.Crypto.{Bytes}
use keypooler.Db.{Consumer}
use keypooler.Api.Auth.{
  same_bytes, bearer_token, Reply, accepted, rejected, unauthorized, internal_error, KeyCaller,
  Conditions, AuthCache, Directory, admin_auth,
}
use keypooler.Api.Auth.Current.{IsCurrent}
use keypooler.Api.Auth.Admission.{Admits, resolve_key_caller-Decides}
use keypooler.Api.Rejection.{Unadmitted, rejected-Unadmitted}
use keypooler.Api.Server.{
  asked, Server, Setup, Request, Handler, Response, ◌>>=◌, resolve_caller, directory,
}
use keypooler.Api.Draws.{
  feature_key_for, own_key_for, get_key, get_key_by_id, exhaust_for, exhaust_key,
}
use keypooler.Api.Budgets.{report_for, report_spend}
use keypooler.Api.Router.{
  Route, get_health_check, get_feature_key, get_own_key, post_exhausted, post_spend, admin,
  serve_admin, serve, guarded,
}

module _ {S : Type 0} (setup : Setup S) where
  -- The header has no token, or one that is neither the admin's nor that of an active consumer.
  abbrev pub IsStranger : Directory → Bytes → Type 0
  IsStranger d header =
      (token : Bytes)
      → bearer_token header ≡ some token
      → (same_bytes token setup.admin_token ≡ false)
        × ((c : Consumer) → d.by_token_hash (setup.hash_token token) ≡ some c → ⊥)

  -- The read of the consumer by the header's token fails.
  abbrev pub NotRead : S → Bytes → Type 0
  NotRead s header =
      (token : Bytes) × (bearer_token header ≡ some token)
      × (setup.adapter.get_consumer_by_token_hash s (setup.hash_token token) ≡ none)

  abbrev pub IsRejection : S → Bytes → ℕ → Type 0
  IsRejection s header status =
      (status ≡ unauthorized) ⊎ ((status ≡ internal_error) × NotRead s header)

  -- Rejected, with 500 only where that read fails, and the database and the pool as they were.
  abbrev pub TurnedAway : Bytes → Server S → Server S × Reply Response → Type 0
  TurnedAway header sv (sv', accepted r) = ⊥
  TurnedAway header sv (sv', rejected status) =
      IsRejection sv.db header status × (sv'.db ≡ sv.db) × (sv'.pool ≡ sv.pool)

  not_Admitted :
      (d : Directory) (w : Conditions) (header : Bytes) (caller : KeyCaller)
      → IsStranger d header
      → Admits setup.hash_token setup.admin_token d w header (accepted caller)
      → ⊥
  not_Admitted d w header caller stranger (token, e, inl (compared, same)) =
      not_both _ compared (stranger token e).0
  not_Admitted d w header caller stranger (token, e, inr (other, known)) =
      (stranger token e).1 known.consumer known.held

  Unadmitted-IsRejection :
      (s : S) (header : Bytes) (status : ℕ)
      → IsStranger (directory setup s) header
      → Unadmitted setup s header status
      → IsRejection s header status
  Unadmitted-IsRejection s header status stranger (inl (absent, e)) = inl e
  Unadmitted-IsRejection s header status stranger
        (inr (token, present, other, inl (e, inl unread))) =
      inr (e, (token, present, unread))
  Unadmitted-IsRejection s header status stranger
        (inr (token, present, other, inl (e, inr (c, found, failed)))) =
      absurd ((stranger token present).1 c (ap (λ o. or_else o none) found))
  Unadmitted-IsRejection s header status stranger (inr (token, present, other, inr (e, free))) =
      inl e

  resolved-TurnedAway :
      (req : Request) (sv : Server S) (auth' : AuthCache) (r : Reply KeyCaller)
      (f : KeyCaller → Handler S Response)
      → IsStranger (directory setup sv.db) req.authorization
      → Admits setup.hash_token setup.admin_token
          (directory setup sv.db)
          (asked setup sv.db req)
          req.authorization
          r
      → TurnedAway req.authorization sv
          (((λ (x : Server S). (record sv { auth = auth' }, r)) >>= f) sv)
  resolved-TurnedAway req sv auth' (accepted caller) f stranger a =
      absurd (not_Admitted _ (asked setup sv.db req) req.authorization caller stranger a)
  resolved-TurnedAway req sv auth' (rejected status) f stranger a = (
    Unadmitted-IsRejection sv.db req.authorization status stranger
        (rejected-Unadmitted setup req sv.db status a),
    refl,
    refl,
  )

  resolving-TurnedAway :
      (req : Request) (f : KeyCaller → Handler S Response) (sv : Server S)
      → IsCurrent (directory setup sv.db) sv.auth
      → IsStranger (directory setup sv.db) req.authorization
      → TurnedAway req.authorization sv ((resolve_caller setup req >>= f) sv)
  unfolding resolve_caller
  resolving-TurnedAway req f sv current stranger =
      resolved-TurnedAway req sv _ _ f stranger
        (resolve_key_caller-Decides setup.hash_token setup.admin_token (directory setup sv.db)
          sv.auth _ req.authorization current).1

  compared-TurnedAway :
      (header : Bytes) (sv : Server S) (h : Handler S Response) (same : Bool)
      → same ≡ false
      → TurnedAway header sv
          (guarded setup (if same then accepted tt else rejected unauthorized) h sv)
  compared-TurnedAway header sv h true e = cc
  compared-TurnedAway header sv h false e = (inl refl, refl, refl)

  guarded-TurnedAway :
      (sv : Server S) (h : Handler S Response) (header : Bytes) (token : Option Bytes)
      → bearer_token header ≡ token
      → IsStranger (directory setup sv.db) header
      → TurnedAway header sv (
          guarded setup
            (elim token [
              | none ↦ rejected unauthorized
              | some t ↦
                  if same_bytes t setup.admin_token then accepted tt else rejected unauthorized
            ])
            h
            sv)
  guarded-TurnedAway sv h header none e stranger = (inl refl, refl, refl)
  guarded-TurnedAway sv h header (some t) e stranger =
      compared-TurnedAway header sv h (same_bytes t setup.admin_token) (stranger t e).0

  -- While the cache is in step with the database, a request without a token, or with one that is neither the
  -- admin's nor that of an active consumer, is rejected on every route but the check of health, with 401,
  -- or with 500 where the read of the consumer by the token's hash fails; it leaves the database and the pool as they were.
  pub serve-TurnedAway :
      (req : Request) (route : Route) (sv : Server S)
      → IsCurrent (directory setup sv.db) sv.auth
      → IsStranger (directory setup sv.db) req.authorization
      → (route ≡ get_health_check → ⊥)
      → TurnedAway req.authorization sv (serve setup req route sv)
  unfolding serve get_key get_key_by_id exhaust_key report_spend serve_admin admin_auth
  serve-TurnedAway req get_health_check sv current stranger not_health = absurd (not_health refl)
  serve-TurnedAway req (get_feature_key feature) sv current stranger not_health =
      resolving-TurnedAway req (feature_key_for setup req feature) sv current stranger
  serve-TurnedAway req (get_own_key id feature) sv current stranger not_health =
      resolving-TurnedAway req (own_key_for setup req id feature) sv current stranger
  serve-TurnedAway req (post_exhausted id b) sv current stranger not_health =
      resolving-TurnedAway req (exhaust_for setup req id b) sv current stranger
  serve-TurnedAway req (post_spend id b) sv current stranger not_health =
      resolving-TurnedAway req (report_for setup req id b) sv current stranger
  serve-TurnedAway req (admin route) sv current stranger not_health =
      guarded-TurnedAway sv _ req.authorization (bearer_token req.authorization) refl stranger
