-- ===== src/Api/Tiers.antt =====
-- internal/api/tiers.go.
use keypooler.Base.{
  ℕ, String, Bool, true, false, ◌||◌, Option, none, some, List, [], ◌∷◌, map, str_eq, if◌then◌else◌,
  or_else,
}
use keypooler.Base.Int.{ℤ, pos, leb_ℤ}
use keypooler.Base.Dict.{Dict, lookup, insert}
use keypooler.Db.{Tier, TierFeature}
use keypooler.Db.Adapter.{WriteError, already_exists, tier_in_use, tier_missing}
use keypooler.Api.Auth.{internal_error}
use keypooler.Api.Server.{
  Setup, Request, Handler, Response, FeatureLimitBody, TierView, pure, ◌>>=◌, ◌>>◌, reject_if, need,
  gets, answer, write, reload, status_body, tier_view, tier_views, bad_request, not_found, conflict,
  always,
}
use keypooler.Api.Keys.{tier_named}

pub record TierBody : Type 0 where
  pub name : String
  pub description : Option String
  pub features : Dict FeatureLimitBody

abbrev pub default_window_seconds : ℤ
default_window_seconds = pos 60

-- A window of 0 or less becomes the default.
abbrev pub with_default : FeatureLimitBody → FeatureLimitBody
with_default l =
    if leb_ℤ l.window_seconds (pos 0)
    then record l { window_seconds = default_window_seconds }
    else l

abbrev pub stored_feature : String → String × FeatureLimitBody → TierFeature
stored_feature tier_id (feature, l) = record {
  tier_id = tier_id;
  feature = feature;
  rate_limit = l.rate_limit;
  window_seconds = (with_default l).window_seconds;
}

abbrev pub echoed_feature : String × FeatureLimitBody → String × FeatureLimitBody
echoed_feature (feature, l) = (feature, with_default l)

-- The two results of the loop: the rows, and the limits as they were stored.
unfoldable pub tier_features :
    String → Dict FeatureLimitBody → List TierFeature × Dict FeatureLimitBody
tier_features tier_id requested =
    (map (stored_feature tier_id) requested, map echoed_feature requested)

abbrev pub tier_response : Tier → Dict FeatureLimitBody → TierView
tier_response tier features = record {
  id = tier.id;
  name = tier.name;
  description = tier.description;
  features = features;
}

abbrev no_features : Dict FeatureLimitBody → Bool
no_features [] = true
no_features (f ∷ fs) = false

abbrev create_status : WriteError → ℕ
create_status already_exists = conflict
create_status e = internal_error

abbrev delete_status : WriteError → ℕ
delete_status tier_in_use = conflict
delete_status tier_missing = not_found
delete_status e = internal_error

-- The loop over the features of one tier.
unfoldable pub limits_from : Dict FeatureLimitBody → List TierFeature → Dict FeatureLimitBody
limits_from limits [] = limits
limits_from limits (f ∷ fs) =
    limits_from
      (insert f.feature (record { rate_limit = f.rate_limit; window_seconds = f.window_seconds })
        limits)
      fs

module _ {S : Type 0} where
  unfoldable pub decode_tier_body : Option TierBody → Handler S TierBody
  decode_tier_body decoded = do
    b ← need bad_request decoded
    reject_if (str_eq b.name "" || no_features b.features) bad_request
    pure b

  module _ (setup : Setup S) where
    unfoldable pub create_tier : Request → Option TierBody → Handler S Response
    unfolding decode_tier_body
    create_tier req decoded = do
      b ← decode_tier_body decoded
      let tier : Tier = record {
        id = req.fresh_id;
        name = b.name;
        description = or_else b.description "";
        created_at = 0;
      }
      write (λ db. setup.adapter.create_tier db tier (tier_features tier.id b.features).0)
          create_status
      answer 201 (tier_view (tier_response tier (tier_features tier.id b.features).1))

    -- The description, where there is a new one.
    abbrev describe : Tier → Option String → Handler S Tier
    describe tier none = pure tier
    describe tier (some text) =
        write (λ db. setup.adapter.update_tier_description db tier.id text) (always internal_error)
        >> pure (record tier { description = text })

    unfoldable pub update_tier_features : Option TierBody → Handler S Response
    unfolding decode_tier_body
    update_tier_features decoded = do
      b ← decode_tier_body decoded
      found ← tier_named setup b.name
      tier ← describe found b.description
      write (λ db. setup.adapter.set_tier_features db tier.id (tier_features tier.id b.features).0)
          (always internal_error)
      reload setup
      answer 200 (tier_view (tier_response tier (tier_features tier.id b.features).1))

    unfoldable pub delete_tier : String → Handler S Response
    delete_tier name = do
      tier ← tier_named setup name
      write (λ db. setup.adapter.delete_tier db tier.id) delete_status
      reload setup
      answer 200 (status_body "deleted")

    abbrev listed_tier : Dict (List TierFeature) → Tier → TierView
    listed_tier by_tier t = tier_response t (limits_from [] (or_else (lookup t.id by_tier) []))

    unfoldable pub list_tiers : Handler S Response
    list_tiers = do
      read_tiers ← gets (λ sv. setup.adapter.get_all_tiers sv.db)
      tiers ← need internal_error read_tiers
      read_features ← gets (λ sv. setup.adapter.tier_features_by_tier sv.db)
      by_tier ← need internal_error read_features
      answer 200 (tier_views (map (listed_tier by_tier) tiers))
