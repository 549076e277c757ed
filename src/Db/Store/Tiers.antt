-- ===== src/Db/Store/Tiers.antt =====
-- The tiers of internal/db/postgres_keys.go, and `DeleteTier` of internal/db/postgres_budget.go.
use keypooler.Base.{
  ℕ, String, Bool, true, false, not, ◌||◌, ◌&&◌, Option, none, some, List, [], ◌∷◌, ◌++◌, str_eq,
  if◌then◌else◌,
}
use keypooler.Base.Dict.{Dict}
use keypooler.Db.{Tier, TierFeature}
use keypooler.Db.Adapter.{WriteError, already_exists, tier_in_use, tier_missing, other_error}
use keypooler.Db.Store.{
  Store, KeyRow, ScopeRow, Weather, any, delete_where, select_where, update_where, first, order_by,
  group, commit, read,
}

abbrev pub has_tier : String → List Tier → Bool
has_tier id = any λ (t : Tier). str_eq t.id id

-- The loop of `insertTierFeatures` in its transaction, none where a row offends: its tier is missing, or the
-- tier has the feature.
unfoldable pub insert_tier_features :
    List Tier → String → List TierFeature → List TierFeature → Option (List TierFeature)
insert_tier_features tiers tier_id rows [] = some rows
insert_tier_features tiers tier_id rows (f ∷ fs) =
    let rest =
      insert_tier_features tiers tier_id (rows ++ (record f { tier_id = tier_id } ∷ [])) fs in
    if has_tier tier_id tiers
      && not
          (any (λ (g : TierFeature). str_eq g.tier_id tier_id && str_eq g.feature f.feature) rows)
    then rest
    else none

abbrev pub with_features : Store → Option (List TierFeature) → Store × Option WriteError
with_features st none = (st, some other_error)
with_features st (some rows) = (record st { tier_features = rows }, none)

-- `duplicate` of the insert's error, or the features.
abbrev pub add_tier : ℕ → Store → Tier → List TierFeature → Bool → Store × Option WriteError
add_tier now st tier features true = (st, some already_exists)
add_tier now st tier features false =
    let tiers = st.tiers ++ (record tier { created_at = now } ∷ []) in
    with_features (record st { tiers = tiers })
      (insert_tier_features tiers tier.id st.tier_features features)

unfoldable pub create_tier : Weather → Store → Tier → List TierFeature → Store × Option WriteError
create_tier w st tier features = commit w.writing st (
    add_tier w.now st tier features
      (any (λ (t : Tier). str_eq t.id tier.id || str_eq t.name tier.name) st.tiers))

unfoldable pub get_tier_by_name : Weather → Store → String → Option (Option Tier)
get_tier_by_name w st name =
    read w.reading (first (select_where (λ (t : Tier). str_eq t.name name) st.tiers))

unfoldable pub get_all_tiers : Weather → Store → Option (List Tier)
get_all_tiers w st =
    read w.reading (order_by (λ (s t : Tier). w.text_before s.name t.name) st.tiers)

unfoldable pub update_tier_description :
    Weather → Store → String → String → Store × Option WriteError
update_tier_description w st id description = commit w.writing st (
  record st {
    tiers =
        update_where (λ (t : Tier). str_eq t.id id) (λ t. record t { description = description })
          st.tiers;
  },
  none,
)

unfoldable pub set_tier_features :
    Weather → Store → String → List TierFeature → Store × Option WriteError
set_tier_features w st tier_id features = commit w.writing st (
    with_features st (
      insert_tier_features st.tiers tier_id
        (delete_where (λ (f : TierFeature). str_eq f.tier_id tier_id) st.tier_features) features))

-- `ORDER BY tier_id, feature`
abbrev feature_before : (String → String → Bool) → TierFeature → TierFeature → Bool
feature_before before f g =
    if str_eq f.tier_id g.tier_id then before f.feature g.feature else before f.tier_id g.tier_id

unfoldable pub tier_features_by_tier : Weather → Store → Option (Dict (List TierFeature))
tier_features_by_tier w st = read w.reading (
    group (λ (f : TierFeature). (f.tier_id, f)) []
      (order_by (feature_before w.text_before) st.tier_features))

-- The tier's features and its scopes go with it; a key holds it fast.
abbrev pub drop_tier : Store → String → Bool → Bool → Store × Option WriteError
drop_tier st id true present = (st, some tier_in_use)
drop_tier st id false false = (st, some tier_missing)
drop_tier st id false true = (
  record st {
    tiers = delete_where (λ (t : Tier). str_eq t.id id) st.tiers;
    tier_features = delete_where (λ (f : TierFeature). str_eq f.tier_id id) st.tier_features;
    consumer_scopes = delete_where (λ (s : ScopeRow). str_eq s.tier_id id) st.consumer_scopes;
  },
  none,
)

unfoldable pub delete_tier : Weather → Store → String → Store × Option WriteError
delete_tier w st id = commit w.writing st (
    drop_tier st id (any (λ (k : KeyRow). str_eq k.tier_id id) st.keys && has_tier id st.tiers)
      (has_tier id st.tiers))
