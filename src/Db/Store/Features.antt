-- ===== src/Db/Store/Features.antt =====
-- The features of a tier, once they are set.
use keypooler.Base.{
  ◌≡◌, refl, sym, ap, ◌∙◌, String, Bool, true, false, Option, none, some, List, [], ◌∷◌, ◌++◌, map,
  arith, str_eq, eq_iff, if◌then◌else◌,
}
use keypooler.Db.{Tier, TierFeature}
use keypooler.Db.Postgres.Spend.{Ending, works, refuses, loses_reply}
use keypooler.Db.Store.{Store, Weather, delete_where, select_where, commit}
use keypooler.Db.Store.Tiers.{insert_tier_features, with_features, set_tier_features}

abbrev pub features_of : String → List TierFeature → List TierFeature
features_of id = select_where (λ (f : TierFeature). str_eq f.tier_id id)

abbrev pub of_tier : String → TierFeature → TierFeature
of_tier id f = record f { tier_id = id }

features_of-append :
    (id : String) (fs gs : List TierFeature)
    → features_of id (fs ++ gs) ≡ features_of id fs ++ features_of id gs
unfolding select_where
features_of-append id [] gs = refl
features_of-append id (f ∷ fs) gs = ground (arith, features_of-append id fs gs)

-- The features of one tier, by whether it is the one that is asked for.
features_of-map :
    (id j : String) (fs : List TierFeature)
    → features_of j (map (of_tier id) fs) ≡ (if str_eq id j then map (of_tier id) fs else [])
unfolding select_where
features_of-map id j [] = ground (arith)
features_of-map id j (f ∷ fs) = ground (arith, features_of-map id j fs)

features_of-delete :
    (id j : String) (fs : List TierFeature)
    → features_of j (delete_where (λ (f : TierFeature). str_eq f.tier_id id) fs)
      ≡ (if str_eq id j then [] else features_of j fs)
unfolding select_where delete_where
features_of-delete id j [] = ground (arith)
features_of-delete id j (f ∷ fs) =
    ground (arith, features_of-delete id j fs, eq_iff f.tier_id id, eq_iff f.tier_id j, eq_iff id j)

append_one : (fs gs : List TierFeature) (f : TierFeature) → (fs ++ (f ∷ [])) ++ gs ≡ fs ++ (f ∷ gs)
append_one [] gs f = refl
append_one (x ∷ fs) gs f = ap (λ l. x ∷ l) (append_one fs gs f)

append_nil : (fs : List TierFeature) → fs ++ [] ≡ fs
append_nil [] = refl
append_nil (f ∷ fs) = ap (λ l. f ∷ l) (append_nil fs)

rows_inj : (rows out : List TierFeature) → some rows ≡ some out → rows ≡ out
rows_inj rows out e = cc

taken_branch :
    (b : Bool) (o : Option (List TierFeature)) (out : List TierFeature)
    → (if b then o else none) ≡ some out
    → o ≡ some out
taken_branch true o out e = e
taken_branch false o out e = cc

inserted_rows :
    (tiers : List Tier) (id : String) (rows fs out : List TierFeature)
    → insert_tier_features tiers id rows fs ≡ some out
    → out ≡ rows ++ map (of_tier id) fs
unfolding insert_tier_features
inserted_rows tiers id rows [] out e = sym (rows_inj rows out e) ∙ sym (append_nil rows)
inserted_rows tiers id rows (f ∷ fs) out e =
    inserted_rows tiers id (rows ++ (of_tier id f ∷ [])) fs out (taken_branch _ _ out e)
    ∙ append_one rows (map (of_tier id) fs) (of_tier id f)

either_part :
    (b : Bool) (old new kept added : List TierFeature)
    → kept ≡ (if b then [] else old)
    → added ≡ (if b then new else [])
    → kept ++ added ≡ (if b then new else old)
either_part true old new kept added k a = ap (λ l. l ++ added) k ∙ a
either_part false old new kept added k a = ap (λ l. kept ++ l) a ∙ (append_nil kept ∙ k)

-- A write of features that has succeeded, by how its transaction ended.
record Written (st st' : Store) (o : Option (List TierFeature)) : Type 0 where
  pub rows : List TierFeature
  pub inserted : o ≡ some rows
  pub left : st' ≡ record st { tier_features = rows }

with_features-Written :
    (ending : Ending) (st st' : Store) (o : Option (List TierFeature))
    → commit ending st (with_features st o) ≡ (st', none)
    → Written st st' o
with_features-Written refuses st st' o e = cc
with_features-Written works st st' none e = cc
with_features-Written works st st' (some rows) e = record {
  rows = rows;
  inserted = refl;
  left = ap (λ x. x.0) (sym e);
}
with_features-Written loses_reply st st' none e = cc
with_features-Written loses_reply st st' (some rows) e = cc

-- Where `SetTierFeatures` succeeds, the tier has exactly the features that were given, in their order, and none of before;
-- every other tier has its own as before, and nothing else in the database has changed.
pub set_tier_features-features_of :
    (w : Weather) (st st' : Store) (id j : String) (fs : List TierFeature)
    → set_tier_features w st id fs ≡ (st', none)
    → (features_of j st'.tier_features
        ≡ (if str_eq id j then map (of_tier id) fs else features_of j st.tier_features))
      × (st' ≡ record st { tier_features = st'.tier_features })
unfolding set_tier_features
set_tier_features-features_of w st st' id j fs e =
    let kept = delete_where (λ (f : TierFeature). str_eq f.tier_id id) st.tier_features in
    let done =
      with_features-Written w.writing st st' (insert_tier_features st.tiers id kept fs) e in
    let rows = inserted_rows st.tiers id kept fs done.rows done.inserted in
    (
      ap (λ s. features_of j s.tier_features) done.left
          ∙ (ap (features_of j) rows
              ∙ (features_of-append j kept (map (of_tier id) fs)
                  ∙ either_part (str_eq id j) (features_of j st.tier_features) (map (of_tier id) fs)
                      (features_of j kept) (features_of j (map (of_tier id) fs))
                      (features_of-delete id j st.tier_features) (features_of-map id j fs))),
      done.left
          ∙ ap (λ rows. record st { tier_features = rows })
              (sym (ap (λ s. s.tier_features) done.left)),
    )
