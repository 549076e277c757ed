-- ===== src/Db/Store/References/Changes.antt =====
-- Every write of tiers keeps the references of the store.
use keypooler.Base.{
  both_parts, both, ◌≡◌, refl, ap, ◌∙◌, subst, String, Bool, true, false, not, ◌&&◌, Option, none,
  some, List, [], ◌∷◌, ◌++◌, arith, str_eq, eq_iff, if◌then◌else◌,
}
use keypooler.Db.{Tier, TierFeature}
use keypooler.Db.Store.{Store, KeyRow, Weather, any, delete_where, update_where}
use keypooler.Db.Store.Tiers as Tiers
use keypooler.Db.Store.Tiers.{has_tier, insert_tier_features, with_features, add_tier, drop_tier}
use keypooler.Db.Store.Consumers.{has_consumer}
use keypooler.Db.Store.References.{
  All, weaken-All, append-All, delete_where-All, any-append, any-update_where, any-delete_where,
  none-All, Linked, commit-Linked,
}

inserted-All :
    (tiers : List Tier) (id : String) (rows fs : List TierFeature)
    → All (λ (f : TierFeature). has_tier f.tier_id tiers) rows
    → (out : List TierFeature) → insert_tier_features tiers id rows fs ≡ some out
    → All (λ (f : TierFeature). has_tier f.tier_id tiers) out
unfolding insert_tier_features
inserted-All tiers id rows [] a out e =
    subst (All (λ (f : TierFeature). has_tier f.tier_id tiers)) (rows_inj rows out e) a
  where
    rows_inj : (xs ys : List TierFeature) → some xs ≡ some ys → xs ≡ ys
    rows_inj xs ys q = cc
inserted-All tiers id rows (f ∷ fs) a out e =
    let (there, rest) = referred (has_tier id tiers) _ _ out e in
    inserted-All tiers id (rows ++ (record f { tier_id = id } ∷ [])) fs
      (append-All (λ (g : TierFeature). has_tier g.tier_id tiers) rows _ a (there, tt)) out rest
  where
    referred :
        (b c : Bool) (o : Option (List TierFeature)) (ys : List TierFeature)
        → (if b && c then o else none) ≡ some ys
        → (b ≡ true) × (o ≡ some ys)
    referred true true o ys q = (refl, q)
    referred true false o ys q = cc
    referred false c o ys q = cc

with_features-Linked :
    (st : Store) (o : Option (List TierFeature))
    → ((rows : List TierFeature)
        → o ≡ some rows
        → All (λ (f : TierFeature). has_tier f.tier_id st.tiers) rows)
    → Linked st
    → Linked (with_features st o).0
with_features-Linked st none h u = u
with_features-Linked st (some rows) h u = record {
  hashes = u.hashes;
  features = h rows refl;
  keys = u.keys;
  secrets = u.secrets;
  scopes = u.scopes;
}

-- More tiers refer to nothing.
more_tiers-Linked :
    (st : Store) (t : Tier) → Linked st → Linked (record st { tiers = st.tiers ++ (t ∷ []) })
more_tiers-Linked st t u = record {
  hashes = u.hashes;
  features = weaken-All _ _ st.tier_features (λ f. any-append _ st.tiers (t ∷ [])) u.features;
  keys = weaken-All _ _ st.keys (λ k. any-append _ st.tiers (t ∷ [])) u.keys;
  secrets = u.secrets;
  scopes =
      weaken-All _ _ st.consumer_scopes
        (λ s h.
          both (has_consumer s.consumer_id st.consumers) _ _ (any-append _ st.tiers (t ∷ [])) h)
        u.scopes;
}
  where
    both : (a b c : Bool) → (b ≡ true → c ≡ true) → (a && b) ≡ true → (a && c) ≡ true
    both true b c f h = f h
    both false b c f h = cc

pub create_tier-Linked :
    (w : Weather) (st : Store) (t : Tier) (fs : List TierFeature)
    → Linked st
    → Linked (Tiers.create_tier w st t fs).0
unfolding Tiers.create_tier
create_tier-Linked w st t fs u = commit-Linked w.writing st _ u (added _)
  where
    added : (taken : Bool) → Linked (add_tier w.now st t fs taken).0
    added true = u
    added false =
        let more = more_tiers-Linked st (record t { created_at = w.now }) u in
        with_features-Linked
          (record st { tiers = st.tiers ++ (record t { created_at = w.now } ∷ []) }) _
          (inserted-All _ t.id st.tier_features fs more.features) more

pub set_tier_features-Linked :
    (w : Weather) (st : Store) (id : String) (fs : List TierFeature)
    → Linked st
    → Linked (Tiers.set_tier_features w st id fs).0
unfolding Tiers.set_tier_features
set_tier_features-Linked w st id fs u = commit-Linked w.writing st _ u (
    with_features-Linked st _
      (inserted-All st.tiers id _ fs
        (delete_where-All _ _ _ st.tier_features (λ f h g. h) u.features))
      u)

pub update_tier_description-Linked :
    (w : Weather) (st : Store) (id description : String)
    → Linked st
    → Linked (Tiers.update_tier_description w st id description).0
unfolding Tiers.update_tier_description
update_tier_description-Linked w st id description u = commit-Linked w.writing st _ u (record {
  hashes = u.hashes;
  features = weaken-All _ _ st.tier_features (λ f h. same f.tier_id ∙ h) u.features;
  keys = weaken-All _ _ st.keys (λ k h. same k.tier_id ∙ h) u.keys;
  secrets = u.secrets;
  scopes =
      weaken-All _ _ st.consumer_scopes
        (λ s h. ap (λ b. has_consumer s.consumer_id st.consumers && b) (same s.tier_id) ∙ h)
        u.scopes;
})
  where
    same :
        (j : String)
        → has_tier j (
            update_where
              (λ (t : Tier). str_eq t.id id)
              (λ t. record t { description = description })
              st.tiers)
          ≡ has_tier j st.tiers
    same j = any-update_where (λ (t : Tier). str_eq t.id j) _ _ st.tiers (λ t. refl)

other_tier :
    (id j : String) (tiers : List Tier)
    → str_eq j id ≡ false
    → has_tier j tiers ≡ true
    → has_tier j (delete_where (λ (t : Tier). str_eq t.id id) tiers) ≡ true
other_tier id j tiers other h =
    any-delete_where (λ (t : Tier). str_eq t.id j) (λ (t : Tier). str_eq t.id id) tiers
      (λ t e. ground (arith, other, e, eq_iff t.id j, eq_iff j id, eq_iff t.id id)) h

pub delete_tier-Linked :
    (w : Weather) (st : Store) (id : String) → Linked st → Linked (Tiers.delete_tier w st id).0
unfolding Tiers.delete_tier
delete_tier-Linked w st id u = commit-Linked w.writing st _ u (dropped _ _ refl refl)
  where
    unheld : (held present : Bool) → (held && present) ≡ false → present ≡ true → held ≡ false
    unheld true true h e = cc
    unheld true false h e = cc
    unheld false present h e = refl

    dropped :
        (fast present : Bool)
        → (any (λ (k : KeyRow). str_eq k.tier_id id) st.keys && has_tier id st.tiers) ≡ fast
        → has_tier id st.tiers ≡ present
        → Linked (drop_tier st id fast present).0
    dropped true present h e = u
    dropped false false h e = u
    dropped false true h e = record {
      hashes = u.hashes;
      features =
          delete_where-All _ _ _ st.tier_features
            (λ f g other. other_tier id f.tier_id st.tiers other g) u.features;
      keys = kept_keys st.keys u.keys (none-All _ st.keys (unheld _ _ h e));
      secrets = u.secrets;
      scopes =
          delete_where-All _ _ _ st.consumer_scopes
            (λ s g other.
              let (there, tier) = both_parts _ _ g in
              both _ _ there (other_tier id s.tier_id st.tiers other tier))
            u.scopes;
    }
      where
        kept_keys :
            (ks : List KeyRow)
            → All (λ (k : KeyRow). has_tier k.tier_id st.tiers) ks
            → All (λ (k : KeyRow). not (str_eq k.tier_id id)) ks
            → All
                (λ (k : KeyRow).
                  has_tier k.tier_id (delete_where (λ (t : Tier). str_eq t.id id) st.tiers))
                ks
        kept_keys [] a b = tt
        kept_keys (k ∷ ks) a b =
            (other_tier id k.tier_id st.tiers (ground (arith, b.0)) a.0, kept_keys ks a.1 b.1)
