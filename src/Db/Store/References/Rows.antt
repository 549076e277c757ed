-- ===== src/Db/Store/References/Rows.antt =====
-- Every write of keys keeps the references of the store.
use keypooler.Base.{
  both_parts, ℕ, ◌≡◌, refl, ap, ◌∙◌, subst, String, Bool, true, false, ◌||◌, Option, none, some,
  List, [], ◌∷◌, ◌++◌, map, arith, str_eq, eq_iff, or_else, if◌then◌else◌,
}
use keypooler.Float64.{Float64}
use keypooler.Db.{KeySecret, Key, Budget, SpendEvent}
use keypooler.Db.Postgres.Spend.{Ending, Tables}
use keypooler.Db.Store.{Store, KeyRow, Weather, any}
use keypooler.Db.Postgres.Spend as Spend
use keypooler.Db.Store.Tiers.{has_tier}
use keypooler.Db.Store.Keys as Keys
use keypooler.Db.Store.Keys.{
  Codec, has_key, insert_secrets, with_secrets, add_row, create_row, drop_key, update_key,
  rebudget_key, key_row, with_tables,
}
use keypooler.Db.Store.References.{
  All, weaken-All, append-All, delete_where-All, update_where-All, any-append, any-update_where,
  any-delete_where, Linked, commit-Linked,
}

-- An update of key rows that leaves their identifiers and tiers.
update_key-Linked :
    (st : Store) (id : String) (f : KeyRow → KeyRow)
    → ((k : KeyRow) → (f k).id ≡ k.id)
    → ((k : KeyRow) → (f k).tier_id ≡ k.tier_id)
    → Linked st
    → Linked (update_key st id f)
update_key-Linked st id f same tier u = record {
  hashes = u.hashes;
  features = u.features;
  keys =
      update_where-All (λ (k : KeyRow). has_tier k.tier_id st.tiers) _ f st.keys
        (λ k. ap (λ j. has_tier j st.tiers) (tier k)) u.keys;
  secrets =
      weaken-All _ _ st.key_secrets
        (λ s h.
          any-update_where (λ (k : KeyRow). str_eq k.id s.key_id) _ f st.keys
            (λ k. ap (λ j. str_eq j s.key_id) (same k))
          ∙ h)
        u.secrets;
  scopes = u.scopes;
}

pub add_usage-Linked :
    (w : Weather) (st : Store) (id : String) (n : ℕ)
    → Linked st
    → Linked (Keys.add_usage w st id n).0
unfolding Keys.add_usage
add_usage-Linked w st id n u =
    commit-Linked w.writing st _ u (update_key-Linked st id _ (λ k. refl) (λ k. refl) u)

pub reset_usage_window-Linked :
    (w : Weather) (st : Store) (id : String) (start n : ℕ)
    → Linked st
    → Linked (Keys.reset_usage_window w st id start n).0
unfolding Keys.reset_usage_window
reset_usage_window-Linked w st id start n u =
    commit-Linked w.writing st _ u (update_key-Linked st id _ (λ k. refl) (λ k. refl) u)

pub set_key_exhausted-Linked :
    (w : Weather) (st : Store) (id : String) (until : ℕ)
    → Linked st
    → Linked (Keys.set_key_exhausted w st id until).0
unfolding Keys.set_key_exhausted
set_key_exhausted-Linked w st id until u =
    commit-Linked w.writing st _ u (update_key-Linked st id _ (λ k. refl) (λ k. refl) u)

pub update_key_budget-Linked :
    (w : Weather) (st : Store) (id : String) (b : Option Budget)
    → Linked st
    → Linked (Keys.update_key_budget w st id b).0
unfolding Keys.update_key_budget
update_key_budget-Linked w st id b u = commit-Linked w.writing st _ u (rebudgeted _)
  where
    rebudgeted : (present : Bool) → Linked (rebudget_key st id b present).0
    rebudgeted true = update_key-Linked st id _ (λ k. refl) (λ k. refl) u
    rebudgeted false = u

-- What a spend leaves of the rows: their identifiers and tiers.
with_tables-Linked : (st : Store) (t : Tables) → Linked st → Linked (with_tables st t)
unfolding any
with_tables-Linked st t u = record {
  hashes = u.hashes;
  features = u.features;
  keys = mapped st.keys u.keys;
  secrets = weaken-All _ _ st.key_secrets (λ s h. found s.key_id st.keys ∙ h) u.secrets;
  scopes = u.scopes;
}
  where
    mapped :
        (ks : List KeyRow)
        → All (λ (k : KeyRow). has_tier k.tier_id st.tiers) ks
        → All
            (λ (k : KeyRow). has_tier k.tier_id st.tiers)
            (map (λ (k : KeyRow). record k { spending = or_else (t.keys k.id) k.spending }) ks)
    mapped [] a = tt
    mapped (k ∷ ks) a = (a.0, mapped ks a.1)

    found :
        (id : String) (ks : List KeyRow)
        → has_key id
            (map (λ (k : KeyRow). record k { spending = or_else (t.keys k.id) k.spending }) ks)
          ≡ has_key id ks
    found id [] = refl
    found id (k ∷ ks) = ap (λ b. str_eq k.id id || b) (found id ks)

pub record_spend-Linked :
    (w : Weather) (add : Float64 → Float64 → Float64) (st : Store) (e : SpendEvent)
    (period : Option ℕ)
    → Linked st
    → Linked (Keys.record_spend w add st e period).0
unfolding Keys.record_spend
record_spend-Linked w add st e period u =
    with_tables-Linked st (Spend.record_spend add w.writing (Keys.spend_tables st) e period).0 u

inserted-All :
    (id : String) (p : KeySecret → Bool) (rows ss : List KeySecret)
    → ((s : KeySecret) → p (record s { key_id = id }) ≡ true)
    → All p rows
    → (out : List KeySecret) → insert_secrets id rows ss ≡ some out
    → All p out
unfolding insert_secrets
inserted-All id p rows [] h a out e = subst (All p) (rows_inj rows out e) a
  where
    rows_inj : (xs ys : List KeySecret) → some xs ≡ some ys → xs ≡ ys
    rows_inj xs ys q = cc
inserted-All id p rows (s ∷ ss) h a out e =
    inserted-All id p (rows ++ (record s { key_id = id } ∷ [])) ss h
      (append-All p rows _ a (h s, tt)) out (untaken _ _ out e)
  where
    untaken :
        (b : Bool) (o : Option (List KeySecret)) (ys : List KeySecret)
        → (if b then none else o) ≡ some ys
        → o ≡ some ys
    untaken true o ys q = cc
    untaken false o ys q = q

with_secrets-Linked :
    (st : Store) (o : Option (List KeySecret))
    → ((rows : List KeySecret)
        → o ≡ some rows
        → All (λ (s : KeySecret). has_key s.key_id st.keys) rows)
    → Linked st
    → Linked (with_secrets st o).0
with_secrets-Linked st none h u = u
with_secrets-Linked st (some rows) h u = record {
  hashes = u.hashes;
  features = u.features;
  keys = u.keys;
  secrets = h rows refl;
  scopes = u.scopes;
}

last_key : (row : KeyRow) (ks : List KeyRow) → has_key row.id (ks ++ (row ∷ [])) ≡ true
unfolding any
last_key row [] = ground (arith, eq_iff row.id row.id)
last_key row (k ∷ ks) = ground (arith, last_key row ks)

add_row-Linked :
    (st : Store) (row : KeyRow) (ss : List KeySecret) (ok : Bool)
    → (ok ≡ true → has_tier row.tier_id st.tiers ≡ true)
    → Linked st
    → Linked (add_row st row ss ok).0
add_row-Linked st row ss false h u = u
add_row-Linked st row ss true h u =
    let st' : Store = record st { keys = st.keys ++ (row ∷ []) } in
    let more : Linked st' = record {
      hashes = u.hashes;
      features = u.features;
      keys = append-All (λ (k : KeyRow). has_tier k.tier_id st.tiers) st.keys _ u.keys (h refl, tt);
      secrets =
          weaken-All _ _ st.key_secrets
            (λ s. any-append (λ (k : KeyRow). str_eq k.id s.key_id) st.keys (row ∷ [])) u.secrets;
      scopes = u.scopes;
    } in
    with_secrets-Linked st' _
      (inserted-All row.id (λ (s : KeySecret). has_key s.key_id st'.keys) st.key_secrets ss
        (λ s. last_key row st.keys) more.secrets)
      more

pub create_key-Linked :
    (codec : Codec) (w : Weather) (st : Store) (key : Key) (ss : List KeySecret)
    → Linked st
    → Linked (Keys.create_key codec w st key ss).0
unfolding Keys.create_key key_row
create_key-Linked codec w st key ss u = created _
  where
    created : (metadata : Option String) → Linked (create_row w st key ss metadata).0
    created none = u
    created (some text) =
        commit-Linked w.writing st _ u (add_row-Linked st _ ss _ (λ e. (both_parts _ _ e).0) u)

pub delete_key-Linked :
    (w : Weather) (st : Store) (id : String) → Linked st → Linked (Keys.delete_key w st id).0
unfolding Keys.delete_key
delete_key-Linked w st id u = commit-Linked w.writing st _ u (dropped _)
  where
    dropped : (present : Bool) → Linked (drop_key st id present).0
    dropped false = u
    dropped true = record {
      hashes = u.hashes;
      features = u.features;
      keys = delete_where-All _ _ _ st.keys (λ k h g. h) u.keys;
      secrets =
          delete_where-All _ _ _ st.key_secrets
            (λ s h other.
              any-delete_where (λ (k : KeyRow). str_eq k.id s.key_id)
                (λ (k : KeyRow). str_eq k.id id) st.keys
                (λ k e.
                  ground
                    (arith, other, e, eq_iff k.id s.key_id, eq_iff s.key_id id, eq_iff k.id id))
                h)
            u.secrets;
      scopes = u.scopes;
    }
