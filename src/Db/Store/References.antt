-- ===== src/Db/Store/References.antt =====
-- The references of the tables: every row refers to rows that are there, and no two consumers share a hash.
pub mod Changes
pub mod Rows
pub mod Consumers
pub mod Histories
use keypooler.Base.{
  ℕ, ◌≡◌, refl, sym, ap, ◌∙◌, subst, inl, inr, String, Bool, true, false, not, ◌&&◌, ◌||◌, Option,
  none, some, List, [], ◌∷◌, ◌++◌, map, arith, str_eq, eq_iff, if◌then◌else◌,
}
use keypooler.Db.{Tier, TierFeature, KeySecret, Consumer}
use keypooler.Db.Adapter.{WriteError}
use keypooler.Db.Postgres.Spend.{Ending, works, refuses, loses_reply}
use keypooler.Db.Store.{Store, KeyRow, ScopeRow, any, delete_where, update_where, commit}
use keypooler.Db.Store.Tiers.{has_tier}
use keypooler.Db.Store.Keys.{has_key}
use keypooler.Db.Store.Consumers.{has_consumer}
use keypooler.Db.Store.Callers.{DistinctHashes}

module _ {A : Type 0} where
  abbrev pub All : (A → Bool) → List A → Type 0
  All p [] = Unit
  All p (x ∷ xs) = (p x ≡ true) × All p xs

  pub weaken-All :
      (p q : A → Bool) (xs : List A) → ((x : A) → p x ≡ true → q x ≡ true) → All p xs → All q xs
  weaken-All p q [] h a = tt
  weaken-All p q (x ∷ xs) h a = (h x a.0, weaken-All p q xs h a.1)

  pub append-All : (p : A → Bool) (xs ys : List A) → All p xs → All p ys → All p (xs ++ ys)
  append-All p [] ys a b = b
  append-All p (x ∷ xs) ys a b = (a.0, append-All p xs ys a.1 b)

  kept_row :
      (p d q : A → Bool) (x : A) (rest : List A) (gone : Bool)
      → d x ≡ gone
      → (d x ≡ false → q x ≡ true)
      → All q rest
      → All q (if gone then rest else (x ∷ rest))
  kept_row p d q x rest true e h a = a
  kept_row p d q x rest false e h a = (h e, a)

  -- What a delete leaves.
  pub delete_where-All :
      (p d q : A → Bool) (xs : List A)
      → ((x : A) → p x ≡ true → d x ≡ false → q x ≡ true)
      → All p xs
      → All q (delete_where d xs)
  unfolding delete_where
  delete_where-All p d q [] h a = tt
  delete_where-All p d q (x ∷ xs) h a =
      kept_row p d q x (delete_where d xs) (d x) refl (h x a.0) (delete_where-All p d q xs h a.1)

  pub update_where-All :
      (p q : A → Bool) (f : A → A) (xs : List A)
      → ((x : A) → p (f x) ≡ p x)
      → All p xs
      → All p (update_where q f xs)
  unfolding update_where
  update_where-All p q f [] h a = tt
  update_where-All p q f (x ∷ xs) h a =
      (updated_row (q x) (h x) a.0, update_where-All p q f xs h a.1)
    where
      updated_row : (b : Bool) → p (f x) ≡ p x → p x ≡ true → p (if b then f x else x) ≡ true
      updated_row true e g = e ∙ g
      updated_row false e g = g

  pub any-append : (p : A → Bool) (xs ys : List A) → any p xs ≡ true → any p (xs ++ ys) ≡ true
  unfolding any
  any-append p [] ys h = cc
  any-append p (x ∷ xs) ys h = ground (arith, any-append p xs ys)

  pub any-update_where :
      (p q : A → Bool) (f : A → A) (xs : List A)
      → ((x : A) → p (f x) ≡ p x)
      → any p (update_where q f xs) ≡ any p xs
  unfolding any update_where
  any-update_where p q f [] h = refl
  any-update_where p q f (x ∷ xs) h =
      ap (λ b. b || any p (update_where q f xs)) (updated_row (q x) (h x))
      ∙ ap (λ b. p x || b) (any-update_where p q f xs h)
    where
      updated_row : (b : Bool) → p (f x) ≡ p x → p (if b then f x else x) ≡ p x
      updated_row true e = e
      updated_row false e = refl

  pub any-delete_where :
      (p d : A → Bool) (xs : List A)
      → ((x : A) → p x ≡ true → d x ≡ false)
      → any p xs ≡ true
      → any p (delete_where d xs) ≡ true
  unfolding any delete_where
  any-delete_where p d [] h e = cc
  any-delete_where p d (x ∷ xs) h e = ground (arith, any-delete_where p d xs h, h x)

  pub none-All : (p : A → Bool) (xs : List A) → any p xs ≡ false → All (λ x. not (p x)) xs
  unfolding any
  none-All p [] h = tt
  none-All p (x ∷ xs) h = (ground arith, none-All p xs (ground arith))

pub record Linked (st : Store) : Type 0 where
  pub hashes : DistinctHashes st.consumers
  pub features : All (λ (f : TierFeature). has_tier f.tier_id st.tiers) st.tier_features
  pub keys : All (λ (k : KeyRow). has_tier k.tier_id st.tiers) st.keys
  pub secrets : All (λ (s : KeySecret). has_key s.key_id st.keys) st.key_secrets
  pub scopes :
      All
        (λ (s : ScopeRow). has_consumer s.consumer_id st.consumers && has_tier s.tier_id st.tiers)
        st.consumer_scopes

-- However a write ends, the tables are those of before or those that it made.
pub commit-Linked :
    (ending : Ending) (st : Store) (done : Store × Option WriteError)
    → Linked st
    → Linked done.0
    → Linked (commit ending st done).0
commit-Linked refuses st (st', e) u v = u
commit-Linked works st (st', none) u v = v
commit-Linked works st (st', some e) u v = u
commit-Linked loses_reply st (st', none) u v = v
commit-Linked loses_reply st (st', some e) u v = u
