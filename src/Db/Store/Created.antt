-- ===== src/Db/Store/Created.antt =====
-- A key that has been created is read back.
use keypooler.Base.{
  ℕ, ◌≡◌, refl, sym, ap, ◌∙◌, subst, ◌⊎◌, inl, inr, String, Bool, true, false, Option, none, some,
  List, [], ◌∷◌, ◌++◌, leb, str_eq, if◌then◌else◌,
}
use keypooler.Float64.{zero_f}
use keypooler.Db.{Key, KeySecret, Budget}
use keypooler.Db.Postgres.{to_micros}
use keypooler.Db.Postgres.Spend.{Ending, works, refuses, loses_reply, budget_columns, budget_of}
use keypooler.Db.Store.{Store, KeyRow, Weather, place, order_by, commit, read}
use keypooler.Db.Store.Keys.{
  Codec, key_row, with_secrets, add_row, create_row, create_key, decoded, with_metadata, key_of,
  keys_of, get_all_keys,
}

module _ {A : Type 0} where
  abbrev pub In : A → List A → Type 0
  In x [] = ⊥
  In x (y ∷ ys) = (x ≡ y) ⊎ In x ys

  In-append : (x : A) (xs : List A) → In x (xs ++ (x ∷ []))
  In-append x [] = inl refl
  In-append x (y ∷ ys) = inr (In-append x ys)

  In-place : (before : A → A → Bool) (x : A) (ys : List A) → In x (place before x ys)
  unfolding place
  In-place before x [] = inl refl
  In-place before x (y ∷ ys) = placed (before x y) (In-place before x ys)
    where
      placed :
          (b : Bool)
          → In x (place before x ys)
          → In x (if b then x ∷ y ∷ ys else y ∷ place before x ys)
      placed true g = inl refl
      placed false g = inr g

  In-place_other :
      (before : A → A → Bool) (x z : A) (ys : List A) → In z ys → In z (place before x ys)
  unfolding place
  In-place_other before x z [] h = absurd h
  In-place_other before x z (y ∷ ys) h = placed (before x y) h (In-place_other before x z ys)
    where
      placed :
          (b : Bool)
          → (z ≡ y) ⊎ In z ys
          → (In z ys → In z (place before x ys))
          → In z (if b then x ∷ y ∷ ys else y ∷ place before x ys)
      placed true g k = inr g
      placed false (inl e) k = inl e
      placed false (inr g) k = inr (k g)

  In-order_by : (before : A → A → Bool) (z : A) (xs : List A) → In z xs → In z (order_by before xs)
  unfolding order_by
  In-order_by before z [] h = absurd h
  In-order_by before z (x ∷ xs) (inl e) =
      subst (λ y. In y (place before x (order_by before xs))) (sym e)
        (In-place before x (order_by before xs))
  In-order_by before z (x ∷ xs) (inr h) =
      In-place_other before x z (order_by before xs) (In-order_by before z xs h)

out_inj : (xs ys : List Key) → some xs ≡ some ys → xs ≡ ys
out_inj xs ys s = cc

key_inj : (i j : Key) → some i ≡ some j → i ≡ j
key_inj i j s = cc

budget_of-budget_columns :
    (b : Option Budget)
    → let (amount, unit, reset_day) = budget_columns b in budget_of amount unit reset_day ≡ b
unfolding budget_of budget_columns
budget_of-budget_columns none = refl
budget_of-budget_columns (some b) = refl

-- A key as the database gives it back: what the insert leaves to the table's defaults is reset, and its times keep their
-- microseconds.
abbrev pub stored : ℕ → Key → Key
stored now key = record key {
  expires_at = to_micros key.expires_at;
  usage_window_start = to_micros key.usage_window_start;
  exhausted_until = none;
  spent = zero_f;
  spent_period_start = none;
  created_at = now;
}

module _ (codec : Codec) where
  keys_of-In :
      (rs : List KeyRow) (r : KeyRow) (k : Key) (ks : List Key)
      → In r rs
      → key_of codec r ≡ some k
      → keys_of codec rs ≡ some ks
      → In k ks
  unfolding keys_of
  keys_of-In [] r k ks h e g = absurd h
  keys_of-In (x ∷ rs) r k ks h e g =
      found (key_of codec x) (keys_of codec rs) ks h refl refl g (λ js. keys_of-In rs r k js)
    where
      found :
          (o : Option Key) (rest : Option (List Key)) (out : List Key)
          → (r ≡ x) ⊎ In r rs
          → key_of codec x ≡ o
          → keys_of codec rs ≡ rest
          → (elim o [
            | none ↦ none
            | some j ↦ (elim rest [ none ↦ none | some js ↦ some (j ∷ js) ])
          ])
            ≡ some out
          → ((js : List Key)
              → In r rs
              → key_of codec r ≡ some k
              → keys_of codec rs ≡ some js
              → In k js)
          → In k out
      found none rest out i p q s rec = cc
      found (some j) none out i p q s rec = cc
      found (some j) (some js) out (inl same) p q s rec =
          subst (In k) (out_inj (j ∷ js) out s)
            (inl (key_inj k j (sym e ∙ (ap (key_of codec) same ∙ p))))
      found (some j) (some js) out (inr later) p q s rec =
          subst (In k) (out_inj (j ∷ js) out s) (inr (rec js later e q))

  key_of-key_row :
      (now : ℕ) (key : Key) (text : String)
      → str_eq text "" ≡ false
      → codec.unmarshal text ≡ some (some key.metadata)
      → key_of codec (key_row now key text) ≡ some (stored now key)
  unfolding key_row budget_columns
  key_of-key_row now key text full back =
      let row = key_row now key text in
      ap (λ b. with_metadata codec row (decoded codec (codec.unmarshal (if b then "{}" else text))))
        full
      ∙ (ap (λ o. with_metadata codec row (decoded codec o)) back
          ∙ ap (λ b. some (record (stored now key) { budget = b }))
              (budget_of-budget_columns key.budget))

  written_keys :
      (ending : Ending) (st more st' : Store) (o : Option (List KeySecret))
      → commit ending st (with_secrets more o) ≡ (st', none)
      → st'.keys ≡ more.keys
  written_keys refuses st more st' o e = cc
  written_keys works st more st' none e = cc
  written_keys works st more st' (some rows) e = ap (λ x. x.0.keys) (sym e)
  written_keys loses_reply st more st' none e = cc
  written_keys loses_reply st more st' (some rows) e = cc

  added_keys :
      (ending : Ending) (st st' : Store) (row : KeyRow) (ss : List KeySecret) (ok : Bool)
      → commit ending st (add_row st row ss ok) ≡ (st', none)
      → st'.keys ≡ st.keys ++ (row ∷ [])
  added_keys refuses st st' row ss ok e = cc
  added_keys works st st' row ss false e = cc
  added_keys works st st' row ss true e =
      written_keys works st (record st { keys = st.keys ++ (row ∷ []) }) st' _ e
  added_keys loses_reply st st' row ss false e = cc
  added_keys loses_reply st st' row ss true e =
      written_keys loses_reply st (record st { keys = st.keys ++ (row ∷ []) }) st' _ e

  read_keys :
      (b : Bool) (o : Option (List Key)) (ks : List Key)
      → (elim (read b tt) [ none ↦ none | some done ↦ o ]) ≡ some ks
      → o ≡ some ks
  read_keys true o ks e = e
  read_keys false o ks e = cc

  -- Where `CreateKey` has succeeded and the keys can be read, the key is among them, with what it was created with: its
  -- tier, limits, budget and metadata, and its expiry and its window's start to the microsecond; it rests from nothing and has spent nothing, and its creation time is the database's.
  -- `json.Unmarshal` must give back what `json.Marshal` made of the metadata, which is no empty text.
  pub get_all_keys-create_key :
      (w v : Weather) (st st' : Store) (key : Key) (ss : List KeySecret) (text : String)
      (ks : List Key)
      → codec.marshal key.metadata ≡ some text
      → str_eq text "" ≡ false
      → codec.unmarshal text ≡ some (some key.metadata)
      → create_key codec w st key ss ≡ (st', none)
      → get_all_keys codec v st' ≡ some ks
      → In (stored w.now key) ks
  unfolding create_key get_all_keys
  get_all_keys-create_key w v st st' key ss text ks made full back e g =
      let row = key_row w.now key text in
      let keys =
        added_keys w.writing st st' row ss _
          (subst (λ o. create_row w st key ss o ≡ (st', none)) made e) in
      keys_of-In (order_by (λ (j k : KeyRow). leb j.created_at k.created_at) st'.keys) row
        (stored w.now key) ks
        (In-order_by (λ (j k : KeyRow). leb j.created_at k.created_at) row st'.keys
          (subst (In row) (sym keys) (In-append row st.keys)))
        (key_of-key_row w.now key text full back) (read_keys v.reading _ ks g)
