-- ===== src/Db/Store/Keys.antt =====
-- The keys and secrets of internal/db/postgres_keys.go, and the statements of internal/db/postgres_budget.go on
-- the whole store. encoding/json is a parameter.
use keypooler.Base.{
  ℕ, String, Bool, true, false, not, ◌&&◌, Option, none, some, List, [], ◌∷◌, ◌++◌, map, leb,
  str_eq, or_else, if◌then◌else◌,
}
use keypooler.Base.Dict.{Dict}
use keypooler.Float64.{Float64, zero_f}
use keypooler.Json.{Members, end_of}
use keypooler.Db.{Key, KeySecret, Budget, SpendEvent, SpendResult}
use keypooler.Db.Adapter.{WriteError, key_missing, other_error}
use keypooler.Db.Postgres.{micros, to_micros, add_count, set_count}
use keypooler.Db.Postgres.Spend.{SpendRow, Tables, budget_columns, budget_of, rebudget}
use keypooler.Db.Postgres.Spend as Spend
use keypooler.Db.Store.{
  Store, KeyRow, Weather, any, delete_where, select_where, update_where, first, order_by, group,
  commit, read,
}
use keypooler.Db.Store.Tiers.{has_tier}

-- `json.Marshal` of a key's metadata, none where it fails; `json.Unmarshal` into them, none where it fails and an empty
-- Option for "null".
pub record Codec : Type 0 where
  pub marshal : Members → Option String
  pub unmarshal : String → Option (Option Members)

abbrev pub has_key : String → List KeyRow → Bool
has_key id = any λ (k : KeyRow). str_eq k.id id

abbrev pub spend_row : Option Budget → SpendRow
spend_row b =
    let (amount, unit, reset_day) = budget_columns b in
    record {
      budget_amount = amount;
      budget_unit = unit;
      budget_reset_day = reset_day;
      spent = zero_f;
      spent_period_start = none;
    }

-- The row of the insert; what it does not name has the table's default.
unfoldable pub key_row : ℕ → Key → String → KeyRow
unfolding budget_columns
key_row now key metadata = record {
  id = key.id;
  name = key.name;
  key_value = key.key_value;
  tier_id = key.tier_id;
  is_active = key.is_active;
  expires_at = to_micros key.expires_at;
  usage_limit = key.usage_limit;
  usage_window_seconds = key.usage_window_seconds;
  usage = record {
    usage_count = key.usage_count;
    usage_window_start = to_micros key.usage_window_start;
  };
  exhausted_until = none;
  metadata_json = metadata;
  created_at = now;
  spending = spend_row key.budget;
}

-- The loop over the secrets, none where the key has one of this name.
unfoldable pub insert_secrets : String → List KeySecret → List KeySecret → Option (List KeySecret)
insert_secrets key_id rows [] = some rows
insert_secrets key_id rows (s ∷ ss) =
    let rest = insert_secrets key_id (rows ++ (record s { key_id = key_id } ∷ [])) ss in
    if any (λ (r : KeySecret). str_eq r.key_id key_id && str_eq r.name s.name) rows
    then none
    else rest

abbrev pub with_secrets : Store → Option (List KeySecret) → Store × Option WriteError
with_secrets st none = (st, some other_error)
with_secrets st (some rows) = (record st { key_secrets = rows }, none)

-- The key's tier must be there, and its identifier not.
abbrev pub add_row : Store → KeyRow → List KeySecret → Bool → Store × Option WriteError
add_row st row secrets false = (st, some other_error)
add_row st row secrets true =
    with_secrets (record st { keys = st.keys ++ (row ∷ []) })
      (insert_secrets row.id st.key_secrets secrets)

abbrev pub create_row :
    Weather → Store → Key → List KeySecret → Option String → Store × Option WriteError
create_row w st key secrets none = (st, some other_error)
create_row w st key secrets (some metadata) = commit w.writing st (
    add_row st (key_row w.now key metadata) secrets
      (has_tier key.tier_id st.tiers && not (has_key key.id st.keys)))

abbrev pub drop_key : Store → String → Bool → Store × Option WriteError
drop_key st id false = (st, some other_error)
drop_key st id true = (
  record st {
    keys = delete_where (λ (k : KeyRow). str_eq k.id id) st.keys;
    key_secrets = delete_where (λ (s : KeySecret). str_eq s.key_id id) st.key_secrets;
  },
  none,
)

unfoldable pub delete_key : Weather → Store → String → Store × Option WriteError
delete_key w st id = commit w.writing st (drop_key st id (has_key id st.keys))

-- `UPDATE keys SET … WHERE id = …`
abbrev pub update_key : Store → String → (KeyRow → KeyRow) → Store
update_key st id f = record st { keys = update_where (λ (k : KeyRow). str_eq k.id id) f st.keys }

unfoldable pub add_usage : Weather → Store → String → ℕ → Store × Option WriteError
add_usage w st id n =
    commit w.writing st (update_key st id (λ k. record k { usage = add_count n k.usage }), none)

unfoldable pub reset_usage_window : Weather → Store → String → ℕ → ℕ → Store × Option WriteError
reset_usage_window w st id start count =
    commit w.writing st
      (update_key st id (λ k. record k { usage = set_count count start k.usage }), none)

unfoldable pub set_key_exhausted : Weather → Store → String → ℕ → Store × Option WriteError
set_key_exhausted w st id until =
    commit w.writing st
      (update_key st id (λ k. record k { exhausted_until = some (micros until) }), none)

unfoldable pub key_secrets_by_key : Weather → Store → Option (Dict (List KeySecret))
key_secrets_by_key w st = read w.reading (
    group (λ (s : KeySecret). (s.key_id, s)) []
      (order_by
        (λ (r s : KeySecret).
          if str_eq r.key_id s.key_id
          then w.text_before r.name s.name
          else w.text_before r.key_id s.key_id)
        st.key_secrets))

abbrev pub rebudget_key : Store → String → Option Budget → Bool → Store × Option WriteError
rebudget_key st id b false = (st, some key_missing)
rebudget_key st id b true =
    (update_key st id (λ k. record k { spending = rebudget (budget_columns b) k.spending }), none)

unfoldable pub update_key_budget :
    Weather → Store → String → Option Budget → Store × Option WriteError
update_key_budget w st id b = commit w.writing st (rebudget_key st id b (has_key id st.keys))

-- What `RecordSpend` sees of the store, and the store with what it leaves.
abbrev pub spend_tables : Store → Tables
spend_tables st = record {
  keys = λ id. elim (first (select_where (λ (k : KeyRow). str_eq k.id id) st.keys)) [
    | none ↦ none
    | some k ↦ some k.spending
  ];
  spend_events = st.spend_events;
}

abbrev pub with_tables : Store → Tables → Store
with_tables st t = record st {
  keys = map (λ (k : KeyRow). record k { spending = or_else (t.keys k.id) k.spending }) st.keys;
  spend_events = t.spend_events;
}

unfoldable pub record_spend :
    Weather → (Float64 → Float64 → Float64) → Store → SpendEvent → Option ℕ → Store × SpendResult
record_spend w add st e period =
    let (t, result) = Spend.record_spend add w.writing (spend_tables st) e period in
    (with_tables st t, result)

module _ (codec : Codec) where
  unfoldable pub create_key : Weather → Store → Key → List KeySecret → Store × Option WriteError
  create_key w st key secrets = create_row w st key secrets (codec.marshal key.metadata)

  abbrev pub decoded : Option (Option Members) → Option Members
  decoded none = none
  decoded (some none) = some end_of
  decoded (some (some m)) = some m

  -- An empty column is read as "{}", and "null" as no metadata.
  abbrev pub metadata_of : String → Option Members
  metadata_of text = decoded (codec.unmarshal (if str_eq text "" then "{}" else text))

  abbrev pub key_with : KeyRow → Members → Key
  key_with r metadata = record {
    id = r.id;
    name = r.name;
    key_value = r.key_value;
    tier_id = r.tier_id;
    is_active = r.is_active;
    expires_at = r.expires_at;
    usage_limit = r.usage_limit;
    usage_count = r.usage.usage_count;
    usage_window_seconds = r.usage_window_seconds;
    usage_window_start = r.usage.usage_window_start;
    exhausted_until = r.exhausted_until;
    budget = budget_of r.spending.budget_amount r.spending.budget_unit r.spending.budget_reset_day;
    spent = r.spending.spent;
    spent_period_start = r.spending.spent_period_start;
    metadata = metadata;
    created_at = r.created_at;
  }

  abbrev pub with_metadata : KeyRow → Option Members → Option Key
  with_metadata r none = none
  with_metadata r (some m) = some (key_with r m)

  abbrev pub key_of : KeyRow → Option Key
  key_of r = with_metadata r (metadata_of r.metadata_json)

  -- One key that does not parse fails the whole read.
  unfoldable pub keys_of : List KeyRow → Option (List Key)
  unfolding budget_of
  keys_of [] = some []
  keys_of (r ∷ rs) =
      let rest = keys_of rs in
      elim (key_of r) [
        | none ↦ none
        | some k ↦ (elim rest [ none ↦ none | some ks ↦ some (k ∷ ks) ])
      ]

  unfoldable pub get_all_keys : Weather → Store → Option (List Key)
  get_all_keys w st = elim (read w.reading tt) [
    | none ↦ none
    | some done ↦ keys_of (order_by (λ (j k : KeyRow). leb j.created_at k.created_at) st.keys)
  ]
