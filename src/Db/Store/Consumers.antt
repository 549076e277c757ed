-- ===== src/Db/Store/Consumers.antt =====
-- internal/db/postgres_consumers.go: consumers, their scopes, and the usage events.
use keypooler.Base.{
  ℕ, String, Bool, true, false, ◌||◌, ◌&&◌, Option, none, some, List, [], ◌∷◌, ◌++◌, map, take, leb,
  ltb, str_eq, ◌==◌, or_else, if◌then◌else◌,
}
use keypooler.Base.Dict.{Dict}
use keypooler.Db.Postgres.{micros}
use keypooler.Db.{Consumer, UsageEvent}
use keypooler.Db.Adapter.{WriteError, already_exists, other_error}
use keypooler.Db.Store.{
  Store, ScopeRow, EventRow, Weather, any, delete_where, select_where, first, order_by, group,
  commit, read,
}
use keypooler.Db.Store.Tiers.{has_tier}

abbrev pub has_consumer : String → List Consumer → Bool
has_consumer id = any λ (c : Consumer). str_eq c.id id

abbrev pub add_consumer : ℕ → Store → Consumer → Bool → Store × Option WriteError
add_consumer now st c true = (st, some already_exists)
add_consumer now st c false =
    (record st { consumers = st.consumers ++ (record c { created_at = now } ∷ []) }, none)

-- The identifier, the name and the token's hash are each unique.
unfoldable pub create_consumer : Weather → Store → Consumer → Store × Option WriteError
create_consumer w st c = commit w.writing st (
    add_consumer w.now st c (
      any
        (λ (d : Consumer).
          str_eq d.id c.id || (str_eq d.name c.name || str_eq d.token_hash c.token_hash))
        st.consumers))

unfoldable pub get_consumer_by_token_hash : Weather → Store → String → Option (Option Consumer)
get_consumer_by_token_hash w st hash =
    read w.reading (
      first (select_where (λ (c : Consumer). str_eq c.token_hash hash && c.is_active) st.consumers))

unfoldable pub get_all_consumers : Weather → Store → Option (List Consumer)
get_all_consumers w st =
    read w.reading (order_by (λ (c d : Consumer). leb c.created_at d.created_at) st.consumers)

abbrev pub drop_consumer : Store → String → Bool → Store × Option WriteError
drop_consumer st id false = (st, some other_error)
drop_consumer st id true = (
  record st {
    consumers = delete_where (λ (c : Consumer). str_eq c.id id) st.consumers;
    consumer_scopes = delete_where (λ (s : ScopeRow). str_eq s.consumer_id id) st.consumer_scopes;
  },
  none,
)

unfoldable pub delete_consumer : Weather → Store → String → Store × Option WriteError
delete_consumer w st id = commit w.writing st (drop_consumer st id (has_consumer id st.consumers))

-- `ON CONFLICT DO NOTHING` for a scope that is there; both references must be.
abbrev pub add_scope : Store → String → String → Bool → Bool → Store × Option WriteError
add_scope st consumer_id tier_id true referenced = (st, none)
add_scope st consumer_id tier_id false false = (st, some other_error)
add_scope st consumer_id tier_id false true = (
  record st {
    consumer_scopes =
        st.consumer_scopes ++ (record { consumer_id = consumer_id; tier_id = tier_id } ∷ []);
  },
  none,
)

unfoldable pub add_consumer_scope : Weather → Store → String → String → Store × Option WriteError
add_consumer_scope w st consumer_id tier_id = commit w.writing st (
    add_scope st consumer_id tier_id
      (any (λ (s : ScopeRow). str_eq s.consumer_id consumer_id && str_eq s.tier_id tier_id)
        st.consumer_scopes)
      (has_consumer consumer_id st.consumers && has_tier tier_id st.tiers))

unfoldable pub get_consumer_scopes : Weather → Store → String → Option (List String)
get_consumer_scopes w st consumer_id = read w.reading (
    map (λ (s : ScopeRow). s.tier_id)
      (select_where (λ (s : ScopeRow). str_eq s.consumer_id consumer_id) st.consumer_scopes))

-- `ORDER BY consumer_id, tier_id`
abbrev scope_before : (String → String → Bool) → ScopeRow → ScopeRow → Bool
scope_before before s t =
    if str_eq s.consumer_id t.consumer_id
    then before s.tier_id t.tier_id
    else before s.consumer_id t.consumer_id

unfoldable pub consumer_scopes_by_consumer : Weather → Store → Option (Dict (List String))
consumer_scopes_by_consumer w st = read w.reading (
    group (λ (s : ScopeRow). (s.consumer_id, s.tier_id)) []
      (order_by (scope_before w.text_before) st.consumer_scopes))

-- A missing consumer is NULL.
abbrev pub event_row : UsageEvent → EventRow
event_row e = record {
  id = e.id;
  key_id = e.key_id;
  consumer_id = if str_eq e.consumer_id "" then none else some e.consumer_id;
  feature = e.feature;
  created_at = micros e.created_at;
}

abbrev pub event_of : EventRow → UsageEvent
event_of r = record {
  id = r.id;
  key_id = r.key_id;
  consumer_id = or_else r.consumer_id "";
  feature = r.feature;
  created_at = r.created_at;
}

-- `COPY`, in one statement: none where an identifier is there.
unfoldable pub copy_events : List EventRow → List UsageEvent → Option (List EventRow)
copy_events rows [] = some rows
copy_events rows (e ∷ es) =
    let rest = copy_events (rows ++ (event_row e ∷ [])) es in
    if any (λ (r : EventRow). str_eq r.id e.id) rows then none else rest

abbrev pub with_events : Store → Option (List EventRow) → Store × Option WriteError
with_events st none = (st, some other_error)
with_events st (some rows) = (record st { usage_events = rows }, none)

-- No events need no statement.
unfoldable pub record_usage_events : Weather → Store → List UsageEvent → Store × Option WriteError
record_usage_events w st [] = (st, none)
record_usage_events w st (e ∷ es) =
    commit w.writing st (with_events st (copy_events st.usage_events (e ∷ es)))

-- `ORDER BY created_at DESC, id DESC`
abbrev newer : (String → String → Bool) → EventRow → EventRow → Bool
newer before r s =
    if r.created_at == s.created_at then before s.id r.id else ltb s.created_at r.created_at

unfoldable pub list_usage_events : Weather → Store → ℕ → Option (List UsageEvent)
list_usage_events w st limit =
    read w.reading (map event_of (take limit (order_by (newer w.text_before) st.usage_events)))
