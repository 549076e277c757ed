-- ===== src/Api/Consumers.antt =====
-- internal/api/consumers.go, and `parseLimit` of internal/api/handlers.go.
use keypooler.Base.{ℕ, String, true, Option, none, some, List, [], ◌∷◌, map, str_eq, or_else, min}
use keypooler.Base.Int.{ℤ, pos, negsuc}
use keypooler.Base.Dict.{Dict, lookup, insert}
use keypooler.Crypto.{Bytes}
use keypooler.Crypto.Hex.{encode}
use keypooler.Strconv.{atoi}
use keypooler.Db.{Tier, Consumer, UsageEvent}
use keypooler.Db.Adapter.{WriteError, already_exists}
use keypooler.Api.Auth.{internal_error}
use keypooler.Api.Server.{
  Setup, Request, Handler, Response, ListedConsumer, ListedEvent, ◌>>=◌, ◌>>◌, reject_if, need,
  gets, answer, write, status_body, created_consumer, listed_consumers, granted_scope,
  listed_events, bad_request, conflict, always,
}
use keypooler.Api.Keys.{tier_named}

pub record ConsumerBody : Type 0 where
  pub name : String
  pub description : String

abbrev consumer_status : WriteError → ℕ
consumer_status already_exists = conflict
consumer_status e = internal_error

abbrev pub default_usage_list_limit : ℕ
default_usage_list_limit = 100

abbrev pub max_usage_list_limit : ℕ
max_usage_list_limit = 1000

abbrev limit_from : Option ℤ → ℕ → ℕ → ℕ
limit_from none default most = default
limit_from (some (negsuc n)) default most = default
limit_from (some (pos ℕ.zero)) default most = default
limit_from (some (pos (ℕ.suc n))) default most = min (ℕ.suc n) most

unfoldable pub parse_limit : Bytes → ℕ → ℕ → ℕ
parse_limit raw default most = limit_from (atoi raw) default most

-- The map from a tier's id to its name.
unfoldable pub tier_names : Dict String → List Tier → Dict String
tier_names names [] = names
tier_names names (t ∷ ts) = tier_names (insert t.id t.name names) ts

abbrev add_name : Option String → List String → List String
add_name none scopes = scopes
add_name (some name) scopes = name ∷ scopes

-- A scope whose tier is not listed is left out.
unfoldable pub scope_names : Dict String → List String → List String
scope_names names [] = []
scope_names names (id ∷ ids) = add_name (lookup id names) (scope_names names ids)

module _ {S : Type 0} (setup : Setup S) where
  -- `random 0` is what `rand.Read` puts into the 32 bytes of the token.
  unfoldable pub create_consumer : Request → Option ConsumerBody → Handler S Response
  create_consumer req decoded = do
    b ← need bad_request decoded
    reject_if (str_eq b.name "") bad_request
    buf ← need internal_error (req.random 0)
    let token : Bytes = encode buf
    let consumer : Consumer = record {
      id = req.fresh_id;
      name = b.name;
      token_hash = setup.hash_token token;
      description = b.description;
      is_active = true;
      created_at = 0;
    }
    write (λ db. setup.adapter.create_consumer db consumer) consumer_status
    answer 201 (created_consumer consumer.id consumer.name token)

  abbrev listed_consumer : Dict String → Dict (List String) → Consumer → ListedConsumer
  listed_consumer names by_consumer c = record {
    id = c.id;
    name = c.name;
    description = c.description;
    is_active = c.is_active;
    scopes = scope_names names (or_else (lookup c.id by_consumer) []);
  }

  unfoldable pub list_consumers : Handler S Response
  list_consumers = do
    read_consumers ← gets (λ sv. setup.adapter.get_all_consumers sv.db)
    consumers ← need internal_error read_consumers
    read_tiers ← gets (λ sv. setup.adapter.get_all_tiers sv.db)
    tiers ← need internal_error read_tiers
    read_scopes ← gets (λ sv. setup.adapter.consumer_scopes_by_consumer sv.db)
    by_consumer ← need internal_error read_scopes
    answer 200
        (listed_consumers (map (listed_consumer (tier_names [] tiers) by_consumer) consumers))

  unfoldable pub delete_consumer : String → Handler S Response
  delete_consumer id = do
    write (λ db. setup.adapter.delete_consumer db id) (always internal_error)
    answer 200 (status_body "deleted")

  -- The decoded body is the name of a tier.
  unfoldable pub add_consumer_scope : String → Option String → Handler S Response
  add_consumer_scope id decoded = do
    name ← need bad_request decoded
    reject_if (str_eq name "") bad_request
    tier ← tier_named setup name
    write (λ db. setup.adapter.add_consumer_scope db id tier.id) (always internal_error)
    answer 201 (granted_scope id tier.name)

  abbrev listed_event : UsageEvent → ListedEvent
  listed_event e = record {
    key_id = e.key_id;
    consumer_id = e.consumer_id;
    feature = e.feature;
    created_at = setup.format_time e.created_at;
  }

  unfoldable pub list_usage_events : Bytes → Handler S Response
  unfolding parse_limit
  list_usage_events raw = do
    read_events ← gets (λ sv.
        setup.adapter.list_usage_events sv.db
          (parse_limit raw default_usage_list_limit max_usage_list_limit))
    events ← need internal_error read_events
    answer 200 (listed_events (map listed_event events))
