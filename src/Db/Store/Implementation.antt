-- ===== src/Db/Store/Implementation.antt =====
-- The store as the database behind DBAdapter: PostgresAdapter of internal/db. Addition of float64 is a parameter.
use keypooler.Base.{Bool, not, is_some, Option}
use keypooler.Float64.{Float64}
use keypooler.Db.Adapter.{Adapter, WriteError}
use keypooler.Db.Store.{Store, Weather}
use keypooler.Db.Store.Tiers as Tiers
use keypooler.Db.Store.Keys as Keys
use keypooler.Db.Store.Keys.{Codec}
use keypooler.Db.Store.Consumers as Consumers

abbrev pub worked : Store × Option WriteError → Store × Bool
worked (st, e) = (st, not (is_some e))

abbrev pub adapter : Codec → Weather → (Float64 → Float64 → Float64) → Adapter Store
adapter codec w add = record {
  create_tier = Tiers.create_tier w;
  get_tier_by_name = Tiers.get_tier_by_name w;
  get_all_tiers = Tiers.get_all_tiers w;
  update_tier_description = Tiers.update_tier_description w;
  set_tier_features = Tiers.set_tier_features w;
  delete_tier = Tiers.delete_tier w;
  tier_features_by_tier = Tiers.tier_features_by_tier w;
  create_key = Keys.create_key codec w;
  get_all_keys = Keys.get_all_keys codec w;
  delete_key = Keys.delete_key w;
  add_usage = λ st id n. worked (Keys.add_usage w st id n);
  reset_usage_window = λ st id start n. worked (Keys.reset_usage_window w st id start n);
  set_key_exhausted = λ st id until. worked (Keys.set_key_exhausted w st id until);
  update_key_budget = Keys.update_key_budget w;
  record_spend = Keys.record_spend w add;
  key_secrets_by_key = Keys.key_secrets_by_key w;
  create_consumer = Consumers.create_consumer w;
  get_consumer_by_token_hash = Consumers.get_consumer_by_token_hash w;
  get_all_consumers = Consumers.get_all_consumers w;
  delete_consumer = Consumers.delete_consumer w;
  add_consumer_scope = Consumers.add_consumer_scope w;
  get_consumer_scopes = Consumers.get_consumer_scopes w;
  consumer_scopes_by_consumer = Consumers.consumer_scopes_by_consumer w;
  record_usage_events = λ st events. worked (Consumers.record_usage_events w st events);
  list_usage_events = Consumers.list_usage_events w;
}
