-- ===== src/Db/Store/References/Histories.antt =====
-- The store through any writes of internal/db, as its schema is set up by internal/db/migrations.go.
use keypooler.Base.{ℕ, String, Option, List, [], ◌∷◌}
use keypooler.Float64.{Float64}
use keypooler.Db.{Tier, TierFeature, Key, KeySecret, Budget, SpendEvent, Consumer, UsageEvent}
use keypooler.Db.Store.{Store, Weather}
use keypooler.Db.Store.Tiers as Tiers
use keypooler.Db.Store.Keys as Keys
use keypooler.Db.Store.Keys.{Codec}
use keypooler.Db.Store.Consumers as Consumers
use keypooler.Db.Store.References.{Linked}
use keypooler.Db.Store.References.Changes.{
  create_tier-Linked, set_tier_features-Linked, update_tier_description-Linked, delete_tier-Linked,
}
use keypooler.Db.Store.References.Rows.{
  create_key-Linked, delete_key-Linked, add_usage-Linked, reset_usage_window-Linked,
  set_key_exhausted-Linked, update_key_budget-Linked, record_spend-Linked,
}
use keypooler.Db.Store.References.Consumers.{
  create_consumer-Linked, delete_consumer-Linked, add_consumer_scope-Linked,
  record_usage_events-Linked,
}

-- The writes of DBAdapter with their arguments.
pub data Write : Type 0 where
  create_tier : Tier → List TierFeature → Write
  update_tier_description : String → String → Write
  set_tier_features : String → List TierFeature → Write
  delete_tier : String → Write
  create_key : Key → List KeySecret → Write
  delete_key : String → Write
  add_usage : String → ℕ → Write
  reset_usage_window : String → ℕ → ℕ → Write
  set_key_exhausted : String → ℕ → Write
  update_key_budget : String → Option Budget → Write
  record_spend : SpendEvent → Option ℕ → Write
  create_consumer : Consumer → Write
  delete_consumer : String → Write
  add_consumer_scope : String → String → Write
  record_usage_events : List UsageEvent → Write

abbrev pub empty_store : Store
empty_store = record {
  tiers = [];
  tier_features = [];
  keys = [];
  key_secrets = [];
  consumers = [];
  consumer_scopes = [];
  usage_events = [];
  spend_events = [];
}

module _ (codec : Codec) (add : Float64 → Float64 → Float64) where
  unfoldable pub write : Weather → Store → Write → Store
  write w st (create_tier t fs) = (Tiers.create_tier w st t fs).0
  write w st (update_tier_description id d) = (Tiers.update_tier_description w st id d).0
  write w st (set_tier_features id fs) = (Tiers.set_tier_features w st id fs).0
  write w st (delete_tier id) = (Tiers.delete_tier w st id).0
  write w st (create_key k ss) = (Keys.create_key codec w st k ss).0
  write w st (delete_key id) = (Keys.delete_key w st id).0
  write w st (add_usage id n) = (Keys.add_usage w st id n).0
  write w st (reset_usage_window id start n) = (Keys.reset_usage_window w st id start n).0
  write w st (set_key_exhausted id until) = (Keys.set_key_exhausted w st id until).0
  write w st (update_key_budget id b) = (Keys.update_key_budget w st id b).0
  write w st (record_spend e period) = (Keys.record_spend w add st e period).0
  write w st (create_consumer c) = (Consumers.create_consumer w st c).0
  write w st (delete_consumer id) = (Consumers.delete_consumer w st id).0
  write w st (add_consumer_scope id tier) = (Consumers.add_consumer_scope w st id tier).0
  write w st (record_usage_events es) = (Consumers.record_usage_events w st es).0

  unfoldable pub write_all : Store → List (Weather × Write) → Store
  unfolding write
  write_all st [] = st
  write_all st ((w, c) ∷ cs) = write_all (write w st c) cs

  write-Linked : (w : Weather) (st : Store) (c : Write) → Linked st → Linked (write w st c)
  unfolding write
  write-Linked w st (create_tier t fs) = create_tier-Linked w st t fs
  write-Linked w st (update_tier_description id d) = update_tier_description-Linked w st id d
  write-Linked w st (set_tier_features id fs) = set_tier_features-Linked w st id fs
  write-Linked w st (delete_tier id) = delete_tier-Linked w st id
  write-Linked w st (create_key k ss) = create_key-Linked codec w st k ss
  write-Linked w st (delete_key id) = delete_key-Linked w st id
  write-Linked w st (add_usage id n) = add_usage-Linked w st id n
  write-Linked w st (reset_usage_window id start n) = reset_usage_window-Linked w st id start n
  write-Linked w st (set_key_exhausted id until) = set_key_exhausted-Linked w st id until
  write-Linked w st (update_key_budget id b) = update_key_budget-Linked w st id b
  write-Linked w st (record_spend e period) = record_spend-Linked w add st e period
  write-Linked w st (create_consumer c) = create_consumer-Linked w st c
  write-Linked w st (delete_consumer id) = delete_consumer-Linked w st id
  write-Linked w st (add_consumer_scope id tier) = add_consumer_scope-Linked w st id tier
  write-Linked w st (record_usage_events es) = record_usage_events-Linked w st es

  kept-Linked : (cs : List (Weather × Write)) (st : Store) → Linked st → Linked (write_all st cs)
  unfolding write_all
  kept-Linked [] st u = u
  kept-Linked ((w, c) ∷ cs) st u = kept-Linked cs (write w st c) (write-Linked w st c u)

  -- Through any writes from empty tables on, whichever of them fail or are committed without an answer, every feature and
  -- every key has its tier in the table of tiers, every secret its key, and every scope its consumer and its tier; and no
  -- two consumers share a token's hash.
  pub write_all-Linked : (cs : List (Weather × Write)) → Linked (write_all empty_store cs)
  write_all-Linked cs =
      kept-Linked cs empty_store
        (record { hashes = tt; features = tt; keys = tt; secrets = tt; scopes = tt })
