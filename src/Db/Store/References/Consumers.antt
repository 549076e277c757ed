-- ===== src/Db/Store/References/Consumers.antt =====
-- Every write of consumers, scopes and events keeps the references of the store.
use keypooler.Base.{
  both_parts, both, ◌≡◌, refl, String, Bool, true, false, ◌&&◌, ◌||◌, Option, none, some, List, [],
  ◌∷◌, arith, str_eq, eq_iff,
}
use keypooler.Db.{Consumer, UsageEvent}
use keypooler.Db.Store.{Store, EventRow, Weather, any}
use keypooler.Db.Store.Tiers.{has_tier}
use keypooler.Db.Store.Consumers as Consumers
use keypooler.Db.Store.Consumers.{
  has_consumer, add_consumer, drop_consumer, add_scope, with_events, copy_events,
}
use keypooler.Db.Store.Callers.{append-DistinctHashes, none_taken, without-DistinctHashes}
use keypooler.Db.Store.References.{
  weaken-All, append-All, delete_where-All, any-append, any-delete_where, Linked, commit-Linked,
}

pub create_consumer-Linked :
    (w : Weather) (st : Store) (c : Consumer)
    → Linked st
    → Linked (Consumers.create_consumer w st c).0
unfolding Consumers.create_consumer
create_consumer-Linked w st c u = commit-Linked w.writing st _ u (added _ refl)
  where
    added :
        (taken : Bool)
        → any
            (λ (d : Consumer).
              str_eq d.id c.id || (str_eq d.name c.name || str_eq d.token_hash c.token_hash))
            st.consumers
          ≡ taken
        → Linked (add_consumer w.now st c taken).0
    added true e = u
    added false e = record {
      hashes =
          append-DistinctHashes st.consumers (record c { created_at = w.now })
            (none_taken c st.consumers e) u.hashes;
      features = u.features;
      keys = u.keys;
      secrets = u.secrets;
      scopes =
          weaken-All _ _ st.consumer_scopes
            (λ s h.
              let (there, tier) = both_parts _ _ h in
              both _ _
                (any-append (λ (d : Consumer). str_eq d.id s.consumer_id) st.consumers _ there)
                tier)
            u.scopes;
    }

pub delete_consumer-Linked :
    (w : Weather) (st : Store) (id : String)
    → Linked st
    → Linked (Consumers.delete_consumer w st id).0
unfolding Consumers.delete_consumer
delete_consumer-Linked w st id u = commit-Linked w.writing st _ u (dropped _)
  where
    dropped : (present : Bool) → Linked (drop_consumer st id present).0
    dropped false = u
    dropped true = record {
      hashes = without-DistinctHashes id st.consumers u.hashes;
      features = u.features;
      keys = u.keys;
      secrets = u.secrets;
      scopes =
          delete_where-All _ _ _ st.consumer_scopes
            (λ s h other.
              let (there, tier) = both_parts _ _ h in
              both _ _
                (any-delete_where (λ (c : Consumer). str_eq c.id s.consumer_id)
                  (λ (c : Consumer). str_eq c.id id) st.consumers
                  (λ c e. ground (
                    arith,
                    other,
                    e,
                    eq_iff c.id s.consumer_id,
                    eq_iff s.consumer_id id,
                    eq_iff c.id id,
                  ))
                  there)
                tier)
            u.scopes;
    }

pub add_consumer_scope-Linked :
    (w : Weather) (st : Store) (id tier : String)
    → Linked st
    → Linked (Consumers.add_consumer_scope w st id tier).0
unfolding Consumers.add_consumer_scope
add_consumer_scope-Linked w st id tier u = commit-Linked w.writing st _ u (added _ _ refl)
  where
    added :
        (present referenced : Bool)
        → (has_consumer id st.consumers && has_tier tier st.tiers) ≡ referenced
        → Linked (add_scope st id tier present referenced).0
    added true referenced e = u
    added false false e = u
    added false true e = record {
      hashes = u.hashes;
      features = u.features;
      keys = u.keys;
      secrets = u.secrets;
      scopes = append-All _ st.consumer_scopes _ u.scopes (e, tt);
    }

pub record_usage_events-Linked :
    (w : Weather) (st : Store) (es : List UsageEvent)
    → Linked st
    → Linked (Consumers.record_usage_events w st es).0
unfolding Consumers.record_usage_events
record_usage_events-Linked w st [] u = u
record_usage_events-Linked w st (e ∷ es) u = commit-Linked w.writing st _ u (copied _)
  where
    copied : (o : Option (List EventRow)) → Linked (with_events st o).0
    copied none = u
    copied (some rows) = record {
      hashes = u.hashes;
      features = u.features;
      keys = u.keys;
      secrets = u.secrets;
      scopes = u.scopes;
    }
