-- ===== src/Db/Store/Counting.antt =====
-- The usage columns of the store as the database of the writer.
use keypooler.Base.{
  arith, ◌≡◌, ◌≢◌, refl, ap, ◌∙◌, String, Bool, true, false, Option, none, some, List, [], ◌∷◌,
  str_eq, eq_iff, if◌then◌else◌,
}
use keypooler.Db.{UsageEvent}
use keypooler.Db.Postgres.{UsageRow, add_count, set_count}
use keypooler.Db.Postgres.Spend.{Ending, works, refuses, loses_reply}
use keypooler.Db.Store.{EventRow, Store, KeyRow, Weather, update_where, commit}
use keypooler.Db.Store.Keys as Keys
use keypooler.Db.Store.Keys.{update_key}
use keypooler.Db.Store.Consumers as Consumers
use keypooler.Db.Store.Consumers.{with_events, copy_events}
use keypooler.Db.Store.Implementation.{worked}
use keypooler.Writeback as Writeback
use keypooler.Writeback.Flush.{on_row, IsAtomic}

-- The adapter as the store of the writer.
abbrev pub usage_store : Weather → Writeback.Store Store
usage_store w = record {
  add_usage = λ st id n. worked (Keys.add_usage w st id n);
  reset_usage_window = λ st id start n. worked (Keys.reset_usage_window w st id start n);
  record_usage_events = λ st events. worked (Consumers.record_usage_events w st events);
}

unfoldable pub usage_in : String → List KeyRow → Option UsageRow
usage_in id [] = none
usage_in id (k ∷ ks) = if str_eq k.id id then some k.usage else usage_in id ks

-- The usage columns of the first row with the identifier; it is the primary key.
abbrev pub usage_of : Store → String → Option UsageRow
usage_of st id = usage_in id st.keys

abbrev with_usage : (UsageRow → UsageRow) → KeyRow → KeyRow
with_usage f k = record k { usage = f k.usage }

on_row_other :
    (j id : String) (f : UsageRow → UsageRow) (o : Option UsageRow)
    → str_eq j id ≡ false
    → on_row j id f o ≡ o
on_row_other j id f none e = refl
on_row_other j id f (some r) e = ap (λ b. some (if b then f r else r)) e

update_where-usage :
    (j id : String) (f : UsageRow → UsageRow) (ks : List KeyRow)
    → usage_in id (update_where (λ (k : KeyRow). str_eq k.id j) (with_usage f) ks)
      ≡ on_row j id f (usage_in id ks)
unfolding usage_in update_where
update_where-usage j id f [] = refl
update_where-usage j id f (k ∷ ks) =
    step (str_eq k.id id) (str_eq k.id j) (str_eq j id) refl refl refl
      (update_where-usage j id f ks)
  where
    step :
        (own hit same : Bool)
        → str_eq k.id id ≡ own
        → str_eq k.id j ≡ hit
        → str_eq j id ≡ same
        → usage_in id (update_where (λ (x : KeyRow). str_eq x.id j) (with_usage f) ks)
          ≡ on_row j id f (usage_in id ks)
        → usage_in id (
            (if str_eq k.id j then with_usage f k else k)
            ∷ update_where (λ (x : KeyRow). str_eq x.id j) (with_usage f) ks)
          ≡ on_row j id f (if str_eq k.id id then some k.usage else usage_in id ks)
    step own hit same a b c h =
        ground (arith, a, b, c, h, eq_iff k.id id, eq_iff k.id j, eq_iff j id)

-- A statement that cannot offend: it is answered with success just if it is committed, as no answer is lost.
committed :
    (ending : Ending) (st st' : Store)
    → ending ≢ loses_reply
    → (worked (commit ending st (st', none))).1 ≡ true
    → (worked (commit ending st (st', none))).0 ≡ st'
committed works st st' known e = refl
committed refuses st st' known e = cc
committed loses_reply st st' known e = absurd (known refl)

not_committed :
    (ending : Ending) (st st' : Store)
    → ending ≢ loses_reply
    → (worked (commit ending st (st', none))).1 ≡ false
    → (worked (commit ending st (st', none))).0 ≡ st
not_committed works st st' known e = cc
not_committed refuses st st' known e = refl
not_committed loses_reply st st' known e = absurd (known refl)

copied-usage :
    (ending : Ending) (st : Store) (id : String) (o : Option (List EventRow))
    → usage_of (worked (commit ending st (with_events st o))).0 id ≡ usage_of st id
copied-usage works st id none = refl
copied-usage works st id (some rows) = refl
copied-usage refuses st id none = refl
copied-usage refuses st id (some rows) = refl
copied-usage loses_reply st id none = refl
copied-usage loses_reply st id (some rows) = refl

recorded-usage :
    (w : Weather) (st : Store) (id : String) (es : List UsageEvent)
    → usage_of (worked (Consumers.record_usage_events w st es)).0 id ≡ usage_of st id
unfolding Consumers.record_usage_events
recorded-usage w st id [] = refl
recorded-usage w st id (e ∷ es) =
    copied-usage w.writing st id (copy_events st.usage_events (e ∷ es))

-- The adapter is such a store for the writer, while no answer is lost.
pub usage_store-IsAtomic :
    (w : Weather) → w.writing ≢ loses_reply → IsAtomic (usage_store w) usage_of
unfolding Keys.add_usage Keys.reset_usage_window
usage_store-IsAtomic w known = record {
  added = λ st j id n e.
      ap (λ (x : Store). usage_of x id) (committed w.writing st _ known e)
      ∙ update_where-usage j id (add_count n) st.keys;
  not_added =
      λ st j id n e. ap (λ (x : Store). usage_of x id) (not_committed w.writing st _ known e);
  reset_done = λ st j id start n e.
      ap (λ (x : Store). usage_of x id) (committed w.writing st _ known e)
      ∙ update_where-usage j id (set_count n start) st.keys;
  reset_failed =
      λ st j id start n e. ap (λ (x : Store). usage_of x id) (not_committed w.writing st _ known e);
  recorded = λ st id es. recorded-usage w st id es;
}
