-- ===== src/Keypool/Manager/Persistence.antt =====
-- The usage that the pool keeps in memory against the usage that reaches the database.
use keypooler.Base.{
  ℕ, suc, ◌≡◌, ◌≢◌, refl, sym, ap, ◌∙◌, subst, ◌⊎◌, inl, inr, String, Bool, true, false, Option,
  none, some, arith, str_eq, str_eq_refl, Bool-cases, if◌then◌else◌, is_some, Option-cases,
  get_elem?, set, get_elem?-set_self, get_elem?-set_ne, get_elem?-some, ℕ_discrete,
}
use keypooler.Base.Int.{ℤ, pos, ◌≤ℤ◌}
use keypooler.Base.Dict.{Dict, lookup, insert}
use keypooler.Db.Postgres.{to_micros, UsageRow, add_count, set_count}
use keypooler.Writeback.{Writer}
use keypooler.Writeback.Refinement.{apply, row-served, row-window_reset}
use keypooler.Keypool.Types.{
  RateCounter, PoolKey, Consumed, reached, roll, counter, try_rate, consume, try_consume_usage,
}
use keypooler.Keypool.Types.Usage.{Accounts, try_consume_usage-Accounts}
use keypooler.Keypool.Manager.Draw.{some_inj}
use keypooler.Keypool.Manager.Invariant.{IsKept, get_key_for_feature-kept, key_by_id-kept}
use keypooler.Keypool.Manager.{
  get_key_for_feature, key_by_id, Manager, after_attempt, outcome_of, rate_then, attempt,
  persist_usage, persist_limited,
}

-- The usage columns as the key in memory has them, its window's start as a column keeps it.
abbrev pub usage_row : PoolKey → UsageRow
usage_row k = record {
  usage_count = k.usage_count;
  usage_window_start = to_micros k.usage_window_start;
}

-- What is pending for the key, written to `row`, gives what memory holds.
abbrev pub IsSynced : Writer → PoolKey → UsageRow → Type 0
IsSynced w k row = apply (lookup k.id w.usage) row ≡ usage_row k

persist_usage-own :
    (w : Writer) (id : String) (r : Consumed) (row : UsageRow)
    → apply (lookup id (persist_usage w id r).usage) row ≡ (
        if r.did_reset
        then set_count 1 r.window_start (apply (lookup id w.usage) row)
        else add_count 1 (apply (lookup id w.usage) row))
unfolding persist_usage
persist_usage-own w id r row = elim (Bool-cases r.did_reset) [
  | inl e ↦ rw (e, row-window_reset w id r.window_start id row, str_eq_refl id)
  | inr e ↦ rw (e, row-served w id id row, str_eq_refl id)
]

persist_usage-other :
    (w : Writer) (id j : String) (r : Consumed) (row : UsageRow)
    → str_eq id j ≡ false
    → apply (lookup j (persist_usage w id r).usage) row ≡ apply (lookup j w.usage) row
unfolding persist_usage
persist_usage-other w id j r row ne = elim (Bool-cases r.did_reset) [
  | inl e ↦ rw (e, row-window_reset w id r.window_start j row, ne)
  | inr e ↦ rw (e, row-served w id j row, ne)
]

-- `TryRate` touches the rate counters alone.
try_rate_only :
    (k : PoolKey) (feature : String) (t : ℕ)
    → (c : Dict RateCounter) × ((try_rate k feature t).0 ≡ record k { rate_counters = c })
unfolding try_rate
try_rate_only k feature t = elim (Option-cases (lookup feature k.features)) [
  | inl e ↦ (k.rate_counters, rw (e, try_rate))
  | inr (fl, e) ↦
      let rc = roll fl t (counter k feature) in
      elim (Bool-cases (reached rc.count fl.rate_limit)) [
        | inl full ↦ (insert feature rc k.rate_counters, rw (e, try_rate) (rw full))
        | inr free ↦ (
          insert feature (record rc { count = suc rc.count }) k.rate_counters,
          rw (e, try_rate) (rw free),
        )
      ]
]

-- A usage limit that lets at least one call through.
abbrev pub IsPositive : Option ℤ → Type 0
IsPositive none = Unit {0}
IsPositive (some limit) = pos 1 ≤ℤ limit

-- The usage columns and the identity of a key after an attempt, and what is persisted of it.
pub record Persists (w : Writer) (k k' : PoolKey) (row : UsageRow) (w' : Writer) : Type 0 where
  pub same_id : k'.id ≡ k.id
  pub same_limit : k'.usage_limit ≡ k.usage_limit
  pub synced : IsSynced w k row → IsSynced w' k' row
  pub others :
      (j : String) (r : UsageRow)
      → str_eq k.id j ≡ false
      → apply (lookup j w'.usage) r ≡ apply (lookup j w.usage) r

abbrev writer_after : Writer → PoolKey × Option Consumed → Writer
writer_after w (k, none) = w
writer_after w (k, some r) = persist_limited w k r

-- With a limit: a grant is persisted as it was counted, a refusal has changed nothing.
module _ (w : Writer) (k k' : PoolKey) (limit : ℤ) (now : ℕ) (r : Consumed) (row : UsageRow)
    (has : k.usage_limit ≡ some limit) (a : Accounts k limit now k' r) where
  pending : UsageRow
  pending = apply (lookup k'.id w.usage) row

  granted-row :
      r.ok ≡ true
      → pending ≡ usage_row k
      → (if r.did_reset then set_count 1 r.window_start pending else add_count 1 pending)
        ≡ usage_row k'
  granted-row ok e = ground (arith, a.granted ok, a.started, a.reported)

  refused-row : r.ok ≡ false → pos 1 ≤ℤ limit → usage_row k ≡ usage_row k'
  refused-row refused positive = ground (arith, a.refused refused, a.started)

  granted-Persists : r.ok ≡ true → Persists w k k' row (persist_limited w k' r)
  unfolding pending
  granted-Persists ok = subst (Persists w k k' row) (sym limited) (record {
    same_id = a.kept_id;
    same_limit = a.kept;
    synced = λ e.
        persist_usage-own w k'.id r row
        ∙ granted-row ok (ap (λ id. apply (lookup id w.usage) row) a.kept_id ∙ e);
    others = λ j r' ne. persist_usage-other w k'.id j r r' (ap (λ id. str_eq id j) a.kept_id ∙ ne);
  })
    where
      limited : persist_limited w k' r ≡ persist_usage w k'.id r
      limited = ap (λ o. if is_some o then persist_usage w k'.id r else w) (a.kept ∙ has)

  refused-Persists : r.ok ≡ false → pos 1 ≤ℤ limit → Persists w k k' row w
  refused-Persists refused positive = record {
    same_id = a.kept_id;
    same_limit = a.kept;
    synced =
        λ e. ap (λ id. apply (lookup id w.usage) row) a.kept_id ∙ e ∙ refused-row refused positive;
    others = λ j r' ne. refl;
  }

-- The same for every outcome, and for a key without a limit.
outcome-Persists :
    (w : Writer) (k k' : PoolKey) (limit : ℤ) (now : ℕ) (r : Consumed) (row : UsageRow) (ok : Bool)
    → r.ok ≡ ok
    → k.usage_limit ≡ some limit
    → Accounts k limit now k' r
    → pos 1 ≤ℤ limit
    → Persists w k k' row (writer_after w (k', outcome_of ok r))
outcome-Persists w k k' limit now r row true e has a positive =
    granted-Persists w k k' limit now r row has a e
outcome-Persists w k k' limit now r row false e has a positive =
    refused-Persists w k k' limit now r row has a e positive

unchanged-Persists : (w : Writer) (k : PoolKey) (row : UsageRow) → Persists w k k row w
unchanged-Persists w k row = record {
  same_id = refl;
  same_limit = refl;
  synced = λ e. e;
  others = λ j r ne. refl;
}

abbrev consumed : PoolKey → ℕ → PoolKey × Option Consumed
consumed k now = rate_then true k (try_consume_usage k now)

abbrev unlimited : Consumed
unlimited = record { ok = true; did_reset = false; window_start = 0 }

consume_unlimited :
    (k : PoolKey) (now : ℕ) → k.usage_limit ≡ none → try_consume_usage k now ≡ (k, unlimited)
unfolding try_consume_usage
consume_unlimited k now e = ap (consume k now) e

consumed-Persists :
    (w : Writer) (k : PoolKey) (now : ℕ) (row : UsageRow) (limit : Option ℤ)
    → k.usage_limit ≡ limit
    → IsPositive limit
    → Persists w k (consumed k now).0 row (writer_after w (consumed k now))
consumed-Persists w k now row none e positive =
    subst (λ c. Persists w k (rate_then true k c).0 row (writer_after w (rate_then true k c)))
      (sym (consume_unlimited k now e))
      (subst
        (λ (o : Option ℤ).
          Persists w k k row (if is_some o then persist_usage w k.id unlimited else w))
        (sym e) (unchanged-Persists w k row))
consumed-Persists w k now row (some limit) e positive =
    outcome-Persists w k _ limit now _ row _ refl e (try_consume_usage-Accounts k limit now e)
      positive

-- A key that differs in its rate counters alone is persisted alike.
rebase :
    (w w' : Writer) (k k' : PoolKey) (c : Dict RateCounter) (row : UsageRow)
    → Persists w (record k { rate_counters = c }) k' row w'
    → Persists w k k' row w'
rebase w w' k k' c row p = record {
  same_id = p.same_id;
  same_limit = p.same_limit;
  synced = p.synced;
  others = p.others;
}

rated-Persists :
    (w : Writer) (k rated : PoolKey) (u : ℕ) (row : UsageRow) (passed : Bool) (c : Dict RateCounter)
    → IsPositive k.usage_limit
    → rated ≡ record k { rate_counters = c }
    → let tried = rate_then passed rated (try_consume_usage rated u) in
      Persists w k tried.0 row (writer_after w tried)
rated-Persists w k rated u row false c positive e =
    subst (λ x. Persists w k x row w) (sym e) (rebase w w k _ c row (unchanged-Persists w _ row))
rated-Persists w k rated u row true c positive e =
    subst (λ x. Persists w k (consumed x u).0 row (writer_after w (consumed x u))) (sym e)
      (rebase w _ k _ c row
        (consumed-Persists w (record k { rate_counters = c }) u row k.usage_limit refl positive))

attempt-Persists :
    (w : Writer) (k : PoolKey) (feature : String) (t u : ℕ) (row : UsageRow)
    → IsPositive k.usage_limit
    → let tried = attempt k feature t u in Persists w k tried.0 row (writer_after w tried)
unfolding attempt
attempt-Persists w k feature t u row positive =
    let (c, e) = try_rate_only k feature t in
    rated-Persists w k (try_rate k feature t).0 u row (try_rate k feature t).1 c positive e

-- The pool and the rows of the database: ids differ, limits let a call through, and what is pending for a key,
-- written to its row, gives the usage that the pool holds of it.
pub record PoolSynced (rows : String → UsageRow) (m : Manager) : Type 0 where
  pub distinct :
      (p q : ℕ) (k j : PoolKey)
      → get_elem? m.keys p ≡ some k
      → get_elem? m.keys q ≡ some j
      → p ≢ q
      → str_eq k.id j.id ≡ false
  pub positive : (p : ℕ) (k : PoolKey) → get_elem? m.keys p ≡ some k → IsPositive k.usage_limit
  pub synced : (p : ℕ) (k : PoolKey) → get_elem? m.keys p ≡ some k → IsSynced m.usage k (rows k.id)

-- The manager with another key at a position, and another writer.
module _ (rows : String → UsageRow) (m m' : Manager) (p : ℕ) (k k' : PoolKey)
    (h : PoolSynced rows m) (held : get_elem? m.keys p ≡ some k) (keys : m'.keys ≡ set m.keys p k')
    (law : (row : UsageRow) → Persists m.usage k k' row m'.usage) where
  -- A key of the new pool is the new one, or an old one at another position.
  cases :
      (q : ℕ) (j : PoolKey)
      → get_elem? m'.keys q ≡ some j
      → ((q ≡ p) × (j ≡ k')) ⊎ ((p ≢ q) × (get_elem? m.keys q ≡ some j))
  cases q j e = elim (ℕ_discrete p q) [
    | yes same ↦ inl (
      sym same,
      some_inj j k' (
          sym e
          ∙ ap (λ l. get_elem? l q) keys
          ∙ ap (get_elem? (set m.keys p k')) (sym same)
          ∙ get_elem?-set_self m.keys p k' (get_elem?-some m.keys p k held)),
    )
    | no apart ↦
        inr (
          apart,
          sym (get_elem?-set_ne m.keys p q k' apart) ∙ sym (ap (λ l. get_elem? l q) keys) ∙ e,
        )
  ]

  id_kept : k'.id ≡ k.id
  id_kept = (law (rows k.id)).same_id

  distinct_after :
      (q r : ℕ) (i j : PoolKey)
      → get_elem? m'.keys q ≡ some i
      → get_elem? m'.keys r ≡ some j
      → q ≢ r
      → str_eq i.id j.id ≡ false
  distinct_after q r i j ei ej apart = distinct_cases (cases q i ei) (cases r j ej)
    where
      distinct_cases :
          ((q ≡ p) × (i ≡ k')) ⊎ ((p ≢ q) × (get_elem? m.keys q ≡ some i))
          → ((r ≡ p) × (j ≡ k')) ⊎ ((p ≢ r) × (get_elem? m.keys r ≡ some j))
          → str_eq i.id j.id ≡ false
      distinct_cases (inl (a, _)) (inl (b, _)) = absurd (apart (a ∙ sym b))
      distinct_cases (inl (a, e)) (inr (ne, old)) =
          (λ t. str_eq ((ap (λ (x : PoolKey). x.id) e ∙ id_kept) t) j.id)
          ∙ h.distinct p r k j held old ne
      distinct_cases (inr (ne, old)) (inl (b, e)) =
          (λ t. str_eq i.id ((ap (λ (x : PoolKey). x.id) e ∙ id_kept) t))
          ∙ h.distinct q p i k old held (λ same. ne (sym same))
      distinct_cases (inr (_, old)) (inr (_, old')) = h.distinct q r i j old old' apart

  IsPositive-after : (q : ℕ) (j : PoolKey) → get_elem? m'.keys q ≡ some j → IsPositive j.usage_limit
  IsPositive-after q j e = elim (cases q j e) [
    | inl (_, new) ↦
        subst IsPositive
          (sym (ap (λ (x : PoolKey). x.usage_limit) new ∙ (law (rows k.id)).same_limit))
          (h.positive p k held)
    | inr (_, old) ↦ h.positive q j old
  ]

  IsSynced-after :
      (q : ℕ) (j : PoolKey) → get_elem? m'.keys q ≡ some j → IsSynced m'.usage j (rows j.id)
  IsSynced-after q j e = elim (cases q j e) [
    | inl (_, new) ↦
        subst (λ (x : PoolKey). IsSynced m'.usage x (rows x.id)) (sym new)
          (subst (λ id. IsSynced m'.usage k' (rows id)) (sym id_kept)
            ((law (rows k.id)).synced (h.synced p k held)))
    | inr (ne, old) ↦
        (law (rows k.id)).others j.id (rows j.id) (h.distinct p q k j held old ne)
        ∙ h.synced q j old
  ]

  replaced-PoolSynced : PoolSynced rows m'
  replaced-PoolSynced = record {
    distinct = distinct_after;
    positive = IsPositive-after;
    synced = IsSynced-after;
  }

after_attempt-PoolSynced :
    (rows : String → UsageRow) (m : Manager) (p : ℕ) (k k' : PoolKey) (o : Option Consumed)
    → PoolSynced rows m
    → get_elem? m.keys p ≡ some k
    → ((row : UsageRow) → Persists m.usage k k' row (writer_after m.usage (k', o)))
    → PoolSynced rows (after_attempt m p (k', o))
after_attempt-PoolSynced rows m p k k' none h held law =
    replaced-PoolSynced rows m _ p k k' h held refl law
after_attempt-PoolSynced rows m p k k' (some r) h held law =
    replaced-PoolSynced rows m _ p k k' h held refl law

PoolSynced-IsKept : (rows : String → UsageRow) → IsKept (PoolSynced rows)
PoolSynced-IsKept rows = record {
  attempted = λ m feature p k t u held h.
      after_attempt-PoolSynced rows m p k _ _ h held
        (λ row. attempt-Persists m.usage k feature t u row (h.positive p k held));
  advanced = λ m h. record { distinct = h.distinct; positive = h.positive; synced = h.synced };
}

-- A draw keeps the database in step with the pool: if what is pending for each key, written to its row, gives
-- the usage count and window that the pool holds, its start as the column keeps it, then it does so after `GetKeyForFeature` and after
-- `KeyByID`, whatever they answer. The keys are assumed to have distinct ids and no usage
-- limit below 1.
pub draws-PoolSynced :
    (rows : String → UsageRow) (m : Manager) (id feature : String) (allowed : Option (Dict Bool))
    (clock : ℕ → ℕ)
    → PoolSynced rows m
    → PoolSynced rows (get_key_for_feature m feature allowed clock).0
      × PoolSynced rows (key_by_id m id feature allowed clock).0
draws-PoolSynced rows m id feature allowed clock h = (
  get_key_for_feature-kept (PoolSynced rows) (PoolSynced-IsKept rows) feature clock allowed m h,
  key_by_id-kept (PoolSynced rows) (PoolSynced-IsKept rows) feature clock allowed m id h,
)
