-- ===== src/Db/Postgres/Spend/Idempotence.antt =====
-- A spend report that is sent again.
use keypooler.Base.{
  subst, sym, ℕ, ◌≡◌, refl, ap, ◌∙◌, ◌⊎◌, inl, inr, Bool, true, false, Option, none, some, List,
  ◌∷◌, str_eq_refl,
}
use keypooler.Float64.{Float64}
use keypooler.Db.{SpendEvent, SpendResult, recorded, key_not_found, failed}
use keypooler.Db.Postgres.Spend.{
  SpendRow, Tables, Ending, works, refuses, loses_reply, has_request, has_id, count_in,
  insert_event, finish, record_spend,
}

module _ (add : Float64 → Float64 → Float64) where
  count_in-again :
      (t : Tables) (e : SpendEvent) (p : ℕ) (row : Option SpendRow)
      → (finish add works t (count_in add t e p true row)).0 ≡ t
  count_in-again t e p none = refl
  count_in-again t e p (some r) = refl

  insert_event-again :
      (t : Tables) (e : SpendEvent) (taken : Bool) (period : Option ℕ)
      → (finish add works t (insert_event add t e true taken period)).0 ≡ t
  insert_event-again t e taken none = refl
  insert_event-again t e taken (some p) = count_in-again t e p (t.keys e.key_id)

  record_spend-again :
      (t : Tables) (e : SpendEvent) (period : Option ℕ)
      → has_request e.request_id t.spend_events ≡ true
      → (record_spend add works t e period).0 ≡ t
  unfolding record_spend
  record_spend-again t e period h =
      ap (λ d. (finish add works t (insert_event add t e d (has_id e.id t.spend_events) period)).0)
        h
      ∙ insert_event-again t e (has_id e.id t.spend_events) period

  has_request_self :
      (e : SpendEvent) (es : List SpendEvent) → has_request e.request_id (e ∷ es) ≡ true
  unfolding has_request
  has_request_self e es = rw (str_eq_refl e.request_id) refl

  -- Either nothing was done, or the request is in the table.
  abbrev Stands : Tables → SpendEvent → Tables → Type 0
  Stands t e t' = (t' ≡ t) ⊎ (has_request e.request_id t'.spend_events ≡ true)

  count_in-Stands :
      (t t' : Tables) (e : SpendEvent) (p : ℕ) (row : Option SpendRow)
      → has_request e.request_id t'.spend_events ≡ true
      → Stands t e (finish add works t (count_in add t' e p false row)).0
  count_in-Stands t t' e p none h = inl refl
  count_in-Stands t t' e p (some r) h = inr h

  insert_event-Stands :
      (t : Tables) (e : SpendEvent) (duplicate taken : Bool) (period : Option ℕ)
      → Stands t e (finish add works t (insert_event add t e duplicate taken period)).0
  insert_event-Stands t e true taken period = inl (insert_event-again t e taken period)
  insert_event-Stands t e false true period = inl refl
  insert_event-Stands t e false false none = inr (has_request_self e t.spend_events)
  insert_event-Stands t e false false (some p) =
      count_in-Stands t _ e p (t.keys e.key_id) (has_request_self e t.spend_events)

  loses_reply-committed :
      (t : Tables) (done : Tables × SpendResult)
      → (finish add loses_reply t done).0 ≡ (finish add works t done).0
  loses_reply-committed t (t', recorded spent duplicate) = refl
  loses_reply-committed t (t', key_not_found) = refl
  loses_reply-committed t (t', failed) = refl

  record_spend-lost :
      (t : Tables) (e : SpendEvent) (period : Option ℕ)
      → (record_spend add loses_reply t e period).0 ≡ (record_spend add works t e period).0
  unfolding record_spend
  record_spend-lost t e period = loses_reply-committed t (
      insert_event add t e (has_request e.request_id t.spend_events) (has_id e.id t.spend_events)
        period)

  record_spend-Stands :
      (t : Tables) (e : SpendEvent) (period : Option ℕ)
      → Stands t e (record_spend add works t e period).0
  unfolding record_spend
  record_spend-Stands t e period =
      insert_event-Stands t e (has_request e.request_id t.spend_events) (has_id e.id t.spend_events)
        period

  record_spend-refused :
      (t : Tables) (e : SpendEvent) (period : Option ℕ)
      → (record_spend add refuses t e period).0 ≡ t
  unfolding record_spend
  record_spend-refused t e period = refl

  -- The tables `t'` after a report of the event e, and `t''` after the report e': the first stands and the
  -- second changes nothing, or the first changed nothing.
  abbrev pub CountsOnce :
      Tables → SpendEvent → Option ℕ → SpendEvent → Option ℕ → Tables → Tables → Type 0
  CountsOnce t e period e' period' t' t'' =
      ((has_request e.request_id t'.spend_events ≡ true)
        × (t' ≡ (record_spend add works t e period).0)
        × (t'' ≡ t'))
      ⊎ ((t' ≡ t) × (t'' ≡ (record_spend add works t e' period').0))

  committed-CountsOnce :
      (t t' : Tables) (e e' : SpendEvent) (period period' : Option ℕ)
      → e'.request_id ≡ e.request_id
      → t' ≡ (record_spend add works t e period).0
      → Stands t e t'
      → CountsOnce t e period e' period' t' (record_spend add works t' e' period').0
  committed-CountsOnce t t' e e' period period' same h (inl unchanged) =
      inr (unchanged, ap (λ (x : Tables). (record_spend add works x e' period').0) unchanged)
  committed-CountsOnce t t' e e' period period' same h (inr there) = inl (
    there,
    h,
    record_spend-again t' e' period' (ap (λ r. has_request r t'.spend_events) same ∙ there),
  )

  -- However the first report of a spend ended, answered, rolled back or committed without an answer, a second report of
  -- the same request, under another id, at another time and in whatever period, does not count it twice: if
  -- the first left the request in the tables it left what a report that works leaves, and the second changes nothing; if not, the
  -- first changed nothing, and the tables are as after the second alone.
  pub record_spend-retry :
      (ending : Ending) (t : Tables) (e e' : SpendEvent) (period period' : Option ℕ)
      → e'.request_id ≡ e.request_id
      → CountsOnce t e period e' period'
          (record_spend add ending t e period).0
          (record_spend add works (record_spend add ending t e period).0 e' period').0
  record_spend-retry refuses t e e' period period' same = inr (
    record_spend-refused t e period,
    ap (λ (x : Tables). (record_spend add works x e' period').0) (record_spend-refused t e period),
  )
  record_spend-retry works t e e' period period' same =
      committed-CountsOnce t _ e e' period period' same refl (record_spend-Stands t e period)
  record_spend-retry loses_reply t e e' period period' same =
      committed-CountsOnce t _ e e' period period' same (record_spend-lost t e period)
        (subst (Stands t e) (sym (record_spend-lost t e period)) (record_spend-Stands t e period))
