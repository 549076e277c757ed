-- ===== src/Db/Postgres/Spend/Totals.antt =====
-- What a key has spent in a period against the spend events of the table.
use keypooler.Base.{
  ℕ, ◌≡◌, refl, sym, ap, ◌∙◌, subst, inl, inr, String, Bool, true, false, Option, none, some, List,
  [], ◌∷◌, arith, str_eq, eq_iff, if◌then◌else◌, Bool-cases,
}
use keypooler.Float64.{Float64}
use keypooler.Db.{SpendEvent}
use keypooler.Db.Postgres.Spend.{
  SpendRow, Tables, Ending, works, refuses, loses_reply, begins, put_row, count_spend, count_in,
  insert_event, finish, record_spend,
}

module _ (add : Float64 → Float64 → Float64) where
  -- The amounts of a key's events, the newest first, added from the oldest on.
  pub total : Float64 → List Float64 → Float64
  total a [] = a
  total a (b ∷ older) = add (total b older) a

  unfoldable pub amounts : String → List SpendEvent → List Float64
  amounts id [] = []
  amounts id (e ∷ es) =
      let rest = amounts id es in if str_eq e.key_id id then e.amount ∷ rest else rest

  -- The row holds the total of the period: with no event yet it stands in another period.
  abbrev pub Tally : ℕ → SpendRow → List Float64 → Type 0
  Tally p r [] = begins r.spent_period_start p ≡ false
  Tally p r (a ∷ older) = (r.spent_period_start ≡ some p) × (r.spent ≡ total a older)

  -- Every row holds what its key's events of the table add up to.
  abbrev pub Tallies : ℕ → Tables → Type 0
  Tallies p t =
      (id : String) (r : SpendRow) → t.keys id ≡ some r → Tally p r (amounts id t.spend_events)

  begins_self : (start : Option ℕ) (p : ℕ) → start ≡ some p → begins start p ≡ true
  begins_self none p e = cc
  begins_self (some q) p e = ground arith

  count_spend-Tally :
      (p : ℕ) (a : Float64) (r : SpendRow) (older : List Float64)
      → Tally p r older
      → Tally p (count_spend add p a r) (a ∷ older)
  unfolding total
  count_spend-Tally p a r [] h = (refl, ap (λ c. if c then add r.spent a else a) h)
  count_spend-Tally p a r (b ∷ older) (start, spent) = (
    refl,
    ap (λ c. if c then add r.spent a else a) (begins_self r.spent_period_start p start)
        ∙ ap (λ x. add x a) spent,
  )

  amounts-own :
      (id : String) (e : SpendEvent) (es : List SpendEvent)
      → str_eq e.key_id id ≡ true
      → amounts id (e ∷ es) ≡ e.amount ∷ amounts id es
  unfolding amounts
  amounts-own id e es h = ap (λ c. if c then e.amount ∷ amounts id es else amounts id es) h

  amounts-other :
      (id : String) (e : SpendEvent) (es : List SpendEvent)
      → str_eq e.key_id id ≡ false
      → amounts id (e ∷ es) ≡ amounts id es
  unfolding amounts
  amounts-other id e es h = ap (λ c. if c then e.amount ∷ amounts id es else amounts id es) h

  some_row : (r r' : SpendRow) → some r ≡ some r' → r ≡ r'
  some_row r r' e = cc

  same_key : (id j : String) → str_eq id j ≡ true → id ≡ j
  same_key id j h = ground (arith, eq_iff id j)

  -- A committed event: its row is counted, the others stay.
  counted-Tallies :
      (p : ℕ) (t : Tables) (e : SpendEvent) (r : SpendRow)
      → t.keys e.key_id ≡ some r
      → Tallies p t
      → Tallies p (record {
        keys = put_row t.keys e.key_id (count_spend add p e.amount r);
        spend_events = e ∷ t.spend_events;
      })
  counted-Tallies p t e r held h id r' g = elim (Bool-cases (str_eq e.key_id id)) [
    | inl same ↦
        let row : count_spend add p e.amount r ≡ r' =
          some_row _ r' (
            sym (ap (λ c. if c then some (count_spend add p e.amount r) else t.keys id) same)
            ∙ g) in
        subst (λ (x : SpendRow). Tally p x (amounts id (e ∷ t.spend_events))) row
          (subst (Tally p (count_spend add p e.amount r))
            (sym (amounts-own id e t.spend_events same))
            (count_spend-Tally p e.amount r (amounts id t.spend_events)
              (h id r (sym (ap t.keys (same_key e.key_id id same)) ∙ held))))
    | inr other ↦ subst (Tally p r') (sym (amounts-other id e t.spend_events other)) (
        h id r'
          (sym (ap (λ c. if c then some (count_spend add p e.amount r) else t.keys id) other) ∙ g))
  ]

  count_in-Tallies :
      (p : ℕ) (t : Tables) (e : SpendEvent) (row : Option SpendRow) (ending : Ending)
      → t.keys e.key_id ≡ row
      → Tallies p t
      → Tallies p
          (finish add ending t
            (count_in add (record t { spend_events = e ∷ t.spend_events }) e p false row)).0
  count_in-Tallies p t e none works held h = h
  count_in-Tallies p t e none refuses held h = h
  count_in-Tallies p t e none loses_reply held h = h
  count_in-Tallies p t e (some r) works held h = counted-Tallies p t e r held h
  count_in-Tallies p t e (some r) refuses held h = h
  count_in-Tallies p t e (some r) loses_reply held h = counted-Tallies p t e r held h

  duplicate-Tallies :
      (p : ℕ) (t : Tables) (e : SpendEvent) (row : Option SpendRow) (ending : Ending)
      → Tallies p t
      → Tallies p (finish add ending t (count_in add t e p true row)).0
  duplicate-Tallies p t e none works h = h
  duplicate-Tallies p t e none refuses h = h
  duplicate-Tallies p t e none loses_reply h = h
  duplicate-Tallies p t e (some r) works h = h
  duplicate-Tallies p t e (some r) refuses h = h
  duplicate-Tallies p t e (some r) loses_reply h = h

  insert_event-Tallies :
      (p : ℕ) (t : Tables) (e : SpendEvent) (duplicate taken : Bool) (ending : Ending)
      → Tallies p t
      → Tallies p (finish add ending t (insert_event add t e duplicate taken (some p))).0
  insert_event-Tallies p t e true taken ending h = duplicate-Tallies p t e _ ending h
  insert_event-Tallies p t e false true works h = h
  insert_event-Tallies p t e false true refuses h = h
  insert_event-Tallies p t e false true loses_reply h = h
  insert_event-Tallies p t e false false ending h = count_in-Tallies p t e _ ending refl h

  record_spend-Tallies :
      (p : ℕ) (t : Tables) (e : SpendEvent) (ending : Ending)
      → Tallies p t
      → Tallies p (record_spend add ending t e (some p)).0
  unfolding record_spend
  record_spend-Tallies p t e ending h = insert_event-Tallies p t e _ _ ending h

  -- Reports in one period, each with how it ends.
  pub reports : ℕ → Tables → List (Ending × SpendEvent) → Tables
  reports p t [] = t
  reports p t ((ending, e) ∷ rest) = reports p (record_spend add ending t e (some p)).0 rest

  -- Reports of one period, however each of them ends: if before them each row held the total of its
  -- key's events, counted for this period, or stood in another period and its key had none, it is so
  -- after them. So a spend counts exactly if its event is in the table.
  pub reports-Tallies :
      (p : ℕ) (calls : List (Ending × SpendEvent)) (t : Tables)
      → Tallies p t
      → Tallies p (reports p t calls)
  unfolding reports
  reports-Tallies p [] t h = h
  reports-Tallies p ((ending, e) ∷ rest) t h =
      reports-Tallies p rest _ (record_spend-Tallies p t e ending h)
