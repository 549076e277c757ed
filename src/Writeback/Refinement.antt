-- ===== src/Writeback/Refinement.antt =====
-- The writer as a step relation, with its flushes in rounds, and what is pending for the row of a key.
use keypooler.Base.{
  subst, ℕ, suc, ◌≡◌, refl, sym, ap, ◌∙◌, inl, inr, Option-cases, String, Bool, true, false, Option,
  none, some, List, [], ◌∷◌, arith, str_eq, eq_iff, if◌then◌else◌, is_some, or_else, Bool-cases,
}
use keypooler.Base.Dict.{Dict, lookup, insert, lookup-insert, Distinct, insert-Distinct}
use keypooler.Db.Postgres.{UsageRow, UsageRows, add_count, set_count, add_usage, reset_usage_window}
use keypooler.Db.Postgres.Spend.{Ending, works, refuses, loses_reply}
use keypooler.Writeback.{
  Store, write_usage, flush_usage, Usage, Writer, no_usage, merge_failed, new, served, window_reset,
  take_all, requeue_usage,
}

-- What a pending entry does to the row when it is written.
abbrev pub apply : Option Usage → UsageRow → UsageRow
apply none r = r
apply (some u) r = elim u.reset [ some start ↦ set_count u.n start r | none ↦ add_count u.n r ]

-- The writer, what a flush has taken and not yet settled, and the rows.
pub record State : Type 0 where
  pub writer : Writer
  pub in_flight : Dict Usage
  pub rows : UsageRows

pub data Action : Type 0 where
  serves : String → Action
  resets : String → ℕ → Action
  takes : Action
  settles : Ending → Action

abbrev pub write : UsageRows → String → Usage → UsageRows
write rows id u = elim u.reset [
  | some start ↦ reset_usage_window rows id start u.n
  | none ↦ add_usage rows id u.n
]

-- How a statement that makes the rows `rows'` ends, and whether it is answered with success.
abbrev ended : Ending → UsageRows → UsageRows → UsageRows × Bool
ended works rows rows' = (rows', true)
ended refuses rows rows' = (rows, false)
ended loses_reply rows rows' = (rows', false)

-- The rows as the store of the writer, for statements that end so.
abbrev ending_in : Ending → Store UsageRows
ending_in ending = record {
  add_usage = λ rows id n. ended ending rows (add_usage rows id n);
  reset_usage_window = λ rows id start n. ended ending rows (reset_usage_window rows id start n);
  record_usage_events = λ rows es. (rows, true);
}

-- One round of the loop of `Flush`, by how its write ends.
abbrev pub settle : Ending → State → String → Usage → Dict Usage → State
settle ending s id u rest =
    let (rows', writer') = flush_usage (ending_in ending) s.rows s.writer ((id, u) ∷ []) in
    record { writer = writer'; in_flight = rest; rows = rows' }

-- What that comes to: a write that is refused changes nothing and is kept; so is one that is committed and loses its
-- answer, which `Flush` cannot tell from it.
abbrev pub round : Ending → State → String → Usage → Dict Usage → State
round works s id u rest = record s { in_flight = rest; rows = write s.rows id u }
round refuses s id u rest = record s { in_flight = rest; writer = requeue_usage s.writer id u }
round loses_reply s id u rest = record s {
  in_flight = rest;
  rows = write s.rows id u;
  writer = requeue_usage s.writer id u;
}

settle-reset :
    (ending : Ending) (s : State) (id : String) (n : ℕ) (reset : Option ℕ) (rest : Dict Usage)
    → settle ending s id (record { n = n; reset = reset }) rest
      ≡ round ending s id (record { n = n; reset = reset }) rest
unfolding flush_usage write_usage
settle-reset works s id n none rest = refl
settle-reset works s id n (some t) rest = refl
settle-reset refuses s id n none rest = refl
settle-reset refuses s id n (some t) rest = refl
settle-reset loses_reply s id n none rest = refl
settle-reset loses_reply s id n (some t) rest = refl

pub settle-round :
    (ending : Ending) (s : State) (id : String) (u : Usage) (rest : Dict Usage)
    → settle ending s id u rest ≡ round ending s id u rest
settle-round ending s id u rest = settle-reset ending s id u.n u.reset rest

abbrev pub settle_next : Ending → State → Dict Usage → State
settle_next ending s [] = s
settle_next ending s ((id, u) ∷ rest) = settle ending s id u rest

-- There is one flushing goroutine: it takes anew only when all it took is settled.
abbrev take_next : State → Dict Usage → State
take_next s [] = record s { writer = take_all s.writer; in_flight = s.writer.usage }
take_next s (x ∷ rest) = s

unfoldable pub step : State → Action → State
step s (serves id) = record s { writer = served s.writer id }
step s (resets id start) = record s { writer = window_reset s.writer id start }
step s takes = take_next s s.in_flight
step s (settles ending) = settle_next ending s s.in_flight

unfoldable pub run : State → List Action → State
run s [] = s
run s (a ∷ rest) = run (step s a) rest

unfoldable pub start : UsageRows → State
start rows = record { writer = new; in_flight = []; rows = rows }

-- The row of a key once all that waits is written.
abbrev pub flushed_row : Writer → Dict Usage → UsageRows → String → UsageRow
flushed_row w in_flight rows id = apply (lookup id w.usage) (apply (lookup id in_flight) (rows id))

abbrev pub settled_row : State → String → UsageRow
settled_row s id = flushed_row s.writer s.in_flight s.rows id

-- The specification: each serve is counted at once, and flushes do nothing.
abbrev pub counted : Action → String → UsageRow → UsageRow
counted (serves j) id r = if str_eq j id then add_count 1 r else r
counted (resets j start) id r = if str_eq j id then set_count 1 start r else r
counted takes id r = r
counted (settles ending) id r = r

unfoldable pub replay : List Action → String → UsageRow → UsageRow
replay [] id r = r
replay (a ∷ rest) id r = replay rest id (counted a id r)

abbrev pub IsMap : State → Type 0
IsMap s = Distinct s.writer.usage × Distinct s.in_flight

-- The two ways in which an entry changes.
abbrev bumped : Option Usage → Usage
bumped o = let u = or_else o no_usage in record u { n = suc u.n }

abbrev merged : Option Usage → Usage → Usage
merged none failed = failed
merged (some now) failed = merge_failed now failed

requeue_usage_lem :
    (w : Writer) (id : String) (u : Usage)
    → requeue_usage w id u ≡ record w { usage = insert id (merged (lookup id w.usage) u) w.usage }
unfolding requeue_usage
requeue_usage_lem w id u = elim (Option-cases (lookup id w.usage)) [
  | inl e ↦ rw (e, requeue_usage)
  | inr (now, e) ↦ rw (e, requeue_usage)
]

apply-bumped :
    (o : Option Usage) (r : UsageRow) → apply (some (bumped o)) r ≡ add_count 1 (apply o r)
apply-bumped none r = refl
apply-bumped (some u) r = ground arith

apply-merged :
    (o : Option Usage) (u : Usage) (r : UsageRow)
    → apply (some (merged o u)) r ≡ apply o (apply (some u) r)
apply-merged none u r = refl
apply-merged (some now) u r = ground arith

requeue-Distinct :
    (w : Writer) (id : String) (u : Usage)
    → Distinct w.usage
    → Distinct (requeue_usage w id u).usage
requeue-Distinct w id u h = rw (requeue_usage_lem w id u) (insert-Distinct id _ w.usage h)

round-IsMap :
    (ending : Ending) (s : State) (id : String) (u : Usage) (rest : Dict Usage)
    → Distinct s.writer.usage
    → Distinct rest
    → IsMap (round ending s id u rest)
round-IsMap works s id u rest h d = (h, d)
round-IsMap refuses s id u rest h d = (requeue-Distinct s.writer id u h, d)
round-IsMap loses_reply s id u rest h d = (requeue-Distinct s.writer id u h, d)

settle_next-IsMap :
    (ending : Ending) (s : State) (taken : Dict Usage)
    → Distinct s.writer.usage
    → Distinct s.in_flight
    → Distinct taken
    → IsMap (settle_next ending s taken)
settle_next-IsMap ending s [] h d e = (h, d)
settle_next-IsMap ending s ((id, u) ∷ rest) h d e =
    subst IsMap (sym (settle-round ending s id u rest)) (round-IsMap ending s id u rest h e.1)

take_next-IsMap :
    (s : State) (taken : Dict Usage)
    → Distinct s.writer.usage
    → Distinct s.in_flight
    → IsMap (take_next s taken)
unfolding take_all
take_next-IsMap s [] h d = (tt, h)
take_next-IsMap s (x ∷ taken) h d = (h, d)

pub step-IsMap : (s : State) (a : Action) → IsMap s → IsMap (step s a)
unfolding step served window_reset
step-IsMap s (serves id) h = (insert-Distinct id _ s.writer.usage h.0, h.1)
step-IsMap s (resets id start) h = (insert-Distinct id _ s.writer.usage h.0, h.1)
step-IsMap s takes h = take_next-IsMap s s.in_flight h.0 h.1
step-IsMap s (settles ending) h = settle_next-IsMap ending s s.in_flight h.0 h.1 h.1

-- An entry written into the map is read back under its own key alone.
apply-insert :
    (j id : String) (u : Usage) (m : Dict Usage) (r r' : UsageRow)
    → (str_eq j id ≡ true → apply (some u) r ≡ r')
    → (str_eq j id ≡ false → apply (lookup id m) r ≡ r')
    → apply (lookup id (insert j u m)) r ≡ r'
apply-insert j id u m r r' hit miss = elim (Bool-cases (str_eq j id)) [
  | inl e ↦ rw (lookup-insert j id u m, e) (hit e)
  | inr e ↦ rw (lookup-insert j id u m, e) (miss e)
]

pub lookup_same {ℓ} :
    {V : Type ℓ} (j id : String) (m : Dict V) → str_eq j id ≡ true → lookup j m ≡ lookup id m
lookup_same j id m e = ap (λ k. lookup k m) ((eq_iff j id).0 e)

pub row-served :
    (w : Writer) (j id : String) (r : UsageRow)
    → apply (lookup id (served w j).usage) r ≡ counted (serves j) id (apply (lookup id w.usage) r)
unfolding served
row-served w j id r =
    apply-insert j id (bumped (lookup j w.usage)) w.usage r _
      (λ e. rw (e, lookup_same j id w.usage e) (apply-bumped (lookup id w.usage) r)) (λ e. rw e)

pub row-window_reset :
    (w : Writer) (j : String) (start : ℕ) (id : String) (r : UsageRow)
    → apply (lookup id (window_reset w j start).usage) r
      ≡ counted (resets j start) id (apply (lookup id w.usage) r)
unfolding window_reset
row-window_reset w j start id r = apply-insert j id _ w.usage r _ (λ e. rw e) (λ e. rw e)

row-requeue :
    (w : Writer) (j id : String) (u : Usage) (r : UsageRow)
    → apply (lookup id (requeue_usage w j u).usage) r
      ≡ apply (lookup id w.usage) (if str_eq j id then apply (some u) r else r)
row-requeue w j id u r = rw (requeue_usage_lem w j u) (
    apply-insert j id _ w.usage r _
      (λ e. rw (e, lookup_same j id w.usage e) (apply-merged (lookup id w.usage) u r)) (λ e. rw e))

pub write-row :
    (rows : UsageRows) (j id : String) (u : Usage)
    → write rows j u id ≡ (if str_eq j id then apply (some u) (rows id) else rows id)
unfolding add_usage reset_usage_window
write-row rows j id u = ground arith

pub not_some {ℓ} : {A : Type ℓ} (o : Option A) → is_some o ≡ false → o ≡ none
not_some none h = refl
not_some (some a) h = cc

-- The head of what is in flight is settled: its key is in the rest no more.
module _ (s : State) (j id : String) (u : Usage) (rest : Dict Usage)
    (fresh : is_some (lookup j rest) ≡ false) where
  unfoldable pub head_row : UsageRow
  head_row = apply (lookup id ((j, u) ∷ rest)) (s.rows id)

  gone : str_eq j id ≡ true → lookup id rest ≡ none
  gone e = sym (lookup_same j id rest e) ∙ not_some (lookup j rest) fresh

  pub row-written : apply (lookup id rest) (write s.rows j u id) ≡ head_row
  unfolding lookup head_row
  row-written = elim (Bool-cases (str_eq j id)) [
    | inl e ↦ rw (write-row s.rows j id u, e, gone e)
    | inr e ↦ rw (write-row s.rows j id u, e)
  ]

  pub row-kept :
      apply (lookup id (requeue_usage s.writer j u).usage) (apply (lookup id rest) (s.rows id))
      ≡ apply (lookup id s.writer.usage) head_row
  unfolding lookup head_row
  row-kept = elim (Bool-cases (str_eq j id)) [
    | inl e ↦
        rw (row-requeue s.writer j id u _, e)
          (ap (λ o. apply (lookup id s.writer.usage) (apply (some u) (apply o (s.rows id))))
            (gone e))
    | inr e ↦ rw (row-requeue s.writer j id u _, e)
  ]

pub flushed_row-write :
    (w : Writer) (rows : UsageRows) (j id : String) (u : Usage) (rest : Dict Usage)
    → is_some (lookup j rest) ≡ false
    → flushed_row w rest (write rows j u) id ≡ flushed_row w ((j, u) ∷ rest) rows id
unfolding head_row
flushed_row-write w rows j id u rest fresh =
    ap (apply (lookup id w.usage))
      (row-written (record { writer = w; in_flight = []; rows = rows }) j id u rest fresh)

pub flushed_row-requeue :
    (w : Writer) (rows : UsageRows) (j id : String) (u : Usage) (rest : Dict Usage)
    → is_some (lookup j rest) ≡ false
    → flushed_row (requeue_usage w j u) rest rows id ≡ flushed_row w ((j, u) ∷ rest) rows id
unfolding head_row
flushed_row-requeue w rows j id u rest fresh =
    row-kept (record { writer = w; in_flight = []; rows = rows }) j id u rest fresh

pub row-take_next :
    (s : State) (taken : Dict Usage) (id : String)
    → s.in_flight ≡ taken
    → settled_row (take_next s taken) id ≡ settled_row s id
unfolding take_all lookup
row-take_next s [] id e = rw e refl
row-take_next s (x ∷ rest) id e = refl
