-- ===== src/Writeback/Events.antt =====
-- The bounded queue of audit events against one that is never full.
use keypooler.Base.{
  ℕ, ◌-◌, ◌<◌, ◌≡◌, refl, sym, ap, ◌∙◌, subst, inl, inr, Bool, true, false, if◌then◌else◌, List, [],
  ◌∷◌, ◌++◌, arith, length,
}
use keypooler.Db.{UsageEvent}
use keypooler.Writeback.Last.{
  last_of, le_total, drop-nil, last_of-all, last_of-cons, last_of-append_left, last_of-append_right,
}
use keypooler.Writeback.{
  Writer, Store, new, keep_events, event, take_all, flush_events, default_max_events,
}

-- The writer, what a flush has taken, and the store.
pub record State (S : Type 0) : Type 0 where
  pub writer : Writer
  pub in_flight : List UsageEvent
  pub stored : S

-- A flush ends with its write, under conditions of their own.
pub data Action (W : Type 0) : Type 0 where
  emits : UsageEvent → Action W
  takes : Action W
  settles : W → Action W

-- The same with a queue that is never full.
pub record Log (S : Type 0) : Type 0 where
  pub waiting : List UsageEvent
  pub taken : List UsageEvent
  pub stored : S

-- The state holds the last `n` of each queue of the log, and the same store.
pub record Truncates {S : Type 0} (n : ℕ) (s : State S) (l : Log S) : Type 0 where
  pub limit : s.writer.max_events ≡ n
  pub waiting : s.writer.events ≡ last_of n l.waiting
  pub taken : s.in_flight ≡ last_of n l.taken
  pub stored : s.stored ≡ l.stored

event_lem :
    (n : ℕ) (w : Writer) (e : UsageEvent) (waiting : List UsageEvent)
    → w.max_events ≡ n
    → w.events ≡ last_of n waiting
    → (event w e).events ≡ last_of n (waiting ++ e ∷ [])
unfolding event
event_lem n w e waiting m h =
    ap (λ k. last_of k (w.events ++ e ∷ [])) m
    ∙ ap (λ l. last_of n (l ++ e ∷ [])) h
    ∙ last_of-append_left n waiting (e ∷ [])

keep_events_lem :
    (n : ℕ) (w : Writer) (held waiting taken : List UsageEvent)
    → w.max_events ≡ n
    → w.events ≡ last_of n waiting
    → held ≡ last_of n taken
    → (keep_events w (held ++ w.events)).events ≡ last_of n (taken ++ waiting)
unfolding keep_events
keep_events_lem n w held waiting taken m h t =
    ap (λ k. last_of k (held ++ w.events)) m
    ∙ ap (λ l. last_of n (held ++ l)) h
    ∙ ap (λ l. last_of n (l ++ last_of n waiting)) t
    ∙ last_of-append_left n taken (last_of n waiting)
    ∙ last_of-append_right n taken waiting

last_of-ne_nil :
    (n : ℕ) (e : UsageEvent) (es : List UsageEvent)
    → 0 < n
    → (x : UsageEvent) × (xs : List UsageEvent) × (last_of n (e ∷ es) ≡ x ∷ xs)
last_of-ne_nil n e [] h = (e, [], last_of-all n (e ∷ []) h)
last_of-ne_nil n e (e' ∷ es) h = elim (le_total (length (e ∷ e' ∷ es)) n) [
  | inl short ↦ (e, e' ∷ es, last_of-all n (e ∷ e' ∷ es) short)
  | inr long ↦
      let (x, xs, p) = last_of-ne_nil n e' es h in
      (x, xs, last_of-cons n e (e' ∷ es) (omega arith) ∙ p)
]

module _ {S : Type 0} {W : Type 0} (store : W → Store S) where
  -- There is one flushing goroutine: it takes anew only when all it took is settled.
  abbrev take_next : State S → List UsageEvent → State S
  take_next s [] = record s { writer = take_all s.writer; in_flight = s.writer.events }
  take_next s (e ∷ es) = s

  -- The last lines of `Flush`.
  abbrev settle : W → State S → State S
  settle w s =
      let (stored', writer') = flush_events (store w) s.stored s.writer s.in_flight in
      record { writer = writer'; in_flight = []; stored = stored' }

  pub step : State S → Action W → State S
  step s (emits e) = record s { writer = event s.writer e }
  step s takes = take_next s s.in_flight
  step s (settles w) = settle w s

  pub run : State S → List (Action W) → State S
  run s [] = s
  run s (a ∷ rest) = run (step s a) rest

  abbrev take_log : Log S → List UsageEvent → Log S
  take_log l [] = record l { waiting = []; taken = l.waiting }
  take_log l (e ∷ es) = l

  -- The store is sent the last `n` of the chunk; if it answers with an error the whole chunk waits again, in front.
  abbrev log_settle : ℕ → W → Log S → List UsageEvent → Log S
  log_settle n w l [] = record l { taken = [] }
  log_settle n w l (e ∷ es) =
      let (stored', done) = (store w).record_usage_events l.stored (last_of n (e ∷ es)) in
      record {
        waiting = if done then l.waiting else (e ∷ es) ++ l.waiting;
        taken = [];
        stored = stored';
      }

  abbrev log_step : ℕ → Log S → Action W → Log S
  log_step n l (emits e) = record l { waiting = l.waiting ++ e ∷ [] }
  log_step n l takes = take_log l l.taken
  log_step n l (settles w) = log_settle n w l l.taken

  pub log_run : ℕ → Log S → List (Action W) → Log S
  log_run n l [] = l
  log_run n l (a ∷ rest) = log_run n (log_step n l a) rest

  take-Truncates :
      (n : ℕ) (s : State S) (l : Log S) (taken : List UsageEvent)
      → 0 < n
      → Truncates n s l
      → l.taken ≡ taken
      → Truncates n (take_next s s.in_flight) (take_log l taken)
  unfolding take_all
  take-Truncates n s l [] h t e =
      subst (λ q. Truncates n (take_next s q) (take_log l []))
        (sym (t.taken ∙ ap (last_of n) e ∙ drop-nil (0 - n)))
        (record {
          limit = t.limit;
          waiting = sym (drop-nil (0 - n));
          taken = t.waiting;
          stored = t.stored;
        })
  take-Truncates n s l (x ∷ xs) h t e =
      let (y, ys, p) = last_of-ne_nil n x xs h in
      subst (λ q. Truncates n (take_next s q) l) (sym (t.taken ∙ ap (last_of n) e ∙ p)) t

  -- The writer after the answer to a chunk `held`.
  answered-limit :
      (n : ℕ) (w : Writer) (held : List UsageEvent) (done : Bool)
      → w.max_events ≡ n
      → (if done then w else keep_events w (held ++ w.events)).max_events ≡ n
  unfolding keep_events
  answered-limit n w held true m = m
  answered-limit n w held false m = m

  answered-waiting :
      (n : ℕ) (w : Writer) (held waiting taken : List UsageEvent) (done : Bool)
      → w.max_events ≡ n
      → w.events ≡ last_of n waiting
      → held ≡ last_of n taken
      → (if done then w else keep_events w (held ++ w.events)).events
        ≡ last_of n (if done then waiting else taken ++ waiting)
  answered-waiting n w held waiting taken true m h t = h
  answered-waiting n w held waiting taken false m h t = keep_events_lem n w held waiting taken m h t

  sent-Truncates :
      (n : ℕ) (w : W) (s : State S) (l : Log S) (x : UsageEvent) (xs : List UsageEvent)
      (y : UsageEvent) (ys : List UsageEvent)
      → Truncates n s l
      → last_of n (x ∷ xs) ≡ y ∷ ys
      → Truncates n (settle w (record s { in_flight = y ∷ ys })) (log_settle n w l (x ∷ xs))
  unfolding flush_events
  sent-Truncates n w s l x xs y ys t p =
      let sent =
        ap (λ q. (store w).record_usage_events q (y ∷ ys)) t.stored
        ∙ ap ((store w).record_usage_events l.stored) (sym p) in
      record {
        limit = answered-limit n s.writer (y ∷ ys) _ t.limit;
        waiting =
            answered-waiting n s.writer (y ∷ ys) l.waiting (x ∷ xs) _ t.limit t.waiting (sym p)
            ∙ ap (λ (r : S × Bool). last_of n (if r.1 then l.waiting else (x ∷ xs) ++ l.waiting))
                sent;
        taken = sym (drop-nil (0 - n));
        stored = ap (λ (r : S × Bool). r.0) sent;
      }

  settle-Truncates :
      (n : ℕ) (w : W) (s : State S) (l : Log S) (taken : List UsageEvent)
      → 0 < n
      → Truncates n s l
      → l.taken ≡ taken
      → Truncates n (settle w s) (log_settle n w l taken)
  unfolding flush_events
  settle-Truncates n w s l [] h t e =
      subst (λ q. Truncates n (settle w (record s { in_flight = q })) (log_settle n w l []))
        (sym (t.taken ∙ ap (last_of n) e ∙ drop-nil (0 - n)))
        (record {
          limit = t.limit;
          waiting = t.waiting;
          taken = sym (drop-nil (0 - n));
          stored = t.stored;
        })
  settle-Truncates n w s l (x ∷ xs) h t e =
      let (y, ys, p) = last_of-ne_nil n x xs h in
      subst (λ q. Truncates n (settle w (record s { in_flight = q })) (log_settle n w l (x ∷ xs)))
        (sym (t.taken ∙ ap (last_of n) e ∙ p)) (sent-Truncates n w s l x xs y ys t p)

  step-Truncates :
      (n : ℕ) (s : State S) (l : Log S) (a : Action W)
      → 0 < n
      → Truncates n s l
      → Truncates n (step s a) (log_step n l a)
  unfolding step event keep_events
  step-Truncates n s l (emits e) h t = record {
    limit = t.limit;
    waiting = event_lem n s.writer e l.waiting t.limit t.waiting;
    taken = t.taken;
    stored = t.stored;
  }
  step-Truncates n s l takes h t = take-Truncates n s l l.taken h t refl
  step-Truncates n s l (settles w) h t = settle-Truncates n w s l l.taken h t refl

  run-Truncates_from :
      (n : ℕ) (acts : List (Action W)) (s : State S) (l : Log S)
      → 0 < n
      → Truncates n s l
      → Truncates n (run s acts) (log_run n l acts)
  unfolding run log_run
  run-Truncates_from n [] s l h t = t
  run-Truncates_from n (a ∷ rest) s l h t =
      run-Truncates_from n rest (step s a) (log_step n l a) h (step-Truncates n s l a h t)

  pub start : S → State S
  start stored = record { writer = new; in_flight = []; stored = stored }

  abbrev pub empty_log : S → Log S
  empty_log stored = record { waiting = []; taken = []; stored = stored }

  -- From a new writer on, over any store, for any interleaving of events, takes and settled writes, whatever the store
  -- does and answers: the writer holds exactly the last 10,000 of the events that a queue without a limit would
  -- hold, in their order; each flush sends the last 10,000 of the chunk that it would send, and what is stored is
  -- what the store makes of these. In that queue a chunk that is answered with an error waits again, whole and before
  -- what has come since.
  pub run-Truncates :
      (stored : S) (acts : List (Action W))
      → Truncates default_max_events
          (run (start stored) acts)
          (log_run default_max_events (empty_log stored) acts)
  unfolding start new
  run-Truncates stored acts =
      run-Truncates_from default_max_events acts (start stored) (empty_log stored) (omega arith)
        (record { limit = refl; waiting = refl; taken = refl; stored = refl })
