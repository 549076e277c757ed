-- ===== src/Writeback/Repeats.antt =====
-- The writer against a database that never waits: every serve is in the row, or still pending.
use keypooler.Base.{
  Bool, ℕ, ◌+◌, ◌≡◌, refl, sym, ap, ◌∙◌, subst, String, true, false, Option, some, List, [], ◌∷◌,
  arith, str_eq, if◌then◌else◌, is_some,
}
use keypooler.Base.Dict.{Dict, lookup, Distinct}
use keypooler.Db.Postgres.{UsageRow, UsageRows}
use keypooler.Db.Postgres.Spend.{Ending, works, refuses, loses_reply}
use keypooler.Writeback.{Usage, new, requeue_usage}
use keypooler.Writeback.Within.{
  adds, Within, Within-refl, Within-trans, apply-Within, apply_again, replay-Within,
}
use keypooler.Writeback.Refinement.{
  State, Action, serves, resets, takes, settles, write, settle, settle_next, round, settle-round,
  step, run, start, apply, settled_row, flushed_row, flushed_row-write, flushed_row-requeue,
  counted, replay, IsMap, step-IsMap, row-served, row-window_reset, row-take_next, write-row,
}

-- The serves of the key that an action leaves both in the row and waiting: an addition that was committed without an
-- answer.
abbrev pub repeats_of : Ending → Dict Usage → String → ℕ
repeats_of works taken id = 0
repeats_of refuses taken id = 0
repeats_of loses_reply [] id = 0
repeats_of loses_reply ((j, u) ∷ rest) id = if str_eq j id then adds u else 0

abbrev pub repeated : State → Action → String → ℕ
repeated s (serves j) id = 0
repeated s (resets j start) id = 0
repeated s takes id = 0
repeated s (settles ending) id = repeats_of ending s.in_flight id

pub repeats : State → List Action → String → ℕ
repeats s [] id = 0
repeats s (a ∷ rest) id = repeats (step s a) rest id + repeated s a id

-- An entry of this key is written twice, one of another key leaves the row.
again-Within :
    (same : Bool) (now before : Option Usage) (u : Usage) (r : UsageRow)
    → Within
        (if same then adds u else 0)
        (apply now (apply (if same then some u else before) r))
        (apply now (apply (if same then some u else before) (if same then apply (some u) r else r)))
again-Within true now before u r = apply-Within (adds u) now _ _ (apply_again u.n u.reset r)
again-Within false now before u r = Within-refl _ _ refl

lost-Within :
    (s : State) (j id : String) (u : Usage) (rest : Dict Usage)
    → is_some (lookup j rest) ≡ false
    → Within
        (if str_eq j id then adds u else 0)
        (flushed_row s.writer ((j, u) ∷ rest) s.rows id)
        (flushed_row (requeue_usage s.writer j u) rest (write s.rows j u) id)
unfolding lookup
lost-Within s j id u rest fresh =
    subst
      (Within (if str_eq j id then adds u else 0) (flushed_row s.writer ((j, u) ∷ rest) s.rows id))
      (sym (
        flushed_row-requeue s.writer (write s.rows j u) j id u rest fresh
        ∙ ap (λ r. apply (lookup id s.writer.usage) (apply (lookup id ((j, u) ∷ rest)) r))
            (write-row s.rows j id u)))
      (again-Within (str_eq j id) (lookup id s.writer.usage) (lookup id rest) u (s.rows id))

round-Within :
    (ending : Ending) (s : State) (j id : String) (u : Usage) (rest : Dict Usage)
    → is_some (lookup j rest) ≡ false
    → Within
        (repeats_of ending ((j, u) ∷ rest) id)
        (flushed_row s.writer ((j, u) ∷ rest) s.rows id)
        (settled_row (round ending s j u rest) id)
round-Within works s j id u rest fresh =
    Within-refl _ _ (flushed_row-write s.writer s.rows j id u rest fresh)
round-Within refuses s j id u rest fresh =
    Within-refl _ _ (flushed_row-requeue s.writer s.rows j id u rest fresh)
round-Within loses_reply s j id u rest fresh = lost-Within s j id u rest fresh

settle-Within :
    (ending : Ending) (s : State) (j id : String) (u : Usage) (rest : Dict Usage)
    → is_some (lookup j rest) ≡ false
    → Within
        (repeats_of ending ((j, u) ∷ rest) id)
        (flushed_row s.writer ((j, u) ∷ rest) s.rows id)
        (settled_row (settle ending s j u rest) id)
settle-Within ending s j id u rest fresh =
    subst
      (λ (x : State).
        Within (repeats_of ending ((j, u) ∷ rest) id)
          (flushed_row s.writer ((j, u) ∷ rest) s.rows id) (settled_row x id))
      (sym (settle-round ending s j u rest)) (round-Within ending s j id u rest fresh)

settle_next-Within :
    (ending : Ending) (s : State) (taken : Dict Usage) (id : String)
    → Distinct taken
    → s.in_flight ≡ taken
    → Within
        (repeats_of ending taken id)
        (settled_row s id)
        (settled_row (settle_next ending s taken) id)
settle_next-Within works s [] id d e = Within-refl _ _ refl
settle_next-Within refuses s [] id d e = Within-refl _ _ refl
settle_next-Within loses_reply s [] id d e = Within-refl _ _ refl
settle_next-Within ending s ((j, u) ∷ rest) id d e =
    subst
      (λ t.
        Within (repeats_of ending ((j, u) ∷ rest) id) (flushed_row s.writer t s.rows id)
          (settled_row (settle ending s j u rest) id))
      (sym e) (settle-Within ending s j id u rest d.0)

settled_row-step :
    (s : State) (a : Action) (id : String)
    → IsMap s
    → Within (repeated s a id) (counted a id (settled_row s id)) (settled_row (step s a) id)
unfolding step
settled_row-step s (serves j) id h = Within-refl _ _ (row-served s.writer j id _)
settled_row-step s (resets j start) id h = Within-refl _ _ (row-window_reset s.writer j start id _)
settled_row-step s takes id h = Within-refl _ _ (row-take_next s s.in_flight id refl)
settled_row-step s (settles ending) id h = settle_next-Within ending s s.in_flight id h.1 refl

settled_row-run_from :
    (acts : List Action) (s : State) (id : String)
    → IsMap s
    → Within (repeats s acts id) (replay acts id (settled_row s id)) (settled_row (run s acts) id)
unfolding run replay repeats
settled_row-run_from [] s id h = Within-refl _ _ refl
settled_row-run_from (a ∷ rest) s id h =
    Within-trans (repeated s a id) (repeats (step s a) rest id) _ _ _
      (replay-Within (repeated s a id) rest id _ _ (settled_row-step s a id h))
      (settled_row-run_from rest (step s a) id (step-IsMap s a h))

-- Whatever serves, window resets, flushes and failed writes are interleaved from an empty writer on: with all that
-- waits written to it, the row of a key has the window of the row that counts each serve and reset at once, and
-- counts no call less. It counts more calls by at most those of the additions to it that were committed while their answer was
-- lost, since these are written again: none, if every failed write has changed nothing.
pub settled_row-run :
    (rows : UsageRows) (acts : List Action) (id : String)
    → Within
        (repeats (start rows) acts id)
        (replay acts id (rows id))
        (settled_row (run (start rows) acts) id)
unfolding start new lookup
settled_row-run rows acts id = settled_row-run_from acts (start rows) id (tt, tt)

-- No failed write of these actions has changed the row.
abbrev pub IsAnswered : Action → Type 0
IsAnswered (settles loses_reply) = ⊥
IsAnswered (settles works) = Unit {0}
IsAnswered (settles refuses) = Unit {0}
IsAnswered (serves j) = Unit {0}
IsAnswered (resets j start) = Unit {0}
IsAnswered takes = Unit {0}

abbrev pub AreAnswered : List Action → Type 0
AreAnswered [] = Unit {0}
AreAnswered (a ∷ rest) = IsAnswered a × AreAnswered rest

repeated-none : (s : State) (a : Action) (id : String) → IsAnswered a → repeated s a id ≡ 0
repeated-none s (serves j) id h = refl
repeated-none s (resets j start) id h = refl
repeated-none s takes id h = refl
repeated-none s (settles works) id h = refl
repeated-none s (settles refuses) id h = refl
repeated-none s (settles loses_reply) id h = absurd h

repeats-none :
    (s : State) (acts : List Action) (id : String) → AreAnswered acts → repeats s acts id ≡ 0
unfolding repeats
repeats-none s [] id h = refl
repeats-none s (a ∷ rest) id h =
    omega (arith, repeats-none (step s a) rest id h.1, repeated-none s a id h.0)

Within-equal : (x : ℕ) (r r' : UsageRow) → Within x r r' → x ≡ 0 → r' ≡ r
Within-equal x r r' h e =
    ap (λ t. record { usage_count = r'.usage_count; usage_window_start = t }) h.window
    ∙ ap (λ n. record { usage_count = n; usage_window_start = r.usage_window_start })
        (omega (arith, h.least, h.most, e))

-- Where no write loses its answer after it was committed: whatever serves, window resets, flushes and failed
-- writes are interleaved from an empty writer on, the row of a key with all that waits written to it is the
-- row that counts each serve and reset at once, so that each serve counts once.
pub settled_row-answered :
    (rows : UsageRows) (acts : List Action) (id : String)
    → AreAnswered acts
    → settled_row (run (start rows) acts) id ≡ replay acts id (rows id)
settled_row-answered rows acts id h =
    Within-equal _ _ _ (settled_row-run rows acts id) (repeats-none (start rows) acts id h)
