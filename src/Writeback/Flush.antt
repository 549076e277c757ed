-- ===== src/Writeback/Flush.antt =====
-- `Flush` itself, over any store whose writes work or change nothing.
use keypooler.Base.{
  str_eq, sym, ℕ, ◌≡◌, refl, ap, ◌∙◌, inl, inr, String, Bool, true, false, Option, none, some, List,
  [], ◌∷◌, if◌then◌else◌, is_some, Bool-cases,
}
use keypooler.Base.Dict.{Dict, lookup, Distinct}
use keypooler.Db.{UsageEvent}
use keypooler.Db.Postgres.{UsageRow, add_count, set_count}
use keypooler.Writeback.{
  Usage, Writer, Store, keep_events, take_all, requeue_usage, write_usage, flush_usage,
  flush_events, flush,
}
use keypooler.Writeback.Refinement.{
  apply, write-row, flushed_row, flushed_row-write, flushed_row-requeue,
}

-- What a statement on the key `j` makes of the row of `id`: a key without a row has none afterwards.
abbrev pub on_row : String → String → (UsageRow → UsageRow) → Option UsageRow → Option UsageRow
on_row j id f none = none
on_row j id f (some r) = some (if str_eq j id then f r else r)

-- The usage columns that a store holds, and what its calls do to them: what they say, for a key that is there, or nothing
-- where they fail. No answer of a write that was committed is lost.
pub record IsAtomic {S : Type 0} (store : Store S) (row : S → String → Option UsageRow)
    : Type 0 where
  pub added :
      (s : S) (j id : String) (n : ℕ)
      → (store.add_usage s j n).1 ≡ true
      → row (store.add_usage s j n).0 id ≡ on_row j id (add_count n) (row s id)
  pub not_added :
      (s : S) (j id : String) (n : ℕ)
      → (store.add_usage s j n).1 ≡ false
      → row (store.add_usage s j n).0 id ≡ row s id
  pub reset_done :
      (s : S) (j id : String) (start n : ℕ)
      → (store.reset_usage_window s j start n).1 ≡ true
      → row (store.reset_usage_window s j start n).0 id ≡ on_row j id (set_count n start) (row s id)
  pub reset_failed :
      (s : S) (j id : String) (start n : ℕ)
      → (store.reset_usage_window s j start n).1 ≡ false
      → row (store.reset_usage_window s j start n).0 id ≡ row s id
  pub recorded :
      (s : S) (id : String) (es : List UsageEvent)
      → row (store.record_usage_events s es).0 id ≡ row s id

-- The row of a key, if it has one, once all that waits is written to it.
abbrev pub flushed : Writer → Dict Usage → Option UsageRow → String → Option UsageRow
flushed w taken none id = none
flushed w taken (some r) id = some (flushed_row w taken (λ j. r) id)

flushed-write :
    (w : Writer) (o : Option UsageRow) (j id : String) (u : Usage) (rest : Dict Usage)
    → is_some (lookup j rest) ≡ false
    → flushed w rest (on_row j id (apply (some u)) o) id ≡ flushed w ((j, u) ∷ rest) o id
flushed-write w none j id u rest d = refl
flushed-write w (some r) j id u rest d = ap some (
    ap (λ x. flushed_row w rest (λ k. x) id) (sym (write-row (λ k. r) j id u))
    ∙ flushed_row-write w (λ k. r) j id u rest d)

flushed-requeue :
    (w : Writer) (o : Option UsageRow) (j id : String) (u : Usage) (rest : Dict Usage)
    → is_some (lookup j rest) ≡ false
    → flushed (requeue_usage w j u) rest o id ≡ flushed w ((j, u) ∷ rest) o id
flushed-requeue w none j id u rest d = refl
flushed-requeue w (some r) j id u rest d = ap some (flushed_row-requeue w (λ k. r) j id u rest d)

module _ {S : Type 0} (store : Store S) (row : S → String → Option UsageRow)
    (atomic : IsAtomic store row) where
  write_usage-done :
      (s : S) (j id : String) (reset : Option ℕ) (n : ℕ)
      → (write_usage store s j (record { n = n; reset = reset })).1 ≡ true
      → row (write_usage store s j (record { n = n; reset = reset })).0 id
        ≡ on_row j id (apply (some (record { n = n; reset = reset }))) (row s id)
  unfolding write_usage
  write_usage-done s j id none n h = atomic.added s j id n h
  write_usage-done s j id (some t) n h = atomic.reset_done s j id t n h

  write_usage-failed :
      (s : S) (j id : String) (reset : Option ℕ) (n : ℕ)
      → (write_usage store s j (record { n = n; reset = reset })).1 ≡ false
      → row (write_usage store s j (record { n = n; reset = reset })).0 id ≡ row s id
  unfolding write_usage
  write_usage-failed s j id none n h = atomic.not_added s j id n h
  write_usage-failed s j id (some t) n h = atomic.reset_failed s j id t n h

  -- One round of the loop, by how the write ended.
  write_usage-row :
      (s : S) (w : Writer) (id j : String) (u : Usage) (rest : Dict Usage) (done : Bool)
      → (write_usage store s j u).1 ≡ done
      → is_some (lookup j rest) ≡ false
      → flushed
          (if done then w else requeue_usage w j u)
          rest
          (row (write_usage store s j u).0 id)
          id
        ≡ flushed w ((j, u) ∷ rest) (row s id) id
  write_usage-row s w id j u rest true e d =
      ap (λ o. flushed w rest o id) (write_usage-done s j id u.reset u.n e)
      ∙ flushed-write w (row s id) j id u rest d
  write_usage-row s w id j u rest false e d =
      ap (λ o. flushed (requeue_usage w j u) rest o id) (write_usage-failed s j id u.reset u.n e)
      ∙ flushed-requeue w (row s id) j id u rest d

  flush_usage-row :
      (taken : Dict Usage) (s : S) (w : Writer) (id : String)
      → Distinct taken
      → (let (s', w') = flush_usage store s w taken in flushed w' [] (row s' id) id)
        ≡ flushed w taken (row s id) id
  unfolding flush_usage
  flush_usage-row [] s w id d = refl
  flush_usage-row ((j, u) ∷ rest) s w id d =
      flush_usage-row rest _ _ id d.1
      ∙ write_usage-row s w id j u rest (write_usage store s j u).1 refl d.0

  keep_events-row :
      (w : Writer) (o : Option UsageRow) (es : List UsageEvent) (id : String)
      → flushed (keep_events w es) [] o id ≡ flushed w [] o id
  unfolding keep_events
  keep_events-row w none es id = refl
  keep_events-row w (some r) es id = refl

  flush_events-row :
      (es : List UsageEvent) (s : S) (w : Writer) (id : String)
      → (let (s', w') = flush_events store s w es in flushed w' [] (row s' id) id)
        ≡ flushed w [] (row s id) id
  unfolding flush_events
  flush_events-row [] s w id = refl
  flush_events-row (e ∷ es) s w id = elim (Bool-cases (store.record_usage_events s (e ∷ es)).1) [
    | inl done ↦ rw (done, atomic.recorded s id (e ∷ es)) refl
    | inr failed ↦ rw (failed, atomic.recorded s id (e ∷ es)) (keep_events-row w (row s id) _ id)
  ]

  unlisted :
      (w : Writer) (o : Option UsageRow) (id : String)
      → flushed (take_all w) w.usage o id ≡ flushed w [] o id
  unfolding take_all lookup
  unlisted w none id = refl
  unlisted w (some r) id = refl

  -- One whole `Flush`, whichever of its writes are refused: the row of each key, with what is then pending
  -- written to it, is the row it was with what was pending before, and a key that has no row gets none. It is asked that
  -- the store's writes work or change nothing, so that no answer to a committed write is lost, and that the writer's
  -- map lists no key twice.
  pub flush-row :
      (s : S) (w : Writer) (id : String)
      → Distinct w.usage
      → (let (s', w') = flush store s w in flushed w' [] (row s' id) id)
        ≡ flushed w [] (row s id) id
  unfolding flush
  flush-row s w id d =
      flush_events-row w.events _ _ id
      ∙ (flush_usage-row w.usage s (take_all w) id d ∙ unlisted w (row s id) id)
