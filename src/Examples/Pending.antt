-- ===== src/Examples/Pending.antt =====
-- The writer's theorems at concrete runs.
use keypooler.Base.{◌≡◌, ◌≢◌, refl, true, none, some, List, [], ◌∷◌}
use keypooler.Base.Dict.{Distinct, lookup}
use keypooler.Db.Postgres.{UsageRows}
use keypooler.Db.Postgres.Spend.{Ending, works, refuses, loses_reply}
use keypooler.Db.Store.{Store, Weather}
use keypooler.Db.Store.Counting.{usage_store, usage_of, usage_store-IsAtomic}
use keypooler.Writeback as Writeback
use keypooler.Writeback.{Usage, Writer, flush, default_max_events}
use keypooler.Writeback.Refinement.{
  Action, serves, resets, takes, settles, run, start, settled_row, replay,
}
use keypooler.Writeback.Within.{Within}
use keypooler.Writeback.Repeats.{repeats, settled_row-run, settled_row-answered}
use keypooler.Writeback.Flush.{flushed, flush-row}
use keypooler.Writeback.Events
use keypooler.Examples.Data.{at, seen}
use keypooler.Examples.Storing.{with_key}

abbrev fresh_rows : UsageRows
fresh_rows id = record { usage_count = 7; usage_window_start = none }

-- Two serves are taken, written, and kept since the answer is lost; they are written again.
abbrev lost : List Action
lost =
    serves "a" ∷ serves "a" ∷ takes ∷ serves "b" ∷ settles loses_reply ∷ takes ∷ settles works ∷ []

settled_row-run_example :
    Within
      (repeats (start fresh_rows) lost "a")
      (replay lost "a" (fresh_rows "a"))
      (settled_row (run (start fresh_rows) lost) "a")
settled_row-run_example = settled_row-run fresh_rows lost "a"

-- Two serves are taken and refused while a reset comes in; the reset stands.
abbrev acts : List Action
acts =
    serves "a"
    ∷ serves "a"
    ∷ takes
    ∷ serves "b"
    ∷ resets "a" (at 9)
    ∷ settles refuses
    ∷ takes
    ∷ settles works
    ∷ serves "a"
    ∷ []

settled_row-answered_example :
    settled_row (run (start fresh_rows) acts) "a" ≡ replay acts "a" (fresh_rows "a")
settled_row-answered_example =
    settled_row-answered fresh_rows acts "a"
      (tt, (tt, (tt, (tt, (tt, (tt, (tt, (tt, (tt, tt)))))))))

abbrev weather : Ending → Weather
weather ending = record { reading = true; writing = ending; text_before = λ s t. true; now = 7 }

not_lost : works ≢ loses_reply
not_lost e = cc

-- Two serves of a key that is there, and three of one that is not.
abbrev waiting : Writer
waiting = record {
  usage = ("k", record { n = 2; reset = some (at 9) }) ∷ ("b", record { n = 3; reset = none }) ∷ [];
  events = seen "e" ∷ [];
  max_events = default_max_events;
}

waiting-Distinct : Distinct waiting.usage
unfolding lookup
waiting-Distinct = (refl, (refl, tt))

flush-row_example :
    (let (s', w') = flush (usage_store (weather works)) with_key.0 waiting in
      flushed w' [] (usage_of s' "k") "k")
    ≡ flushed waiting [] (usage_of with_key.0 "k") "k"
flush-row_example =
    flush-row (usage_store (weather works)) usage_of (usage_store-IsAtomic (weather works) not_lost)
      with_key.0 waiting "k" waiting-Distinct

-- A chunk is copied and its answer lost; it waits again, and is refused as its event is there.
abbrev emitted : List (Events.Action Ending)
emitted =
    Events.emits (seen "1")
    ∷ Events.takes
    ∷ Events.emits (seen "2")
    ∷ Events.settles loses_reply
    ∷ Events.takes
    ∷ Events.settles works
    ∷ []

abbrev stores : Ending → Writeback.Store Store
stores ending = usage_store (weather ending)

run-Truncates_example :
    Events.Truncates default_max_events
      (Events.run stores (Events.start stores with_key.0) emitted)
      (Events.log_run stores default_max_events (Events.empty_log stores with_key.0) emitted)
run-Truncates_example = Events.run-Truncates stores with_key.0 emitted
