-- ===== src/Writeback.antt =====
-- internal/writeback/writer.go: usage counts and audit events that wait for the database.
-- Each operation holds the writer's mutex while it runs, so each is one atomic step.
pub mod Refinement
pub mod Repeats
pub mod Within
pub mod Last
pub mod Flush
pub mod Events
use keypooler.Base.{
  ℕ, suc, ◌+◌, ◌-◌, String, Bool, true, false, Option, none, some, List, [], ◌∷◌, ◌++◌,
  if◌then◌else◌, or_else, is_some, length, drop,
}
use keypooler.Base.Dict.{Dict, lookup, insert}
use keypooler.Db.{UsageEvent}

pub record Usage : Type 0 where
  pub n : ℕ
  pub reset : Option ℕ

pub record Writer : Type 0 where
  pub usage : Dict Usage
  pub events : List UsageEvent
  pub max_events : ℕ

abbrev pub default_max_events : ℕ
default_max_events = 10_000

unfoldable pub new : Writer
new = record { usage = []; events = []; max_events = default_max_events }

abbrev no_usage : Usage
no_usage = record { n = 0; reset = none }

unfoldable pub served : Writer → String → Writer
served w id =
    let u = or_else (lookup id w.usage) no_usage in
    record w { usage = insert id (record u { n = suc u.n }) w.usage }

unfoldable pub window_reset : Writer → String → ℕ → Writer
window_reset w id start = record w {
  usage = insert id (record { n = 1; reset = some start }) w.usage;
}

-- The last `max_events` of them: `max(len - maxEvents, 0)` is `-` on the naturals.
unfoldable pub keep_events : Writer → List UsageEvent → Writer
keep_events w events = record w { events = drop (length events - w.max_events) events }

unfoldable pub event : Writer → UsageEvent → Writer
unfolding keep_events
event w e = keep_events w (w.events ++ e ∷ [])

-- The first lines of `Flush`: what is taken stays in the caller's hands.
unfoldable pub take_all : Writer → Writer
take_all w = record w { usage = []; events = [] }

abbrev merge_failed : Usage → Usage → Usage
merge_failed now failed =
    if is_some now.reset then now else record { n = now.n + failed.n; reset = failed.reset }

unfoldable pub requeue_usage : Writer → String → Usage → Writer
requeue_usage w id failed = elim (lookup id w.usage) [
  | none ↦ record w { usage = insert id failed w.usage }
  | some now ↦ record w { usage = insert id (merge_failed now failed) w.usage }
]

-- `writeback.Store`: each call returns the store and whether it worked.
pub record Store (S : Type 0) : Type 0 where
  pub add_usage : S → String → ℕ → S × Bool
  pub reset_usage_window : S → String → ℕ → ℕ → S × Bool
  pub record_usage_events : S → List UsageEvent → S × Bool

module _ {S : Type 0} (store : Store S) where
  unfoldable pub write_usage : S → String → Usage → S × Bool
  write_usage s id u = elim u.reset [
    | some start ↦ store.reset_usage_window s id start u.n
    | none ↦ store.add_usage s id u.n
  ]

  -- The loop over the map that was taken, in the order of the list.
  unfoldable pub flush_usage : S → Writer → Dict Usage → S × Writer
  unfolding write_usage
  flush_usage s w [] = (s, w)
  flush_usage s w ((id, u) ∷ rest) =
      let (s', done) = write_usage s id u in
      flush_usage s' (if done then w else requeue_usage w id u) rest

  unfoldable pub flush_events : S → Writer → List UsageEvent → S × Writer
  flush_events s w [] = (s, w)
  flush_events s w (e ∷ es) =
      let (s', done) = store.record_usage_events s (e ∷ es) in
      (s', if done then w else keep_events w ((e ∷ es) ++ w.events))

  unfoldable pub flush : S → Writer → S × Writer
  unfolding flush_usage flush_events
  flush s w = let (s', w') = flush_usage s (take_all w) w.usage in flush_events s' w' w.events
