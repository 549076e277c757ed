-- ===== src/Examples/Data.antt =====
-- Concrete keys, pools and stores.
use keypooler.Base.{ℕ, ◌*◌, String, true, none, some, [], ◌∷◌}
use keypooler.Base.Int.{pos}
use keypooler.Time.{second}
use keypooler.Time.Calendar.{day}
use keypooler.Float64.{num, zero_f}
use keypooler.Json.{end_of}
use keypooler.Db.{Budget, UsageEvent}
use keypooler.Writeback.{new}
use keypooler.Keypool.Types.{FeatureLimit, PoolKey}
use keypooler.Keypool.Manager.{Manager}

abbrev pub at : ℕ → ℕ
at n = n * second

abbrev pub two_a_minute : FeatureLimit
two_a_minute = record { rate_limit = pos 2; window_seconds = pos 60 }

-- A key of the tier "free", with the feature "tts", three calls a minute by its usage limit.
abbrev pub limited_key : String → PoolKey
limited_key id = record {
  id = id;
  name = id;
  key_value = b's' ∷ [];
  tier_id = "free";
  is_active = true;
  expires_at = none;
  usage_limit = some (pos 3);
  usage_count = 0;
  usage_window_seconds = some (pos 60);
  usage_window_start = none;
  exhausted_until = none;
  budget = none;
  spent = zero_f;
  spent_period_start = none;
  balance = none;
  metadata = end_of;
  secrets = [];
  features = ("tts", two_a_minute) ∷ [];
  rate_counters = [];
}

-- The same with its usage window running since second 100.
abbrev pub running_key : String → PoolKey
running_key id = record (limited_key id) { usage_window_start = some (at 100) }

abbrev pub pool : Manager
pool = record { keys = limited_key "a" ∷ limited_key "b" ∷ []; next = 0; usage = new }

-- 5, resetting on day 15.
abbrev pub monthly : Budget
monthly = record { amount = num (pos 5); unit = "usd"; reset_day = some (pos 15) }

abbrev pub budgeted_key : PoolKey
budgeted_key = record (limited_key "c") { budget = some monthly }

-- 10 March of year 1.
abbrev pub march : ℕ
march = 68 * day

abbrev pub seen : String → UsageEvent
seen id = record { id = id; key_id = "a"; consumer_id = "x"; feature = "tts"; created_at = 0 }
