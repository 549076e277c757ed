-- ===== src/Examples/Reloading.antt =====
-- A reload of the pool of two keys, with one row that stays and one that enters.
use keypooler.Base.{true, String, none, [], ◌∷◌}
use keypooler.Base.Int.{pos}
use keypooler.Float64.{zero_f}
use keypooler.Json.{end_of}
use keypooler.Db.{Key, TierFeature}
use keypooler.Keypool.Reload.{TierFeatures}

abbrev row : String → String → Key
row id tier = record {
  id = id;
  name = id;
  key_value = [];
  tier_id = tier;
  is_active = true;
  expires_at = none;
  usage_limit = none;
  usage_count = 5;
  usage_window_seconds = none;
  usage_window_start = none;
  exhausted_until = none;
  budget = none;
  spent = zero_f;
  spent_period_start = none;
  metadata = end_of;
  created_at = 0;
}

abbrev tts : TierFeature
tts = record { tier_id = "free"; feature = "tts"; rate_limit = pos 2; window_seconds = pos 60 }

abbrev by_tier : TierFeatures
by_tier = ("free", tts ∷ []) ∷ []
