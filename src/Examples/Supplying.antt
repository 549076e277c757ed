-- ===== src/Examples/Supplying.antt =====
-- A pool with a key that has room.
use keypooler.Base.{ℕ, ◌+◌, ◌≡◌, refl, none, [], ◌∷◌}
use keypooler.Base.Dict.{lookup}
use keypooler.Writeback.{new}
use keypooler.Keypool.Types.{PoolKey, counter, available, has_feature, within_budget}
use keypooler.Keypool.Manager.{Manager, Served, good, offers, tier_allowed, get_key_for_feature}
use keypooler.Keypool.Manager.Outcome.{IsCandidate}
use keypooler.Keypool.Manager.Supply.{HasRoom, get_key_for_feature_succeeds}
use keypooler.Examples.Data.{at, two_a_minute, limited_key}

abbrev open_key : PoolKey
open_key = record (limited_key "b") { usage_limit = none }

abbrev pair : Manager
pair = record { keys = limited_key "a" ∷ open_key ∷ []; next = 0; usage = new }

abbrev clock : ℕ → ℕ
clock n = at (100 + n)

open_key-IsCandidate : IsCandidate none "tts" clock 1 open_key
unfolding offers tier_allowed has_feature lookup available within_budget
open_key-IsCandidate = record { offered = refl; ready = refl }

open_key-HasRoom : HasRoom open_key "tts"
unfolding lookup counter
open_key-HasRoom = record { limit = two_a_minute; listed = refl; below = refl; unlimited = refl }

get_key_for_feature_succeeds_example :
    (s : Served) × ((get_key_for_feature pair "tts" none clock).1 ≡ good s)
get_key_for_feature_succeeds_example =
    get_key_for_feature_succeeds pair "tts" none clock 1 open_key refl open_key-IsCandidate
      open_key-HasRoom
