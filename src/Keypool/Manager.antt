-- ===== src/Keypool/Manager.antt =====
-- internal/keypool/manager.go and the methods of Manager in internal/keypool/balance.go. A pointer to
-- a PoolKey is its position in `keys`, which stays while the manager's lock is held. `clock n`
-- is the n-th reading of `time.Now()` in the call; a branch that takes no reading skips its number.
pub mod Serving
pub mod Draw
pub mod Find
pub mod Fuel
pub mod Supply
pub mod Invariant
pub mod Outcome
pub mod Persistence
use keypooler.Base.{
  ℕ, zero, suc, ◌+◌, ◌%◌, String, Bool, true, false, not, ◌&&◌, ◌||◌, Option, none, some, List, [],
  ◌∷◌, str_eq, if◌then◌else◌, is_some, or_else, length, get_elem?, set, erase_idx, ◌<◌, ◌≡◌,
}
use keypooler.Base.Int.{ℤ, pos, two_64}
use keypooler.Base.Dict.{Dict, lookup, insert}
use keypooler.Float64.{Float64, zero_f}
use keypooler.Json.{Members}
use keypooler.Crypto.{Bytes, Sealer, Result, ok, err, open_sealed}
use keypooler.Db.{Budget, Key, TierFeature, KeySecret, SpendEvent}
use keypooler.Writeback.{Writer, served, window_reset}
use keypooler.Keypool.Budget.{period_start, next_reset}
use keypooler.Keypool.Types.{
  FeatureLimit, Balance, PoolKey, Consumed, load, try_rate, try_consume_usage, available,
  has_feature, hold_spent,
}

pub record Manager : Type 0 where
  pub keys : List PoolKey
  pub next : ℕ
  pub usage : Writer

pub record Served : Type 0 where
  pub id : String
  pub key_value : Bytes
  pub metadata : Members
  pub secrets : Dict Bytes

pub data PoolError : Type 0 where
  not_found out_of_scope exhausted unknown_key unit_mismatch store_failed : PoolError

pub data Answer {ℓ} (A : Type ℓ) : Type ℓ where
  good : A → Answer A
  bad : PoolError → Answer A

-- `allowedTierIDs == nil` allows every tier, and a missing entry reads as false.
unfoldable pub tier_allowed : Option (Dict Bool) → String → Bool
tier_allowed none tier = true
tier_allowed (some tiers) tier = or_else (lookup tier tiers) false

unfoldable pub offers : Option (Dict Bool) → String → PoolKey → Bool
unfolding tier_allowed has_feature
offers allowed feature k = tier_allowed allowed k.tier_id && has_feature k feature

-- One round of that loop: a key that is not offered is passed over.
abbrev note_key : Bool → Bool → ℕ → Bool × List ℕ → Bool × List ℕ
note_key false ready i seen = seen
note_key true ready i seen = (true, if ready then i ∷ seen.1 else seen.1)

-- The first loop of `GetKeyForFeature`, from position `i` on: `offered`, and the positions of the
-- available keys. Key i is looked at by reading i.
unfoldable pub candidates : Option (Dict Bool) → String → (ℕ → ℕ) → ℕ → List PoolKey → Bool × List ℕ
candidates allowed feature clock i [] = (false, [])
candidates allowed feature clock i (k ∷ ks) =
    note_key (offers allowed feature k) (available k (clock i)) i
      (candidates allowed feature clock (suc i) ks)

abbrev pub outcome_of : Bool → Consumed → Option Consumed
outcome_of false r = none
outcome_of true r = some r

-- `TryConsumeUsage` is called only if `TryRate` has passed.
abbrev pub rate_then : Bool → PoolKey → PoolKey × Consumed → PoolKey × Option Consumed
rate_then false rated used = (rated, none)
rate_then true rated (k, r) = (k, outcome_of r.ok r)

-- `TryRate` and, if it passes, `TryConsumeUsage`.
unfoldable pub attempt : PoolKey → String → ℕ → ℕ → PoolKey × Option Consumed
attempt k feature t u =
    let (rated, passed) = try_rate k feature t in
    let used = try_consume_usage rated u in rate_then passed rated used

unfoldable pub persist_usage : Writer → String → Consumed → Writer
persist_usage w id r = if r.did_reset then window_reset w id r.window_start else served w id

unfoldable pub serve : PoolKey → Served
serve k = record { id = k.id; key_value = k.key_value; metadata = k.metadata; secrets = k.secrets }

abbrev persist_limited : Writer → PoolKey → Consumed → Writer
persist_limited w k r = if is_some k.usage_limit then persist_usage w k.id r else w

-- The manager after an attempt on the key at position p.
abbrev after_attempt : Manager → ℕ → PoolKey × Option Consumed → Manager
after_attempt m p (k, none) = record m { keys = set m.keys p k }
after_attempt m p (k, some r) = record m {
  keys = set m.keys p k;
  usage = persist_limited m.usage k r;
}

-- `next.Add(1)`
abbrev advance : Manager → Manager
advance m = record m { next = (m.next + 1) % two_64 }

-- The second loop, with fuel. The attempt numbered n reads the clock twice.
unfoldable pub draw : ℕ → Manager → String → (ℕ → ℕ) → ℕ → List ℕ → Manager × Option Served
draw zero m feature clock n left = (m, none)
draw (suc fuel) m feature clock n left = elim (get_elem? left (m.next % length left)) [
  | none ↦ (m, none)
  | some p ↦ elim (get_elem? m.keys p) [
    | none ↦ (advance m, none)
    | some k ↦
        let tried = attempt k feature (clock n) (clock (n + 1)) in
        elim (tried.1) [
          | some r ↦ (after_attempt (advance m) p tried, some (serve tried.0))
          | none ↦
              draw fuel (after_attempt (advance m) p tried) feature clock (n + 2)
                (erase_idx left (m.next % length left))
        ]
  ]
]

abbrev answer_of : Bool → Manager × Option Served → Manager × Answer Served
answer_of offered (m, some s) = (m, good s)
answer_of offered (m, none) = (m, bad (if offered then exhausted else out_of_scope))

unfoldable pub get_key_for_feature :
    Manager → String → Option (Dict Bool) → (ℕ → ℕ) → Manager × Answer Served
get_key_for_feature m feature allowed clock =
    let (offered, left) = candidates allowed feature clock 0 m.keys in
    answer_of offered (draw (length left) m feature clock (length m.keys) left)

abbrev pub one_on : Option (ℕ × PoolKey) → Option (ℕ × PoolKey)
one_on none = none
one_on (some (p, k)) = some (suc p, k)

-- `find`: the first key with the id, and its position.
unfoldable pub find : String → List PoolKey → Option (ℕ × PoolKey)
find id [] = none
find id (k ∷ ks) = let rest = find id ks in if str_eq k.id id then some (0, k) else one_on rest

abbrev answer_attempt : PoolKey × Option Consumed → Answer Served
answer_attempt (k, none) = bad exhausted
answer_attempt (k, some r) = good (serve k)

-- `KeyByID` past the search: whether the key is offered, whether it is available, and the attempt.
abbrev pub draw_found :
    Bool → Bool → Manager → ℕ → PoolKey × Option Consumed → Manager × Answer Served
draw_found false ready m p tried = (m, bad out_of_scope)
draw_found true false m p tried = (m, bad exhausted)
draw_found true true m p tried = (after_attempt m p tried, answer_attempt tried)

unfoldable pub key_by_id :
    Manager → String → String → Option (Dict Bool) → (ℕ → ℕ) → Manager × Answer Served
key_by_id m id feature allowed clock = elim (find id m.keys) [
  | none ↦ (m, bad not_found)
  | some (p, k) ↦
      draw_found (offers allowed feature k) (available k (clock 0)) m p
        (attempt k feature (clock 1) (clock 2))
]
