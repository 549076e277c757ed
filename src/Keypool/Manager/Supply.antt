-- ===== src/Keypool/Manager/Supply.antt =====
-- Where a key has room, a draw is not refused.
use keypooler.Base.{
  not_both, ℕ, suc, ◌+◌, ◌≡◌, refl, sym, ap, subst, String, Bool, true, false, Option, none, some,
  arith, get_elem?, if◌then◌else◌,
}
use keypooler.Base.Int.{ℤ, pos, negsuc, leb_ℤ}
use keypooler.Base.Dict.{Dict, lookup}
use keypooler.Time.{since}
use keypooler.Keypool.Types.{
  FeatureLimit, RateCounter, PoolKey, Consumed, window, reached, counter, roll, put_counter,
  count_call, try_rate, consume, try_consume_usage,
}
use keypooler.Keypool.Manager.{
  Manager, Served, Answer, good, bad, exhausted, out_of_scope, not_found, unknown_key,
  unit_mismatch, store_failed, rate_then, attempt, get_key_for_feature,
}
use keypooler.Keypool.Manager.Outcome.{IsCandidate, Justified, get_key_for_feature-Justified}

-- The feature's counter is below its limit, and the key has no usage limit.
pub record HasRoom (k : PoolKey) (feature : String) : Type 0 where
  pub limit : FeatureLimit
  pub listed : lookup feature k.features ≡ some limit
  pub below : reached (counter k feature).count limit.rate_limit ≡ false
  pub unlimited : k.usage_limit ≡ none

reached_zero : (n : ℕ) (limit : ℤ) → reached n limit ≡ false → reached 0 limit ≡ false
reached_zero n (pos l) h = ground (arith, h)
reached_zero n (negsuc l) h = ground (arith, h)

-- A new window makes room, if anything.
roll_below :
    (fl : FeatureLimit) (t : ℕ) (rc : RateCounter)
    → reached rc.count fl.rate_limit ≡ false
    → reached (roll fl t rc).count fl.rate_limit ≡ false
unfolding roll
roll_below fl t rc h = rolled (leb_ℤ (window fl) (since t rc.window_start))
  where
    rolled :
        (b : Bool)
        → reached (if b then record { count = 0; window_start = t } else rc).count fl.rate_limit
          ≡ false
    rolled true = reached_zero rc.count fl.rate_limit h
    rolled false = h

abbrev Passes : PoolKey × Bool → Type 0
Passes (k, passed) = (passed ≡ true) × (k.usage_limit ≡ none)

counted-Passes :
    (k : PoolKey) (feature : String) (fl : FeatureLimit) (rc : RateCounter)
    → reached rc.count fl.rate_limit ≡ false
    → k.usage_limit ≡ none
    → Passes (count_call k feature fl rc)
counted-Passes k feature fl rc h u =
    subst Passes
      (sym (
        ap
          (λ b.
            if b
            then (put_counter k feature rc, false)
            else (put_counter k feature (record rc { count = suc rc.count }), true))
          h))
      (refl, u)

try_rate-Passes :
    (k : PoolKey) (feature : String) (t : ℕ) → HasRoom k feature → Passes (try_rate k feature t)
unfolding try_rate
try_rate-Passes k feature t room =
    subst Passes
      (sym (
        ap
          (λ (o : Option FeatureLimit).
            let r : PoolKey × Bool = elim o [
              | none ↦ (k, false)
              | some fl ↦ count_call k feature fl (roll fl t (counter k feature))
            ] in
            r)
          room.listed))
      (counted-Passes k feature room.limit (roll room.limit t (counter k feature))
        (roll_below room.limit t (counter k feature) room.below) room.unlimited)

unlimited_outcome :
    (rated : PoolKey) (u : ℕ) (o : Option ℤ)
    → o ≡ none
    → (r : Consumed) × ((rate_then true rated (consume rated u o)).1 ≡ some r)
unlimited_outcome rated u none e = (_, refl)
unlimited_outcome rated u (some limit) e = cc

attempted :
    (out : PoolKey × Bool) (u : ℕ)
    → Passes out
    → (r : Consumed) × ((rate_then out.1 out.0 (try_consume_usage out.0 u)).1 ≡ some r)
unfolding try_consume_usage
attempted (k, true) u p = unlimited_outcome k u k.usage_limit p.1
attempted (k, false) u p = cc

attempt-HasRoom :
    (k : PoolKey) (feature : String) (t u : ℕ)
    → HasRoom k feature
    → (r : Consumed) × ((attempt k feature t u).1 ≡ some r)
unfolding attempt
attempt-HasRoom k feature t u room =
    attempted (try_rate k feature t) u (try_rate-Passes k feature t room)

not_empty : (r : Consumed) (o : Option Consumed) → o ≡ some r → o ≡ none → ⊥
not_empty r o e g = cc

module _ (m : Manager) (feature : String) (allowed : Option (Dict Bool)) (clock : ℕ → ℕ) where
  served_by :
      (p : ℕ) (k : PoolKey) (r : Manager × Answer Served)
      → get_elem? m.keys p ≡ some k
      → IsCandidate allowed feature clock p k
      → HasRoom k feature
      → Justified m feature allowed clock r
      → (s : Served) × (r.1 ≡ good s)
  served_by p k (m', good s) held c room h = (s, refl)
  served_by p k (m', bad exhausted) held c room (offered, refused) =
      let (n, e) = refused p k held c in
      let (r, g) = attempt-HasRoom k feature (clock n) (clock (n + 1)) room in
      absurd (not_empty r _ g e)
  served_by p k (m', bad out_of_scope) held c room h = absurd (not_both _ c.offered (h p k held))
  served_by p k (m', bad not_found) held c room h = absurd h
  served_by p k (m', bad unknown_key) held c room h = absurd h
  served_by p k (m', bad unit_mismatch) held c room h = absurd h
  served_by p k (m', bad store_failed) held c room h = absurd h

  -- If some key of the pool is offered to the caller for the feature, is available when it is looked at, has calls left
  -- in the feature's window and no usage limit, then `GetKeyForFeature` serves a key, be it that one or another.
  pub get_key_for_feature_succeeds :
      (p : ℕ) (k : PoolKey)
      → get_elem? m.keys p ≡ some k
      → IsCandidate allowed feature clock p k
      → HasRoom k feature
      → (s : Served) × ((get_key_for_feature m feature allowed clock).1 ≡ good s)
  get_key_for_feature_succeeds p k held c room =
      served_by p k _ held c room (get_key_for_feature-Justified m feature allowed clock)
