-- ===== src/Keypool/Manager/Serving.antt =====
-- What an attempt hands out of a key: the attempt counts, and leaves the rest of the key.
use keypooler.Base.{arith, ℕ, ◌≡◌, refl, ◌∙◌, String, Bool, true, false, Option, none, some}
use keypooler.Base.Dict.{lookup}
use keypooler.Base.Int.{ℤ}
use keypooler.Keypool.Types.{
  FeatureLimit, PoolKey, Consumed, RateCounter, count_call, counter, roll, try_rate, roll_usage,
  count_usage, consume, try_consume_usage,
}
use keypooler.Keypool.Manager.{serve, rate_then, attempt}

count_call-serve :
    (k : PoolKey) (feature : String) (fl : FeatureLimit) (rc : RateCounter)
    → serve (count_call k feature fl rc).0 ≡ serve k
unfolding serve
count_call-serve k feature fl rc = ground arith

try_rate-serve : (k : PoolKey) (feature : String) (t : ℕ) → serve (try_rate k feature t).0 ≡ serve k
unfolding try_rate
try_rate-serve k feature t =
    elim (lookup feature k.features)
      as (λ o.
        serve
          (elim o as (λ x. PoolKey × Bool) [
            | none ↦ (k, false)
            | some fl ↦ count_call k feature fl (roll fl t (counter k feature))
          ]).0
        ≡ serve k) [
          | none ↦ refl
          | some fl ↦ count_call-serve k feature fl (roll fl t (counter k feature))
        ]

roll_usage-serve : (k : PoolKey) (u : ℕ) → serve (roll_usage k u).0 ≡ serve k
unfolding serve
roll_usage-serve k u = ground arith

count_usage-serve :
    (limit : ℤ) (rolled : PoolKey × Consumed) → serve (count_usage limit rolled).0 ≡ serve rolled.0
unfolding serve
count_usage-serve limit (k, r) = ground arith

consume-serve : (k : PoolKey) (u : ℕ) (limit : Option ℤ) → serve (consume k u limit).0 ≡ serve k
consume-serve k u none = refl
consume-serve k u (some limit) = count_usage-serve limit (roll_usage k u) ∙ roll_usage-serve k u

rate_then-serve :
    (passed : Bool) (rated : PoolKey) (used : PoolKey × Consumed)
    → serve used.0 ≡ serve rated
    → serve (rate_then passed rated used).0 ≡ serve rated
rate_then-serve false rated used e = refl
rate_then-serve true rated (k, r) e = e

-- An attempt hands out the same key.
pub attempt-serve :
    (k : PoolKey) (feature : String) (t u : ℕ) → serve (attempt k feature t u).0 ≡ serve k
unfolding attempt try_consume_usage
attempt-serve k feature t u =
    rate_then-serve (try_rate k feature t).1 (try_rate k feature t).0 _
      (consume-serve (try_rate k feature t).0 u (try_rate k feature t).0.usage_limit)
    ∙ try_rate-serve k feature t
