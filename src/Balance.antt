-- ===== src/Balance.antt =====
-- internal/balance/sync.go. What a provider answers for a key is a parameter, none where it fails.
pub mod Bench
pub mod Providers
use keypooler.Base.{
  ℕ, suc, ◌+◌, String, Bool, true, false, Option, none, some, List, [], ◌∷◌, if◌then◌else◌, or_else,
}
use keypooler.Crypto.{Bytes, Sealer}
use keypooler.Keypool.Types.{Balance, balance_spent}
use keypooler.Keypool.Manager.{Manager}
use keypooler.Keypool.Upkeep.{Held, holding, set_balance, SpendStore, mark_exhausted}

-- `Source.Check`, on the key in the open.
abbrev pub Source : Type 0
Source = Bytes → Option Balance

abbrev pub checked_at : Balance → ℕ → Balance
checked_at b now = record b { checked_at = now }

-- `period` is the syncer's, in nanoseconds.
abbrev pub bench_until : Balance → ℕ → ℕ → ℕ
bench_until b period now = or_else b.resets_at (now + period)

module _ {S : Type 0} (store : SpendStore S) (period : ℕ) where
  abbrev bench_spent : Bool → S → Manager → String → ℕ → S × Manager
  bench_spent false s m id until = (s, m)
  bench_spent true s m id until =
      let (s', m', marked) = mark_exhausted store s m id until in (s', m')

  abbrev check_answer : S → Manager → String → ℕ → Option Balance → S × Manager
  check_answer s m id now none = (s, m)
  check_answer s m id now (some b) =
      bench_spent (balance_spent (checked_at b now)) s (set_balance m id (checked_at b now)) id
        (bench_until b period now)

  unfoldable pub check : S → Manager → Source → Held → ℕ → S × Manager
  check s m source key now = check_answer s m key.id now (source key.key_value)

  -- The inner loop of `sync`: check n reads the clock by `clock n`, and `ends n` tells whether the context has
  -- ended before it. The number of the next check, and whether the loop has returned.
  unfoldable pub check_keys :
      S → Manager → Source → (ℕ → ℕ) → (ℕ → Bool) → ℕ → List Held → S × Manager × ℕ × Bool
  check_keys s m source clock ends n [] = (s, m, n, false)
  check_keys s m source clock ends n (key ∷ keys) =
      let (s', m') = check s m source key (clock n) in
      let rest = check_keys s' m' source clock ends (suc n) keys in
      if ends n then (s, m, n, true) else rest

  -- `sync`, over the sources in the order of the list.
  unfoldable pub sync :
      Sealer → S → Manager → (ℕ → ℕ) → (ℕ → Bool) → ℕ → List (String × Source) → S × Manager
  sync sealer s m clock ends n [] = (s, m)
  sync sealer s m clock ends n ((feature, source) ∷ sources) =
      let (s', m', n', ended) =
        check_keys s m source clock ends n (holding sealer feature m.keys) in
      let rest = sync sealer s' m' clock ends n' sources in if ended then (s', m') else rest
