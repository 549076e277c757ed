-- ===== src/Examples/Benching.antt =====
-- A spent balance benches its key.
use keypooler.Base.{◌≡◌, refl, String, false, none, some, List, [], ◌∷◌}
use keypooler.Base.Int.{pos}
use keypooler.Base.Dict.{lookup}
use keypooler.Float64.{num, flt, fle}
use keypooler.Crypto.{cut_prefix, open_sealed}
use keypooler.Db.{failed}
use keypooler.Keypool.Types.{Balance, balance_spent, has_feature}
use keypooler.Keypool.Manager.{
  Manager, bad, exhausted, find, get_key_for_feature, draw, candidates, offers, tier_allowed,
}
use keypooler.Keypool.Types.{available}
use keypooler.Keypool.Upkeep.{holding, set_balance, SpendStore, mark_exhausted}
use keypooler.Balance.{check, check_keys, sync}
use keypooler.Balance.Bench.{IsChecked, check-IsChecked}
use keypooler.Examples.Data.{at, limited_key, pool}

-- A store whose writes fail, without a state.
abbrev dead_store : SpendStore (List String)
dead_store = record {
  set_key_exhausted = λ s id until. (s, false);
  record_spend = λ s event period. (s, failed);
}

abbrev spent_balance : Balance
spent_balance = record {
  used = num (pos 1000);
  limit = num (pos 1000);
  unit = "credits";
  resets_at = none;
  checked_at = 0;
}

check-IsChecked_example :
    IsChecked "b" 1
      (limited_key "b")
      spent_balance
      (at 60)
      (at 100)
      (check dead_store
        (at 60)
        []
        pool
        (λ key. some spent_balance)
        (record { id = "b"; key_value = b's' ∷ [] })
        (at 100)).1
unfolding find
check-IsChecked_example =
    check-IsChecked dead_store (at 60) [] pool (λ key. some spent_balance)
      (record { id = "b"; key_value = b's' ∷ [] }) (at 100) 1 (limited_key "b") spent_balance refl
      refl

-- Once the sync has found both keys spent, no key is served for a minute.
abbrev synced : Manager
synced =
    (sync dead_store (at 60) (record { aead = none }) [] pool (λ n. at 100) (λ n. false) 0
      (("tts", λ key. some spent_balance) ∷ [])).1

benched : (get_key_for_feature synced "tts" none (λ n. at 159)).1 ≡ bad exhausted
unfolding sync holding has_feature lookup open_sealed cut_prefix check_keys check set_balance
    mark_exhausted find balance_spent flt fle get_key_for_feature draw candidates offers
    tier_allowed available
benched = refl
