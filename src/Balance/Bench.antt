-- ===== src/Balance/Bench.antt =====
-- What a check does to the key.
use keypooler.Base.{
  ◌+◌, or_else, ℕ, zero, suc, ◌<◌, ◌≡◌, refl, sym, ap, subst, ◌∙◌, inl, inr, String, Bool, true,
  false, not, ◌&&◌, Option, none, some, List, [], ◌∷◌, str_eq, if◌then◌else◌, Bool-cases, lt→ltb,
  set,
}
use keypooler.Keypool.Types.{
  Balance, PoolKey, balance_spent, available, unexpired, rested, within_budget,
}
use keypooler.Keypool.Manager.{Manager, find, one_on}
use keypooler.Keypool.Manager.Find.{Finds, find-Finds}
use keypooler.Keypool.Upkeep.{Held, set_balance, SpendStore, mark_found, mark_exhausted}
use keypooler.Balance.{Source, checked_at, bench_until, bench_spent, check_answer, check}

own-set :
    (id : String) (x : PoolKey) (ks : List PoolKey) (p : ℕ) (k k' : PoolKey)
    → ◌≡◌ {A = Option (ℕ × PoolKey)} (some (0, x)) (some (p, k))
    → str_eq k'.id id ≡ true
    → find id (set (x ∷ ks) p k') ≡ some (p, k')
unfolding find
own-set id x ks zero k k' f e = ap (λ b. if b then some (0, k') else one_on (find id ks)) e
own-set id x ks (suc p) k k' f e = cc

other-set :
    (id : String) (x : PoolKey) (ks : List PoolKey) (r : Option (ℕ × PoolKey)) (p : ℕ)
    (k k' : PoolKey)
    → str_eq x.id id ≡ false
    → ((q : ℕ) → r ≡ some (q, k) → find id (set ks q k') ≡ some (q, k'))
    → one_on r ≡ some (p, k)
    → find id (set (x ∷ ks) p k') ≡ some (p, k')
unfolding find
other-set id x ks none p k k' e h f = cc
other-set id x ks (some (q, i)) zero k k' e h f = cc
other-set id x ks (some (q, i)) (suc p) k k' e h f =
    ap (λ b. if b then some (0, x) else one_on (find id (set ks p k'))) e ∙ ap one_on (h p cc)

-- A key that replaces the one that was found, and has its id, is found in its place.
pub find-set :
    (id : String) (ks : List PoolKey) (p : ℕ) (k k' : PoolKey)
    → find id ks ≡ some (p, k)
    → str_eq k'.id id ≡ true
    → find id (set ks p k') ≡ some (p, k')
unfolding find
find-set id [] p k k' f e = cc
find-set id (x ∷ ks) p k k' f e = elim (Bool-cases (str_eq x.id id)) [
  | inl own ↦
      own-set id x ks p k k'
        (sym (ap (λ b. if b then some (0, x) else one_on (find id ks)) own) ∙ f) e
  | inr other ↦
      other-set id x ks (find id ks) p k k' other (λ q g. find-set id ks q k k' g e)
        (sym (ap (λ b. if b then some (0, x) else one_on (find id ks)) other) ∙ f)
]

all_but : (a u r w : Bool) → r ≡ false → (a && u && r && w) ≡ false
all_but a u true w e = cc
all_but true true false w e = refl
all_but true false false w e = refl
all_but false u false w e = refl

-- A key that is benched is not available until the time that is set, by any reading of the clock before it.
pub benched-available :
    (k : PoolKey) (until t : ℕ) → t < until → k.exhausted_until ≡ some until → available k t ≡ false
unfolding available
benched-available k until t h e =
    all_but k.is_active (unexpired k.expires_at t) (rested k.exhausted_until t) (within_budget k t)
      (ap (λ o. rested o t) e ∙ ap not (lt→ltb t until h))

set_balance-keys :
    (m : Manager) (id : String) (b : Balance) (p : ℕ) (k : PoolKey)
    → find id m.keys ≡ some (p, k)
    → (set_balance m id b).keys ≡ set m.keys p (record k { balance = some b })
unfolding set_balance
set_balance-keys m id b p k f =
    ap
      (λ (o : Option (ℕ × PoolKey)).
        let m' : Manager = elim o [
          | none ↦ m
          | some (q, j) ↦ record m { keys = set m.keys q (record j { balance = some b }) }
        ] in
        m'.keys)
      f

-- The key is marked until this time, and at no reading of the clock before it is it available.
abbrev pub IsBenched : PoolKey → ℕ → Type 0
IsBenched key until =
    (key.exhausted_until ≡ some until) × ((t : ℕ) → t < until → available key t ≡ false)

marked_until :
    (k : PoolKey) (until u : ℕ) → k.exhausted_until ≡ some until → until ≡ u → IsBenched k u
marked_until k until u e same =
    let marked = e ∙ ap some same in (marked, λ t early. benched-available k u t early marked)

-- The key after a check that read the balance `b`: it stands where it stood, with the balance; if that is spent
-- it is not available until the reset, or for a period where no reset is known, and if not it is benched as before.
pub record IsChecked (id : String) (p : ℕ) (k : PoolKey) (b : Balance) (period now : ℕ)
    (m' : Manager) : Type 0 where
  pub key : PoolKey
  pub held : find id m'.keys ≡ some (p, key)
  pub read : key.balance ≡ some (checked_at b now)
  pub until_reset :
      balance_spent b ≡ true → (until : ℕ) → b.resets_at ≡ some until → IsBenched key until
  pub for_period : balance_spent b ≡ true → b.resets_at ≡ none → IsBenched key (now + period)
  pub unspent : balance_spent b ≡ false → key.exhausted_until ≡ k.exhausted_until

module _ {S : Type 0} (store : SpendStore S) (period : ℕ) where
  mark_exhausted-keys :
      (s : S) (m : Manager) (id : String) (until p : ℕ) (k : PoolKey)
      → find id m.keys ≡ some (p, k)
      → (mark_exhausted store s m id until).1.keys
        ≡ set m.keys p (record k { exhausted_until = some until })
  unfolding mark_exhausted
  mark_exhausted-keys s m id until p k f = ap (λ o. (mark_found store s m id until o).1.keys) f

  bench_spent-IsChecked :
      (s : S) (m : Manager) (id : String) (p : ℕ) (k : PoolKey) (b : Balance) (now : ℕ)
      (spent : Bool)
      → balance_spent b ≡ spent
      → str_eq k.id id ≡ true
      → find id m.keys ≡ some (p, record k { balance = some (checked_at b now) })
      → IsChecked id p k b period now
          (bench_spent store period spent s m id (bench_until b period now)).1
  bench_spent-IsChecked s m id p k b now true e same f =
      let k' : PoolKey = record k {
        balance = some (checked_at b now);
        exhausted_until = some (bench_until b period now);
      } in
      record {
        key = k';
        held =
            ap (find id) (mark_exhausted-keys s m id (bench_until b period now) p _ f)
            ∙ find-set id m.keys p _ k' f same;
        read = refl;
        until_reset = λ h until r.
            marked_until k' (bench_until b period now) until refl
              (ap (λ o. or_else o (now + period)) r);
        for_period = λ h r.
            marked_until k' (bench_until b period now) (now + period) refl
              (ap (λ o. or_else o (now + period)) r);
        unspent = λ h. absurd (not_both (sym e ∙ h));
      }
    where
      not_both : true ≡ false → ⊥
      not_both q = cc
  bench_spent-IsChecked s m id p k b now false e same f = record {
    key = record k { balance = some (checked_at b now) };
    held = f;
    read = refl;
    until_reset = λ h. absurd (not_equal (sym e ∙ h));
    for_period = λ h. absurd (not_equal (sym e ∙ h));
    unspent = λ h. refl;
  }
    where
      not_equal : false ≡ true → ⊥
      not_equal q = cc

  balance_spent-checked_at :
      (b : Balance) (now : ℕ) → balance_spent (checked_at b now) ≡ balance_spent b
  unfolding balance_spent
  balance_spent-checked_at b now = refl

  -- A check of a key of the pool, whose balance the provider gives: afterwards the key holds the balance, and
  -- if it is spent the key is marked until its reset, or until a period has passed where no reset is known,
  -- and is not available at any reading of the clock before that; if not, the time it is benched until stays.
  pub check-IsChecked :
      (s : S) (m : Manager) (source : Source) (key : Held) (now p : ℕ) (k : PoolKey) (b : Balance)
      → find key.id m.keys ≡ some (p, k)
      → source key.key_value ≡ some b
      → IsChecked key.id p k b period now (check store period s m source key now).1
  unfolding check
  check-IsChecked s m source key now p k b f e =
      subst
        (λ (o : Option Balance).
          IsChecked key.id p k b period now (check_answer store period s m key.id now o).1)
        (sym e)
        (bench_spent-IsChecked s (set_balance m key.id (checked_at b now)) key.id p k b now
          (balance_spent (checked_at b now)) (sym (balance_spent-checked_at b now)) same
          (ap (find key.id) (set_balance-keys m key.id (checked_at b now) p k f)
            ∙ find-set key.id m.keys p k (record k { balance = some (checked_at b now) }) f same))
    where
      same : str_eq k.id key.id ≡ true
      same = (subst (Finds key.id m.keys) f (find-Finds key.id m.keys)).1
