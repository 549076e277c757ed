-- ===== src/Keypool/Manager/Find.antt =====
-- `find` gives a key of the pool that has the id, where there is one.
use keypooler.Base.{
  ℕ, zero, suc, ◌≡◌, refl, subst, inl, inr, String, true, false, Option, none, some, List, [], ◌∷◌,
  Bool-cases, get_elem?, str_eq,
}
use keypooler.Keypool.Types.{PoolKey}
use keypooler.Keypool.Manager.Draw.{some_inj}
use keypooler.Keypool.Manager.{find, one_on}

-- The key that was found stands at the position and has the id; where none is found, no key has it.
abbrev pub Finds : String → List PoolKey → Option (ℕ × PoolKey) → Type 0
Finds id ks none = (p : ℕ) (k : PoolKey) → get_elem? ks p ≡ some k → str_eq k.id id ≡ false
Finds id ks (some (p, k)) = (get_elem? ks p ≡ some k) × (str_eq k.id id ≡ true)

none_further :
    (id : String) (k : PoolKey) (ks : List PoolKey)
    → str_eq k.id id ≡ false
    → Finds id ks none
    → Finds id (k ∷ ks) none
none_further id k ks e h zero k' g =
    subst (λ (x : PoolKey). str_eq x.id id ≡ false) (some_inj k k' g) e
none_further id k ks e h (suc p) k' g = h p k' g

find-further :
    (id : String) (k : PoolKey) (ks : List PoolKey) (r : Option (ℕ × PoolKey))
    → str_eq k.id id ≡ false
    → Finds id ks r
    → Finds id (k ∷ ks) (one_on r)
find-further id k ks none e h = none_further id k ks e h
find-further id k ks (some (p, k')) e h = h

pub find-Finds : (id : String) (ks : List PoolKey) → Finds id ks (find id ks)
unfolding find
find-Finds id [] = λ p k g. cc
find-Finds id (k ∷ ks) = elim (Bool-cases (str_eq k.id id)) [
  | inl e ↦ rw e (refl, e)
  | inr e ↦ rw e (find-further id k ks (find id ks) e (find-Finds id ks))
]
