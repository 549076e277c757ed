-- ===== src/Keypool/Manager/Outcome.antt =====
-- What `GetKeyForFeature` answers, and why.
use keypooler.Base.{
  ℕ, zero, suc, ◌+◌, ◌≤◌, ◌<◌, ◌≡◌, refl, sym, ap, ◌∙◌, subst, inl, inr, String, Bool, true, false,
  Option, none, some, List, [], ◌∷◌, arith, Bool-cases, length, get_elem?, if◌then◌else◌,
}
use keypooler.Base.Dict.{Dict}
use keypooler.Keypool.Types.{PoolKey, Consumed, available}
use keypooler.Keypool.Manager.Serving.{attempt-serve}
use keypooler.Keypool.Manager.{
  Manager, Served, Answer, good, bad, exhausted, out_of_scope, attempt, serve, offers, note_key,
  candidates, answer_of, get_key_for_feature,
}
use keypooler.Keypool.Manager.Draw.{
  In, Rising, Rising-mono, Below, Serves, Explains, draw-Explains, some_inj,
}

abbrev add_if : Bool → Bool → ℕ → List ℕ → List ℕ
add_if offered ready i rest = if offered then (if ready then i ∷ rest else rest) else rest

note_key-list :
    (offered ready : Bool) (i : ℕ) (seen : Bool × List ℕ)
    → (note_key offered ready i seen).1 ≡ add_if offered ready i seen.1
note_key-list true ready i seen = refl
note_key-list false ready i seen = refl

note_key-offered :
    (offered ready : Bool) (i : ℕ) (seen : Bool × List ℕ)
    → (note_key offered ready i seen).0 ≡ (if offered then true else seen.0)
note_key-offered true ready i seen = refl
note_key-offered false ready i seen = refl

module _ (allowed : Option (Dict Bool)) (feature : String) (clock : ℕ → ℕ) where
  abbrev listed_from : ℕ → List PoolKey → List ℕ
  listed_from i ks = (candidates allowed feature clock i ks).1

  candidates-cons :
      (i : ℕ) (k : PoolKey) (ks : List PoolKey)
      → listed_from i (k ∷ ks)
        ≡ add_if (offers allowed feature k) (available k (clock i)) i (listed_from (suc i) ks)
  unfolding candidates
  candidates-cons i k ks =
      note_key-list (offers allowed feature k) (available k (clock i)) i
        (candidates allowed feature clock (suc i) ks)

  add-Rising :
      (offered ready : Bool) (i : ℕ) (rest : List ℕ)
      → Rising (suc i) rest
      → Rising i (add_if offered ready i rest)
  add-Rising true true i rest h = (omega arith, h)
  add-Rising true false i rest h = Rising-mono (suc i) i rest (omega arith) h
  add-Rising false ready i rest h = Rising-mono (suc i) i rest (omega arith) h

  candidates-Rising : (i : ℕ) (ks : List PoolKey) → Rising i (listed_from i ks)
  unfolding candidates
  candidates-Rising i [] = tt
  candidates-Rising i (k ∷ ks) =
      rw (candidates-cons i k ks) (add-Rising _ _ i _ (candidates-Rising (suc i) ks))

  add-Below :
      (offered ready : Bool) (i n : ℕ) (rest : List ℕ)
      → i < n
      → Below n rest
      → Below n (add_if offered ready i rest)
  add-Below true true i n rest h b = (h, b)
  add-Below true false i n rest h b = b
  add-Below false ready i n rest h b = b

  candidates-Below : (i n : ℕ) (ks : List PoolKey) → i + length ks ≤ n → Below n (listed_from i ks)
  unfolding candidates
  candidates-Below i n [] h = tt
  candidates-Below i n (k ∷ ks) h =
      rw (candidates-cons i k ks)
        (add-Below _ _ i n _ (omega arith) (candidates-Below (suc i) n ks (omega arith)))

  -- A key that may be drawn: offered to the caller, and available at its reading.
  pub record IsCandidate (p : ℕ) (k : PoolKey) : Type 0 where
    pub offered : offers allowed feature k ≡ true
    pub ready : available k (clock p) ≡ true

  -- Position `i + j` holds such a key of the list.
  abbrev Found : ℕ → List PoolKey → ℕ → Type 0
  Found i ks p = (j : ℕ) × (k : PoolKey) × (p ≡ i + j) × (get_elem? ks j ≡ some k) × IsCandidate p k

  further : (i p : ℕ) (k : PoolKey) (ks : List PoolKey) → Found (suc i) ks p → Found i (k ∷ ks) p
  further i p k ks (j, k', e, h, c) = (suc j, k', omega arith, h, c)

  In-add :
      (i p : ℕ) (k : PoolKey) (ks : List PoolKey) (rest : List ℕ) (offered ready : Bool)
      → offers allowed feature k ≡ offered
      → available k (clock i) ≡ ready
      → (In p rest → Found (suc i) ks p)
      → In p (add_if offered ready i rest)
      → Found i (k ∷ ks) p
  In-add i p k ks rest true true o r later (inl e) = (
    zero,
    k,
    omega arith,
    refl,
    record { offered = o; ready = ap (λ x. available k (clock x)) e ∙ r },
  )
  In-add i p k ks rest true true o r later (inr h) = further i p k ks (later h)
  In-add i p k ks rest true false o r later h = further i p k ks (later h)
  In-add i p k ks rest false ready o r later h = further i p k ks (later h)

  candidates-Found : (i p : ℕ) (ks : List PoolKey) → In p (listed_from i ks) → Found i ks p
  unfolding candidates
  candidates-Found i p [] h = absurd h
  candidates-Found i p (k ∷ ks) h =
      In-add i p k ks (listed_from (suc i) ks) _ _ refl refl (candidates-Found (suc i) p ks)
        (rw (candidates-cons i k ks) at h)

  In-add_if :
      (offered ready : Bool) (i p : ℕ) (rest : List ℕ)
      → In p rest
      → In p (add_if offered ready i rest)
  In-add_if true true i p rest h = inr h
  In-add_if true false i p rest h = h
  In-add_if false ready i p rest h = h

  candidates-In :
      (i j p : ℕ) (ks : List PoolKey) (k : PoolKey)
      → p ≡ i + j
      → get_elem? ks j ≡ some k
      → IsCandidate p k
      → In p (listed_from i ks)
  candidates-In i j p [] k e h c = cc
  candidates-In i zero p (k' ∷ ks) k e h c = rw (candidates-cons i k' ks) (
      subst
        (λ (x : PoolKey).
          In p
            (add_if (offers allowed feature x) (available x (clock i)) i (listed_from (suc i) ks)))
        (sym (some_inj k' k h)) (rw (c.offered, at_reading) (inl (omega arith))))
    where
      at_reading : available k (clock i) ≡ true
      at_reading = ap (λ x. available k (clock x)) {x = i} {y = p} (omega arith) ∙ c.ready
  candidates-In i (suc j) p (k' ∷ ks) k e h c =
      rw (candidates-cons i k' ks)
        (In-add_if _ _ i p _ (candidates-In (suc i) j p ks k (omega arith) h c))

  -- `offered` says whether any key of the list is offered.
  abbrev offered_from : ℕ → List PoolKey → Bool
  offered_from i ks = (candidates allowed feature clock i ks).0

  offered-cons :
      (i : ℕ) (k : PoolKey) (ks : List PoolKey)
      → offered_from i (k ∷ ks)
        ≡ (if offers allowed feature k then true else offered_from (suc i) ks)
  unfolding candidates
  offered-cons i k ks =
      note_key-offered (offers allowed feature k) (available k (clock i)) i
        (candidates allowed feature clock (suc i) ks)

  offered-some :
      (i : ℕ) (ks : List PoolKey)
      → offered_from i ks ≡ true
      → (j : ℕ) × (k : PoolKey) × (get_elem? ks j ≡ some k) × (offers allowed feature k ≡ true)
  unfolding candidates
  offered-some i [] h = cc
  offered-some i (k ∷ ks) h = elim (Bool-cases (offers allowed feature k)) [
    | inl e ↦ (zero, k, refl, e)
    | inr e ↦
        let (j, k', g, o) = offered-some (suc i) ks (rw (offered-cons i k ks, e) at h) in
        (suc j, k', g, o)
  ]

  offered_head :
      (i : ℕ) (k : PoolKey) (ks : List PoolKey)
      → offers allowed feature k ≡ true
      → ¬ (offered_from i (k ∷ ks) ≡ false)
  offered_head i k ks e h = absurd_bool (rw (offered-cons i k ks, e) at h)
    where
      absurd_bool : true ≡ false → ⊥
      absurd_bool p = cc

  offered-none :
      (i : ℕ) (ks : List PoolKey)
      → offered_from i ks ≡ false
      → (j : ℕ) (k : PoolKey) → get_elem? ks j ≡ some k
      → offers allowed feature k ≡ false
  offered-none i [] h j k g = cc
  offered-none i (k' ∷ ks) h zero k g = elim (Bool-cases (offers allowed feature k)) [
    | inl e ↦ absurd (offered_head i k' ks (ap (offers allowed feature) (some_inj k' k g) ∙ e) h)
    | inr e ↦ e
  ]
  offered-none i (k' ∷ ks) h (suc j) k g = elim (Bool-cases (offers allowed feature k')) [
    | inl e ↦ absurd (offered_head i k' ks e h)
    | inr e ↦ offered-none (suc i) ks (rw (offered-cons i k' ks, e) at h) j k g
  ]

-- A served key: where it stands in the pool, that the caller may have it and that it was available, and
-- the attempt that passed. The manager holds the key that the attempt left.
pub record Granted (m : Manager) (feature : String) (allowed : Option (Dict Bool)) (clock : ℕ → ℕ)
    (m' : Manager) (s : Served) : Type 0 where
  pub position : ℕ
  pub key : PoolKey
  pub held : get_elem? m.keys position ≡ some key
  pub candidate : IsCandidate allowed feature clock position key
  pub reading : ℕ
  pub key' : PoolKey
  pub consumed : Consumed
  pub passed : attempt key feature (clock reading) (clock (reading + 1)) ≡ (key', some consumed)
  pub answer : s ≡ serve key'
  pub stored : get_elem? m'.keys position ≡ some key'

-- The key that is handed out is the one that stands in the pool.
pub Granted-serve :
    {m : Manager} {feature : String} {allowed : Option (Dict Bool)} {clock : ℕ → ℕ} {m' : Manager}
    {s : Served}
    → (g : Granted m feature allowed clock m' s) → s ≡ serve g.key
Granted-serve {feature = feature} {clock = clock} g =
    g.answer
    ∙ (ap (λ r. serve r.0) (sym g.passed)
        ∙ attempt-serve g.key feature (clock g.reading) (clock (g.reading + 1)))

-- What an answer says of the call, each way.
abbrev pub Justified :
    Manager → String → Option (Dict Bool) → (ℕ → ℕ) → Manager × Answer Served → Type 0
Justified m feature allowed clock (m', good s) = Granted m feature allowed clock m' s
Justified m feature allowed clock (m', bad exhausted) =
    ((p : ℕ) × (k : PoolKey) × (get_elem? m.keys p ≡ some k) × (offers allowed feature k ≡ true))
    × ((p : ℕ) (k : PoolKey)
        → get_elem? m.keys p ≡ some k
        → IsCandidate allowed feature clock p k
        → (n : ℕ) × ((attempt k feature (clock n) (clock (n + 1))).1 ≡ none))
Justified m feature allowed clock (m', bad out_of_scope) =
    (p : ℕ) (k : PoolKey) → get_elem? m.keys p ≡ some k → offers allowed feature k ≡ false
Justified m feature allowed clock (m', bad e) = ⊥

module _ (m : Manager) (feature : String) (allowed : Option (Dict Bool)) (clock : ℕ → ℕ) where
  abbrev left : List ℕ
  left = (candidates allowed feature clock 0 m.keys).1

  Granted-Serves :
      (m' : Manager) (s : Served)
      → Serves m left feature clock m' s
      → Granted m feature allowed clock m' s
  Granted-Serves m' s v =
      let (j, k, e, h, c) = candidates-Found allowed feature clock 0 v.position m.keys v.listed in
      record {
        position = v.position;
        key = v.key;
        held = v.held;
        candidate =
            subst (λ (x : PoolKey). IsCandidate allowed feature clock v.position x)
              (some_inj k v.key
                (sym h ∙ ap (get_elem? m.keys) {x = j} {y = v.position} (omega arith) ∙ v.held))
              c;
        reading = v.reading;
        key' = v.key';
        consumed = v.consumed;
        passed = v.passed;
        answer = v.answer;
        stored = v.stored;
      }

  answer-Justified :
      (offered : Bool) (r : Manager × Option Served)
      → (candidates allowed feature clock 0 m.keys).0 ≡ offered
      → Explains m left feature clock r
      → Justified m feature allowed clock (answer_of offered r)
  answer-Justified offered (m', some s) e (serves, within) = Granted-Serves m' s serves
  answer-Justified true (m', none) e (refuses, within) = (
    offered-some allowed feature clock 0 m.keys e,
    λ p k h c. refuses p k (candidates-In allowed feature clock 0 p p m.keys k (omega arith) h c) h,
  )
  answer-Justified false (m', none) e (refuses, within) =
      offered-none allowed feature clock 0 m.keys e

  -- Every answer of `GetKeyForFeature` is justified. A key that is served stands in the pool, the caller's tiers
  -- and the feature cover it, it was available, and an attempt on it as it stood, at a reading of the
  -- call's clock, passed; the pool then holds the key as the attempt left it. If none is served and the error is "exhausted", some
  -- key is offered, and every one that is offered and available was attempted at a
  -- reading of the call's clock and refused; if the
  -- error is "out of scope", no key of the pool is offered.
  pub get_key_for_feature-Justified :
      Justified m feature allowed clock (get_key_for_feature m feature allowed clock)
  unfolding get_key_for_feature
  get_key_for_feature-Justified = answer-Justified _ _ refl (
      draw-Explains feature clock (length left) 0 (length m.keys) m left (omega arith)
        (candidates-Rising allowed feature clock 0 m.keys)
        (candidates-Below allowed feature clock 0 (length m.keys) m.keys (omega arith)))
