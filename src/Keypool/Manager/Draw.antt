-- ===== src/Keypool/Manager/Draw.antt =====
-- The second loop of `GetKeyForFeature`: it serves the key of a passing attempt, or every key was tried.
use keypooler.Base.{
  ℕ, zero, suc, ◌+◌, ◌%◌, ◌≤◌, ◌<◌, ◌≡◌, ◌≢◌, refl, sym, ap, ◌∙◌, subst, ◌⊎◌, inl, inr, String,
  Option, none, some, List, [], ◌∷◌, arith, length, get_elem?, set, erase_idx, length-erase_idx,
  get_elem?-lt, get_elem?-set_ne, get_elem?-set_self, get_elem?-some, length-set, or_else,
}
use keypooler.Keypool.Types.{PoolKey, Consumed}
use keypooler.Keypool.Manager.{Manager, Served, attempt, serve, after_attempt, advance, draw}

-- `p` stands in the list.
abbrev pub In : ℕ → List ℕ → Type 0
In p [] = ⊥
In p (x ∷ xs) = (p ≡ x) ⊎ In p xs

-- The positions rise, from `lo` on.
abbrev pub Rising : ℕ → List ℕ → Type 0
Rising lo [] = Unit {0}
Rising lo (x ∷ xs) = (lo ≤ x) × Rising (suc x) xs

pub Rising-mono : (lo lo' : ℕ) (xs : List ℕ) → lo' ≤ lo → Rising lo xs → Rising lo' xs
Rising-mono lo lo' [] h r = tt
Rising-mono lo lo' (x ∷ xs) h r = (omega arith, r.1)

Rising-erase : (lo : ℕ) (xs : List ℕ) (i : ℕ) → Rising lo xs → Rising lo (erase_idx xs i)
Rising-erase lo [] i r = tt
Rising-erase lo (x ∷ xs) zero r = Rising-mono (suc x) lo xs (omega arith) r.1
Rising-erase lo (x ∷ xs) (suc i) r = (r.0, Rising-erase (suc x) xs i r.1)

In-Rising : (lo p : ℕ) (xs : List ℕ) → Rising lo xs → In p xs → lo ≤ p
In-Rising lo p [] r h = absurd h
In-Rising lo p (x ∷ xs) r (inl e) = omega arith
In-Rising lo p (x ∷ xs) r (inr h) = omega (arith, In-Rising (suc x) p xs r.1 h)

In-get : (xs : List ℕ) (i p : ℕ) → get_elem? xs i ≡ some p → In p xs
In-get [] i p h = cc
In-get (x ∷ xs) zero p h = inl (ground arith)
In-get (x ∷ xs) (suc i) p h = inr (In-get xs i p h)

-- What is left after taking out the i-th differs from it.
pub some_inj {ℓ} : {A : Type ℓ} (x p : A) → some x ≡ some p → x ≡ p
some_inj x p h = ap (λ o. or_else o x) h

In-erase_ne :
    (lo : ℕ) (xs : List ℕ) (i p q : ℕ)
    → Rising lo xs
    → get_elem? xs i ≡ some p
    → In q (erase_idx xs i)
    → p ≢ q
In-erase_ne lo [] i p q r g h = absurd h
In-erase_ne lo (x ∷ xs) zero p q r g h =
    λ e. omega (arith, In-Rising (suc x) q xs r.1 h, some_inj x p g)
In-erase_ne lo (x ∷ xs) (suc i) p q r g (inl e) =
    λ e'. omega (arith, In-Rising (suc x) p xs r.1 (In-get xs i p g))
In-erase_ne lo (x ∷ xs) (suc i) p q r g (inr h) = In-erase_ne (suc x) xs i p q r.1 g h

-- Whatever stood in the list was the one taken out, or is left.
In-erase :
    (xs : List ℕ) (i p q : ℕ) → get_elem? xs i ≡ some p → In q xs → (q ≡ p) ⊎ In q (erase_idx xs i)
In-erase [] i p q g h = absurd h
In-erase (x ∷ xs) zero p q g (inl e) = inl (ground arith)
In-erase (x ∷ xs) zero p q g (inr h) = inr h
In-erase (x ∷ xs) (suc i) p q g (inl e) = inr (inl e)
In-erase (x ∷ xs) (suc i) p q g (inr h) = elim (In-erase xs i p q g h) [
  | inl e ↦ inl e
  | inr l ↦ inr (inr l)
]

In-erased : (xs : List ℕ) (i q : ℕ) → In q (erase_idx xs i) → In q xs
In-erased [] i q h = h
In-erased (x ∷ xs) zero q h = inr h
In-erased (x ∷ xs) (suc i) q (inl e) = inl e
In-erased (x ∷ xs) (suc i) q (inr h) = inr (In-erased xs i q h)

-- One round of the loop, by what the attempt gave.
module _ (fuel : ℕ) (m : Manager) (feature : String) (clock : ℕ → ℕ) (n : ℕ) (left : List ℕ) (p : ℕ)
    (k k' : PoolKey) (chosen : get_elem? left (m.next % length left) ≡ some p)
    (held : get_elem? m.keys p ≡ some k) where
  pub draw-passed :
      (r : Consumed)
      → attempt k feature (clock n) (clock (n + 1)) ≡ (k', some r)
      → draw (suc fuel) m feature clock n left
        ≡ (after_attempt (advance m) p (k', some r), some (serve k'))
  unfolding draw
  draw-passed r e =
      rw (chosen, held, ap (λ (a : PoolKey × Option Consumed). a.1) e, draw)
        (λ i. (after_attempt (advance m) p (e i), some (serve (e i).0)))

  pub draw-refused :
      attempt k feature (clock n) (clock (n + 1)) ≡ (k', none)
      → draw (suc fuel) m feature clock n left
        ≡ draw fuel
            (after_attempt (advance m) p (k', none))
            feature
            clock
            (n + 2)
            (erase_idx left (m.next % length left))
  unfolding draw
  draw-refused e =
      rw (chosen, held, ap (λ (a : PoolKey × Option Consumed). a.1) e, draw)
        (ap
          (λ a.
            draw fuel (after_attempt (advance m) p a) feature clock (n + 2)
              (erase_idx left (m.next % length left)))
          e)

-- The attempt on the key at a position in `left` passed: it was made on the key as the manager held
-- it, the answer is that key, and the manager now holds the key that the attempt left.
pub record Serves (m : Manager) (left : List ℕ) (feature : String) (clock : ℕ → ℕ) (m' : Manager)
    (s : Served) : Type 0 where
  pub position : ℕ
  pub listed : In position left
  pub key : PoolKey
  pub held : get_elem? m.keys position ≡ some key
  pub reading : ℕ
  pub key' : PoolKey
  pub consumed : Consumed
  pub passed : attempt key feature (clock reading) (clock (reading + 1)) ≡ (key', some consumed)
  pub answer : s ≡ serve key'
  pub stored : get_elem? m'.keys position ≡ some key'

-- Every key in `left` was attempted, as the manager held it, and did not pass.
abbrev pub Refuses : Manager → List ℕ → String → (ℕ → ℕ) → Type 0
Refuses m left feature clock =
    (p : ℕ) (k : PoolKey)
    → In p left
    → get_elem? m.keys p ≡ some k
    → (n : ℕ) × ((attempt k feature (clock n) (clock (n + 1))).1 ≡ none)

-- No key outside `left` changes, and none comes or goes.
pub record Confined (m : Manager) (left : List ℕ) (m' : Manager) : Type 0 where
  pub others : (q : ℕ) → ¬ In q left → get_elem? m'.keys q ≡ get_elem? m.keys q
  pub size : length m'.keys ≡ length m.keys

abbrev pub Explains : Manager → List ℕ → String → (ℕ → ℕ) → Manager × Option Served → Type 0
Explains m left feature clock (m', none) = Refuses m left feature clock × Confined m left m'
Explains m left feature clock (m', some s) = Serves m left feature clock m' s × Confined m left m'

-- Every position in the list is one of the keys.
abbrev pub Below : ℕ → List ℕ → Type 0
Below n [] = Unit {0}
Below n (x ∷ xs) = (x < n) × Below n xs

Below-erase : (n : ℕ) (xs : List ℕ) (i : ℕ) → Below n xs → Below n (erase_idx xs i)
Below-erase n [] i h = tt
Below-erase n (x ∷ xs) zero h = h.1
Below-erase n (x ∷ xs) (suc i) h = (h.0, Below-erase n xs i h.1)

Below-In : (n p : ℕ) (xs : List ℕ) → Below n xs → In p xs → p < n
Below-In n p [] h i = absurd i
Below-In n p (x ∷ xs) h (inl e) = rw e h.0
Below-In n p (x ∷ xs) h (inr i) = Below-In n p xs h.1 i

module _ (lo : ℕ) (m : Manager) (feature : String) (clock : ℕ → ℕ) (left : List ℕ) (i p : ℕ)
    (k k' : PoolKey) (rising : Rising lo left) (chosen : get_elem? left i ≡ some p)
    (held : get_elem? m.keys p ≡ some k) where
  -- A key that is left after the round is the one that was held before.
  still_held :
      (q : ℕ) → In q (erase_idx left i) → get_elem? (set m.keys p k') q ≡ get_elem? m.keys q
  still_held q h = get_elem?-set_ne m.keys p q k' (In-erase_ne lo left i p q rising chosen h)

  untouched : (q : ℕ) → ¬ In q left → get_elem? (set m.keys p k') q ≡ get_elem? m.keys q
  untouched q h =
      get_elem?-set_ne m.keys p q k' λ e. h (subst (λ x. In x left) e (In-get left i p chosen))

  widened :
      (m' : Manager)
      → Confined (after_attempt (advance m) p (k', none)) (erase_idx left i) m'
      → Confined m left m'
  widened m' c = record {
    others = λ q h. c.others q (λ l. h (In-erased left i q l)) ∙ untouched q h;
    size = c.size ∙ length-set m.keys p k';
  }

  Explains-passed :
      (n : ℕ) (c : Consumed)
      → attempt k feature (clock n) (clock (n + 1)) ≡ (k', some c)
      → Explains m left feature clock (after_attempt (advance m) p (k', some c), some (serve k'))
  Explains-passed n c e = (
    record {
      position = p;
      listed = In-get left i p chosen;
      key = k;
      held = held;
      reading = n;
      key' = k';
      consumed = c;
      passed = e;
      answer = refl;
      stored = get_elem?-set_self m.keys p k' (get_elem?-some m.keys p k held);
    },
    record { others = untouched; size = length-set m.keys p k' },
  )

  Explains-refused :
      (n : ℕ) (result : Manager × Option Served)
      → attempt k feature (clock n) (clock (n + 1)) ≡ (k', none)
      → Explains (after_attempt (advance m) p (k', none)) (erase_idx left i) feature clock result
      → Explains m left feature clock result
  Explains-refused n (m', none) e (refuses, within) = (all, widened m' within)
    where
      all : Refuses m left feature clock
      all q kq listed at = elim (In-erase left i p q chosen listed) [
        | inl same ↦ (
          n,
          subst (λ x. (attempt x feature (clock n) (clock (n + 1))).1 ≡ none)
              (some_inj k kq (sym held ∙ ap (get_elem? m.keys) (sym same) ∙ at))
              (ap (λ (a : PoolKey × Option Consumed). a.1) e),
        )
        | inr rest ↦ refuses q kq rest (still_held q rest ∙ at)
      ]
  Explains-refused n (m', some s) e (serves, within) = (
    record {
      position = serves.position;
      listed = In-erased left i serves.position serves.listed;
      key = serves.key;
      held = sym (still_held serves.position serves.listed) ∙ serves.held;
      reading = serves.reading;
      key' = serves.key';
      consumed = serves.consumed;
      passed = serves.passed;
      answer = serves.answer;
      stored = serves.stored;
    },
    widened m' within,
  )

module _ (feature : String) (clock : ℕ → ℕ) where
  abbrev ExplainsAll : ℕ → Type 0
  ExplainsAll fuel =
      (lo n : ℕ) (m : Manager) (left : List ℕ)
      → length left ≤ fuel
      → Rising lo left
      → Below (length m.keys) left
      → Explains m left feature clock (draw fuel m feature clock n left)

  -- One round at a position and its key, by what the attempt gave.
  draw-tried :
      (fuel : ℕ)
      → ExplainsAll fuel
      → (lo n : ℕ) (m : Manager) (left : List ℕ) (p : ℕ) (k : PoolKey)
        (a : PoolKey × Option Consumed)
      → length left ≤ suc fuel
      → Rising lo left
      → Below (length m.keys) left
      → get_elem? left (m.next % length left) ≡ some p
      → get_elem? m.keys p ≡ some k
      → attempt k feature (clock n) (clock (n + 1)) ≡ a
      → Explains m left feature clock (draw (suc fuel) m feature clock n left)
  draw-tried fuel ih lo n m left p k (k', some c) enough rising below chosen held e =
      rw (draw-passed fuel m feature clock n left p k k' chosen held c e)
        (Explains-passed lo m feature clock left _ p k k' rising chosen held n c e)
  draw-tried fuel ih lo n m left p k (k', none) enough rising below chosen held e =
      rw (draw-refused fuel m feature clock n left p k k' chosen held e) (
        Explains-refused lo m feature clock left _ p k k' rising chosen held n _ e (
          ih lo (n + 2) _ _ fewer (Rising-erase lo left _ rising)
            (rw (length-set m.keys p k') (Below-erase (length m.keys) left _ below))))
    where
      fewer : length (erase_idx left (m.next % length left)) ≤ fuel
      fewer = omega (arith, length-erase_idx left _ (get_elem?-some left _ p chosen))

  draw_round :
      (fuel : ℕ)
      → ExplainsAll fuel
      → (lo n : ℕ) (m : Manager) (x : ℕ) (xs : List ℕ) → length (x ∷ xs) ≤ suc fuel
      → Rising lo (x ∷ xs)
      → Below (length m.keys) (x ∷ xs)
      → Explains m (x ∷ xs) feature clock (draw (suc fuel) m feature clock n (x ∷ xs))
  draw_round fuel ih lo n m x xs enough rising below =
      let (p, chosen) = get_elem?-lt (x ∷ xs) (m.next % length (x ∷ xs)) (omega arith) in
      let (k, held) =
        get_elem?-lt m.keys p
          (Below-In (length m.keys) p (x ∷ xs) below (In-get (x ∷ xs) _ p chosen)) in
      draw-tried fuel ih lo n m (x ∷ xs) p k _ enough rising below chosen held refl

  -- With fuel for every key left, the loop serves the key of a passing attempt or has tried each.
  pub draw-Explains : (fuel : ℕ) → ExplainsAll fuel
  unfolding draw
  draw-Explains zero lo n m [] enough rising below =
      (λ p k h _. absurd h, record { others = λ q _. refl; size = refl })
  draw-Explains zero lo n m (x ∷ xs) enough rising below = absurd (omega arith)
  draw-Explains (suc fuel) lo n m [] enough rising below =
      (λ p k h _. absurd h, record { others = λ q _. refl; size = refl })
  draw-Explains (suc fuel) lo n m (x ∷ xs) enough rising below =
      draw_round fuel (draw-Explains fuel) lo n m x xs enough rising below
