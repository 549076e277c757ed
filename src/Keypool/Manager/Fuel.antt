-- ===== src/Keypool/Manager/Fuel.antt =====
-- The second loop of `GetKeyForFeature` ends by itself: the fuel that it is given is enough.
use keypooler.Base.{
  ℕ, zero, suc, ◌+◌, ◌%◌, ◌≤◌, ◌<◌, ◌≡◌, refl, String, Option, none, some, List, [], ◌∷◌, arith,
  length, get_elem?, erase_idx, length-erase_idx,
}
use keypooler.Keypool.Manager.{Manager, attempt, draw}

-- Two continuations that agree wherever there is a value.
same_elim {ℓ} :
    {A B : Type ℓ} (o : Option A) (b : B) (f g : A → B)
    → ((a : A) → o ≡ some a → f a ≡ g a)
    → (elim o [ none ↦ b | some a ↦ f a ]) ≡ (elim o [ none ↦ b | some a ↦ g a ])
same_elim none b f g h = refl
same_elim (some a) b f g h = h a refl

same_else {ℓ} :
    {A B : Type ℓ} (o : Option A) (f : A → B) (x y : B)
    → x ≡ y
    → (elim o [ some a ↦ f a | none ↦ x ]) ≡ (elim o [ some a ↦ f a | none ↦ y ])
same_else none f x y h = h
same_else (some a) f x y h = refl

held_index {ℓ} :
    {A : Type ℓ} (xs : List A) (i : ℕ) (a : A) → get_elem? xs i ≡ some a → i < length xs
held_index [] i a e = cc
held_index (x ∷ xs) zero a e = omega arith
held_index (x ∷ xs) (suc i) a e = omega (arith, held_index xs i a e)

fewer_left :
    (left : List ℕ) (i p f : ℕ)
    → get_elem? left i ≡ some p
    → length left ≤ suc f
    → length (erase_idx left i) ≤ f
fewer_left left i p f e h = omega (arith, length-erase_idx left i (held_index left i p e))

-- Whatever fuel from the number of candidates on the loop is given, it does the same: no run is cut short.
pub draw_fuel :
    (f g : ℕ) (m : Manager) (feature : String) (clock : ℕ → ℕ) (n : ℕ) (left : List ℕ)
    → length left ≤ f
    → length left ≤ g
    → draw f m feature clock n left ≡ draw g m feature clock n left
unfolding draw
draw_fuel zero zero m feature clock n left h k = refl
draw_fuel zero (suc g) m feature clock n [] h k = refl
draw_fuel zero (suc g) m feature clock n (p ∷ left) h k = absurd (omega arith)
draw_fuel (suc f) zero m feature clock n [] h k = refl
draw_fuel (suc f) zero m feature clock n (p ∷ left) h k = absurd (omega arith)
draw_fuel (suc f) (suc g) m feature clock n left h k =
    same_elim (get_elem? left (m.next % length left)) _ _ _ (λ p e.
      same_elim (get_elem? m.keys p) _ _ _ (λ key held.
        same_else (attempt key feature (clock n) (clock (n + 1))).1 _ _ _ (
          draw_fuel f g _ feature clock (n + 2) (erase_idx left (m.next % length left))
            (fewer_left left (m.next % length left) p f e h)
            (fewer_left left (m.next % length left) p g e k))))
