-- ===== src/Writeback/Last.antt =====
-- The end of a list, as `keepEvents` cuts it.
use keypooler.Base.{
  ℕ, zero, suc, ◌-◌, ◌≤◌, ◌<◌, ◌≡◌, refl, sym, ap, ◌∙◌, ◌⊎◌, inl, inr, List, [], ◌∷◌, ◌++◌, arith,
  length, drop, length-append, length-drop,
}

-- The last `n` of a list, as `keepEvents` cuts it.
abbrev pub last_of {ℓ} : {A : Type ℓ} → ℕ → List A → List A
last_of n xs = drop (length xs - n) xs

pub le_total : (m n : ℕ) → (m ≤ n) ⊎ (n < m)
le_total m n = grind arith

module _ {ℓ} {A : Type ℓ} where
  pub drop-nil : (n : ℕ) → drop {A = A} n [] ≡ []
  drop-nil zero = refl
  drop-nil (suc n) = refl

  pub last_of-all : (n : ℕ) (xs : List A) → length xs ≤ n → last_of n xs ≡ xs
  last_of-all n xs h = ap (λ k. drop k xs) {y = 0} (omega arith)

  pub last_of-cons :
      (n : ℕ) (x : A) (xs : List A) → n ≤ length xs → last_of n (x ∷ xs) ≡ last_of n xs
  last_of-cons n x xs h = ap (λ k. drop k (x ∷ xs)) {y = suc (length xs - n)} (omega arith)

  length-last_of : (n : ℕ) (xs : List A) → length (last_of n xs) ≤ n
  length-last_of n xs = omega (arith, length-drop (length xs - n) xs)

  length-last_of_long : (n : ℕ) (xs : List A) → n ≤ length xs → length (last_of n xs) ≡ n
  length-last_of_long n xs h = omega (arith, length-drop (length xs - n) xs)

  -- What is dropped early would be dropped later anyway.
  pub last_of-append_left :
      (n : ℕ) (xs ys : List A) → last_of n (last_of n xs ++ ys) ≡ last_of n (xs ++ ys)
  last_of-append_left n [] ys = ap (λ l. last_of n (l ++ ys)) (drop-nil (0 - n))
  last_of-append_left n (x ∷ xs) ys = elim (le_total (length (x ∷ xs)) n) [
    | inl short ↦ ap (λ l. last_of n (l ++ ys)) (last_of-all n (x ∷ xs) short)
    | inr long ↦
        ap (λ l. last_of n (l ++ ys)) (last_of-cons n x xs (omega arith))
        ∙ last_of-append_left n xs ys
        ∙ sym (last_of-cons n x (xs ++ ys) (omega (arith, length-append xs ys)))
  ]

  last_of-append_long :
      (n : ℕ) (xs ys : List A)
      → n ≤ length ys
      → last_of n (xs ++ last_of n ys) ≡ last_of n (xs ++ ys)
  last_of-append_long n [] ys h = last_of-all n (last_of n ys) (length-last_of n ys)
  last_of-append_long n (x ∷ xs) ys h =
      last_of-cons n x (xs ++ last_of n ys)
        (omega (arith, length-append xs (last_of n ys), length-last_of_long n ys h))
      ∙ last_of-append_long n xs ys h
      ∙ sym (last_of-cons n x (xs ++ ys) (omega (arith, length-append xs ys)))

  pub last_of-append_right :
      (n : ℕ) (xs ys : List A) → last_of n (xs ++ last_of n ys) ≡ last_of n (xs ++ ys)
  last_of-append_right n xs ys = elim (le_total (length ys) n) [
    | inl short ↦ ap (λ l. last_of n (xs ++ l)) (last_of-all n ys short)
    | inr long ↦ last_of-append_long n xs ys (omega arith)
  ]
