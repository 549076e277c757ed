-- ===== src/Db/Migrations/Names.antt =====
-- The names of migrations: "NNN_name.sql".
use keypooler.Base.{
  ℕ, ◌+◌, ◌-◌, ◌*◌, ◌<◌, ◌≡◌, ◌⊎◌, inl, inr, refl, ap, ◌∙◌, true, false, none, some, [], ◌∷◌, ◌++◌,
  arith, length, length-append, Bool-cases, ltb, ◌==◌, if◌then◌else◌,
}
use keypooler.Base.Int.{pos, two_63}
use keypooler.Crypto.{Bytes}
use keypooler.Strconv.{is_digit, digits_from, digits, atoi, positive, negative}
use keypooler.Api.Auth.{same_bytes}
use keypooler.Db.Migrations.{
  migration_suffix, trim_suffix, cut, cons_front, named, parse_cut, parse_migration_name,
}

abbrev pub AllDigits : Bytes → Type 0
AllDigits [] = Unit
AllDigits (c ∷ cs) = (is_digit c ≡ true) × AllDigits cs

-- What the digits say.
abbrev pub value_from : ℕ → Bytes → ℕ
value_from n [] = n
value_from n (c ∷ cs) = value_from (n * 10 + (c - b'0')) cs

digits_from-value : (n : ℕ) (cs : Bytes) → AllDigits cs → digits_from n cs ≡ some (value_from n cs)
unfolding digits_from
digits_from-value n [] h = refl
digits_from-value n (c ∷ cs) h =
    ap (λ b. if b then digits_from (n * 10 + (c - b'0')) cs else none) h.0
    ∙ digits_from-value (n * 10 + (c - b'0')) cs h.1

-- No digit is a byte before the digits or after them.
no_sign : (c s : ℕ) → is_digit c ≡ true → (s < b'0') ⊎ (b'9' < s) → (c == s) ≡ false
no_sign c s h out = ground (arith, out)

below : (a b : ℕ) → a < b → ltb a b ≡ true
below a b h = ground (arith, h)

atoi_digits :
    (c : ℕ) (cs : Bytes)
    → AllDigits (c ∷ cs)
    → value_from 0 (c ∷ cs) < two_63
    → atoi (c ∷ cs) ≡ some (pos (value_from 0 (c ∷ cs)))
unfolding atoi digits
atoi_digits c cs h small =
    ap
      (λ b.
        if b
        then negative (digits cs)
        else if c == b'+'
        then positive (digits cs)
        else positive (digits (c ∷ cs)))
      (no_sign c b'-' h.0 (inl (omega arith)))
    ∙ (ap (λ b. if b then positive (digits cs) else positive (digits (c ∷ cs)))
          (no_sign c b'+' h.0 (inl (omega arith)))
        ∙ (ap positive (digits_from-value 0 (c ∷ cs) h)
            ∙ ap (λ b. if b then some (pos (value_from 0 (c ∷ cs))) else none)
                (below (value_from 0 (c ∷ cs)) two_63 small)))

cut_digits : (cs rest : Bytes) → AllDigits cs → cut b'_' (cs ++ (b'_' ∷ rest)) ≡ some (cs, rest)
unfolding cut
cut_digits [] rest h = refl
cut_digits (c ∷ cs) rest h =
    ap
      (λ b.
        if b then some ([], cs ++ (b'_' ∷ rest)) else cons_front c (cut b'_' (cs ++ (b'_' ∷ rest))))
      (no_sign c b'_' h.0 (inr (omega arith)))
    ∙ ap (cons_front c) (cut_digits cs rest h.1)

same_bytes-length : (xs ys : Bytes) → same_bytes xs ys ≡ true → length xs ≡ length ys
unfolding same_bytes
same_bytes-length [] [] h = refl
same_bytes-length [] (y ∷ ys) h = cc
same_bytes-length (x ∷ xs) [] h = cc
same_bytes-length (x ∷ xs) (y ∷ ys) h = ground (arith, same_bytes-length xs ys)

longer : (x : ℕ) (xs : Bytes) → length ((x ∷ xs) ++ migration_suffix) ≡ length migration_suffix → ⊥
longer x xs h = omega (arith, length-append (x ∷ xs) migration_suffix)

not_suffix :
    (x : ℕ) (xs : Bytes) → same_bytes ((x ∷ xs) ++ migration_suffix) migration_suffix ≡ false
not_suffix x xs = elim (Bool-cases (same_bytes ((x ∷ xs) ++ migration_suffix) migration_suffix)) [
  | inl same ↦ absurd (longer x xs (same_bytes-length _ _ same))
  | inr other ↦ other
]

trim_suffix-append : (xs : Bytes) → trim_suffix (xs ++ migration_suffix) migration_suffix ≡ xs
unfolding trim_suffix same_bytes
trim_suffix-append [] = refl
trim_suffix-append (x ∷ xs) =
    ap (λ b. if b then [] else x ∷ trim_suffix (xs ++ migration_suffix) migration_suffix)
      (not_suffix x xs)
    ∙ ap (λ l. x ∷ l) (trim_suffix-append xs)

-- A file that is named by digits, whose value an int64 holds, an underscore, a name and ".sql" is the migration of
-- that version and name; leading zeros do not matter.
pub parse_migration_name-print :
    (d : ℕ) (ds : Bytes) (c : ℕ) (cs : Bytes)
    → AllDigits (d ∷ ds)
    → value_from 0 (d ∷ ds) < two_63
    → parse_migration_name (((d ∷ ds) ++ (b'_' ∷ (c ∷ cs))) ++ migration_suffix)
      ≡ some (pos (value_from 0 (d ∷ ds)), c ∷ cs)
unfolding parse_migration_name
parse_migration_name-print d ds c cs all small =
    ap (λ s. parse_cut (cut b'_' s)) (trim_suffix-append ((d ∷ ds) ++ (b'_' ∷ (c ∷ cs))))
    ∙ (ap parse_cut (cut_digits (d ∷ ds) (c ∷ cs) all)
        ∙ ap (λ v. named v (c ∷ cs)) (atoi_digits d ds all small))
