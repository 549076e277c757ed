-- ===== src/Config/Load.antt =====
-- What `Load` accepts.
use keypooler.Base.{
  not_both, ℕ, ◌≡◌, ◌≢◌, refl, sym, ap, ◌∙◌, subst, ◌⊎◌, inl, inr, Bool, true, false, Option, none,
  some, List, [], ◌∷◌, ◌++◌, arith, ◌==◌, if◌then◌else◌, is_some, Bool-cases, Option-cases,
}
use keypooler.Crypto.{Bytes, cut_prefix}
use keypooler.Config.{
  Loaded, ready, no_admin_token, bad_database_url, postgres_schemes, has_any_prefix, check_url,
  load,
}

-- One of the texts begins `s`.
abbrev pub Begins : Bytes → List Bytes → Type 0
Begins s [] = ⊥
Begins s (p ∷ ps) = ((rest : Bytes) × (s ≡ p ++ rest)) ⊎ Begins s ps

equal_bytes : (c p : ℕ) → c == p ≡ true → c ≡ p
equal_bytes c p h = ground arith

no_rest : (rest : Bytes) → none ≡ some rest → ⊥
no_rest rest q = cc

cut_prefix-some : (s p rest : Bytes) → cut_prefix s p ≡ some rest → s ≡ p ++ rest
unfolding cut_prefix
cut_prefix-some s [] rest e = cc
cut_prefix-some [] (p ∷ ps) rest e = cc
cut_prefix-some (c ∷ s) (p ∷ ps) rest e = elim (Bool-cases (c == p)) [
  | inl same ↦
      ap (λ x. x ∷ s) (equal_bytes c p same)
      ∙ ap (◌∷◌ p) (
          cut_prefix-some s ps rest
            (sym (ap (λ (b : Bool). if b then cut_prefix s ps else none) same) ∙ e))
  | inr other ↦
      absurd (no_rest rest (sym (ap (λ (b : Bool). if b then cut_prefix s ps else none) other) ∙ e))
]

cut_prefix-append : (p rest : Bytes) → is_some (cut_prefix (p ++ rest) p) ≡ true
unfolding cut_prefix
cut_prefix-append [] [] = refl
cut_prefix-append [] (c ∷ rest) = refl
cut_prefix-append (p ∷ ps) rest = ground (arith, cut_prefix-append ps rest)

has_any_prefix-true : (s : Bytes) (ps : List Bytes) → has_any_prefix s ps ≡ true → Begins s ps
unfolding has_any_prefix
has_any_prefix-true s [] h = cc
has_any_prefix-true s (p ∷ ps) h = elim (Option-cases (cut_prefix s p)) [
  | inl e ↦ inr (
      has_any_prefix-true s ps
        (sym (ap (λ (o : Option Bytes). if is_some o then true else has_any_prefix s ps) e) ∙ h))
  | inr (rest, e) ↦ inl (rest, cut_prefix-some s p rest e)
]

has_any_prefix-Begins : (s : Bytes) (ps : List Bytes) → Begins s ps → has_any_prefix s ps ≡ true
unfolding has_any_prefix
has_any_prefix-Begins s [] h = absurd h
has_any_prefix-Begins s (p ∷ ps) (inl (rest, e)) =
    ap (λ (b : Bool). if b then true else has_any_prefix s ps)
      (subst (λ x. is_some (cut_prefix x p) ≡ true) (sym e) (cut_prefix-append p rest))
has_any_prefix-Begins s (p ∷ ps) (inr h) = elim (Bool-cases (is_some (cut_prefix s p))) [
  | inl e ↦ ap (λ (b : Bool). if b then true else has_any_prefix s ps) e
  | inr e ↦
      ap (λ (b : Bool). if b then true else has_any_prefix s ps) e ∙ has_any_prefix-Begins s ps h
]

-- What each outcome says of the environment.
abbrev pub Explained : Bytes → Bytes → Bytes → Loaded → Type 0
Explained url key token (ready c) =
    (c ≡ record { database_url = url; encryption_key = key; admin_token = token })
    × (token ≢ [])
    × Begins url postgres_schemes
Explained url key token no_admin_token = token ≡ []
Explained url key token bad_database_url = (token ≢ []) × (Begins url postgres_schemes → ⊥)

check_url-Explained :
    (url key token : Bytes) (valid : Bool)
    → token ≢ []
    → has_any_prefix url postgres_schemes ≡ valid
    → Explained url key token
        (check_url (record { database_url = url; encryption_key = key; admin_token = token }) valid)
check_url-Explained url key token true n h = (refl, n, has_any_prefix-true url postgres_schemes h)
check_url-Explained url key token false n h =
    (n, λ b. not_both _ (has_any_prefix-Begins url postgres_schemes b) h)

-- `Load` by its outcome: it takes the environment as it is, if the admin token is set and the database's URL begins
-- with "postgres://" or "postgresql://"; the first error means that the token is not set, the
-- second that it is and the URL begins with neither.
pub load-Explained : (url key token : Bytes) → Explained url key token (load url key token)
unfolding load
load-Explained url key [] = refl
load-Explained url key (t ∷ ts) =
    check_url-Explained url key (t ∷ ts) (has_any_prefix url postgres_schemes) (λ e. cc) refl
