-- ===== src/Writeback/Within.antt =====
-- Two usage rows that differ by some calls more.
use keypooler.Base.{
  ℕ, ◌+◌, ◌≤◌, ◌≡◌, refl, sym, ◌∙◌, subst, inl, inr, String, Option, none, some, List, [], ◌∷◌,
  arith, str_eq, if◌then◌else◌, Bool-cases,
}
use keypooler.Db.Postgres.{UsageRow, add_count, set_count}
use keypooler.Writeback.{Usage}
use keypooler.Writeback.Refinement.{Action, serves, resets, takes, settles, apply, counted, replay}

-- The serves of an entry that count again when it is written again: a window's reset sets its count, and does not
-- add.
abbrev pub adds : Usage → ℕ
adds u = elim u.reset [ some start ↦ 0 | none ↦ u.n ]

-- The row `r'` has the window of `r`, and at most `extra` more calls.
pub record Within (extra : ℕ) (r r' : UsageRow) : Type 0 where
  pub window : r'.usage_window_start ≡ r.usage_window_start
  pub least : r.usage_count ≤ r'.usage_count
  pub most : r'.usage_count ≤ r.usage_count + extra

pub Within-refl : (r r' : UsageRow) → r' ≡ r → Within 0 r r'
Within-refl r r' e =
    subst (Within 0 r) (sym e) (record { window = refl; least = omega arith; most = omega arith })

pub Within-trans :
    (m n : ℕ) (r r' r'' : UsageRow) → Within m r r' → Within n r' r'' → Within (n + m) r r''
Within-trans m n r r' r'' a b = record {
  window = b.window ∙ a.window;
  least = omega (arith, a.least, b.least);
  most = omega (arith, a.most, b.most);
}

add_count-Within :
    (x n : ℕ) (r r' : UsageRow) → Within x r r' → Within x (add_count n r) (add_count n r')
add_count-Within x n r r' h = record {
  window = h.window;
  least = omega (arith, h.least);
  most = omega (arith, h.most);
}

set_count-Within : (x n t : ℕ) (r r' : UsageRow) → Within x (set_count n t r) (set_count n t r')
set_count-Within x n t r r' = record { window = refl; least = omega arith; most = omega arith }

-- An excess stays, or is set aside by a reset.
pub apply-Within :
    (x : ℕ) (o : Option Usage) (r r' : UsageRow) → Within x r r' → Within x (apply o r) (apply o r')
apply-Within x none r r' h = h
apply-Within x (some u) r r' h = reset_or_add u.reset
  where
    reset_or_add :
        (t : Option ℕ)
        → Within x
            (apply (some (record { n = u.n; reset = t })) r)
            (apply (some (record { n = u.n; reset = t })) r')
    reset_or_add none = add_count-Within x u.n r r' h
    reset_or_add (some t) = set_count-Within x u.n t r r'

pub apply_again :
    (n : ℕ) (t : Option ℕ) (r : UsageRow)
    → let u : Usage = record { n = n; reset = t } in
      Within (adds u) (apply (some u) r) (apply (some u) (apply (some u) r))
apply_again n none r = record { window = refl; least = omega arith; most = omega arith }
apply_again n (some t) r = record { window = refl; least = omega arith; most = omega arith }

if-Within :
    (x : ℕ) (j id : String) (f : UsageRow → UsageRow) (r r' : UsageRow)
    → Within x r r'
    → Within x (f r) (f r')
    → Within x (if str_eq j id then f r else r) (if str_eq j id then f r' else r')
if-Within x j id f r r' h k = elim (Bool-cases (str_eq j id)) [ inl e ↦ rw e k | inr e ↦ rw e h ]

pub counted-Within :
    (x : ℕ) (a : Action) (id : String) (r r' : UsageRow)
    → Within x r r'
    → Within x (counted a id r) (counted a id r')
counted-Within x (serves j) id r r' h =
    if-Within x j id (add_count 1) r r' h (add_count-Within x 1 r r' h)
counted-Within x (resets j t) id r r' h =
    if-Within x j id (set_count 1 t) r r' h (set_count-Within x 1 t r r')
counted-Within x takes id r r' h = h
counted-Within x (settles ending) id r r' h = h

pub replay-Within :
    (x : ℕ) (acts : List Action) (id : String) (r r' : UsageRow)
    → Within x r r'
    → Within x (replay acts id r) (replay acts id r')
unfolding replay
replay-Within x [] id r r' h = h
replay-Within x (a ∷ rest) id r r' h = replay-Within x rest id _ _ (counted-Within x a id r r' h)
