-- ===== src/Keypool/Manager/Invariant.antt =====
-- What holds before a call of `GetKeyForFeature` or `KeyByID` and is kept by each attempt holds after the call.
use keypooler.Base.{
  ℕ, zero, suc, ◌+◌, ◌%◌, ◌≡◌, refl, subst, inl, inr, String, Bool, true, false, Option, none, some,
  List, Option-cases, length, get_elem?, erase_idx,
}
use keypooler.Base.Dict.{Dict}
use keypooler.Keypool.Types.{PoolKey, Consumed}
use keypooler.Keypool.Manager.Find.{Finds, find-Finds}
use keypooler.Keypool.Manager.Draw.{draw-passed, draw-refused}
use keypooler.Keypool.Manager.{
  Manager, Served, attempt, candidates, after_attempt, advance, draw, answer_of,
  get_key_for_feature, find, draw_found, key_by_id,
}

-- Each attempt on a key of the pool keeps `P`, and so does the step of the round-robin counter.
pub record IsKept {ℓ} (P : Manager → Type ℓ) : Type ℓ where
  pub attempted :
      (m : Manager) (feature : String) (p : ℕ) (k : PoolKey) (t u : ℕ)
      → get_elem? m.keys p ≡ some k
      → P m
      → P (after_attempt m p (attempt k feature t u))
  pub advanced : (m : Manager) → P m → P (advance m)

module _ {ℓ} (P : Manager → Type ℓ) (kept : IsKept P) (feature : String) (clock : ℕ → ℕ) where
  module _ (fuel : ℕ) (m : Manager) (n : ℕ) (left : List ℕ) (p : ℕ) (k k' : PoolKey)
      (chosen : get_elem? left (m.next % length left) ≡ some p)
      (held : get_elem? m.keys p ≡ some k) where
    draw_round-kept :
        (o : Option Consumed)
        → attempt k feature (clock n) (clock (n + 1)) ≡ (k', o)
        → P (after_attempt (advance m) p (k', o))
        → P
            (draw fuel
              (after_attempt (advance m) p (k', o))
              feature
              clock
              (n + 2)
              (erase_idx left (m.next % length left))).0
        → P (draw (suc fuel) m feature clock n left).0
    draw_round-kept (some r) e here later =
        rw (draw-passed fuel m feature clock n left p k k' chosen held r e) here
    draw_round-kept none e here later =
        rw (draw-refused fuel m feature clock n left p k k' chosen held e) later

  pub draw-kept :
      (fuel : ℕ) (m : Manager) (n : ℕ) (left : List ℕ)
      → P m
      → P (draw fuel m feature clock n left).0
  unfolding draw
  draw-kept zero m n left h = h
  draw-kept (suc fuel) m n left h = elim (Option-cases (get_elem? left (m.next % length left))) [
    | inl e ↦ rw (e, draw) h
    | inr (p, chosen) ↦ elim (Option-cases (get_elem? m.keys p)) [
      | inl e ↦ rw (chosen, e, draw) (kept.advanced m h)
      | inr (k, held) ↦
          let tried =
            kept.attempted (advance m) feature p k (clock n) (clock (n + 1)) held
              (kept.advanced m h) in
          draw_round-kept fuel m n left p k _ chosen held _ refl tried
            (draw-kept fuel _ (n + 2) _ tried)
    ]
  ]

  answer_of-kept :
      (offered : Bool) (r : Manager × Option Served) → P r.0 → P (answer_of offered r).0
  answer_of-kept offered (m, some s) h = h
  answer_of-kept offered (m, none) h = h

  pub get_key_for_feature-kept :
      (allowed : Option (Dict Bool)) (m : Manager)
      → P m
      → P (get_key_for_feature m feature allowed clock).0
  unfolding get_key_for_feature
  get_key_for_feature-kept allowed m h =
      answer_of-kept _ _
        (draw-kept _ m (length m.keys) (candidates allowed feature clock 0 m.keys).1 h)

  draw_found-kept :
      (offered ready : Bool) (m : Manager) (p : ℕ) (tried : PoolKey × Option Consumed)
      → P m
      → P (after_attempt m p tried)
      → P (draw_found offered ready m p tried).0
  draw_found-kept false ready m p tried h later = h
  draw_found-kept true false m p tried h later = h
  draw_found-kept true true m p tried h later = later

  pub key_by_id-kept :
      (allowed : Option (Dict Bool)) (m : Manager) (id : String)
      → P m
      → P (key_by_id m id feature allowed clock).0
  unfolding key_by_id
  key_by_id-kept allowed m id h = go (find id m.keys) refl
    where
      go :
          (r : Option (ℕ × PoolKey))
          → find id m.keys ≡ r
          → P (key_by_id m id feature allowed clock).0
      go none e = rw (e, key_by_id) h
      go (some (p, k)) e =
          rw (e, key_by_id)
            (draw_found-kept _ _ m p _ h (
              kept.attempted m feature p k (clock 1) (clock 2)
                (subst (Finds id m.keys) e (find-Finds id m.keys)).0 h))
