-- ===== src/Api/Rejection.antt =====
-- Why `resolveKeyCaller` turns a request away, by what the two reads of the adapter give.
use keypooler.Base.{
  ◌≡◌, refl, ap, ◌∙◌, subst, ◌⊎◌, inl, inr, ℕ, true, false, Option, none, some, [], str_eq, is_some,
  or_else, Bool-cases,
}
use keypooler.Crypto.{Bytes}
use keypooler.Db.{Consumer}
use keypooler.Api.Auth.{same_bytes, bearer_token, rejected, unauthorized, internal_error}
use keypooler.Api.Auth.Current.{IsHeld}
use keypooler.Api.Auth.Admission.{Admits}
use keypooler.Api.Server.{Setup, Request, scopes_work, directory, asked}

none_of : {A : Type 0} → (o : Option A) → is_some o ≡ false → o ≡ none
none_of none e = refl
none_of (some a) e = cc

module _ {S : Type 0} (setup : Setup S) where
  -- A read that the caller of this token needs fails: that of the consumer, or of the scopes of the one that is found.
  abbrev pub ReadFails : S → Bytes → Type 0
  ReadFails s token =
      (setup.adapter.get_consumer_by_token_hash s (setup.hash_token token) ≡ none)
      ⊎ ((c : Consumer) × (setup.adapter.get_consumer_by_token_hash s (setup.hash_token token)
            ≡ some (some c))
          × (setup.adapter.get_consumer_scopes s c.id ≡ none))

  -- The read of the consumer works, and there is none with the token's hash.
  abbrev pub BelongsToNone : S → Bytes → Type 0
  BelongsToNone s token =
      (found : Option Consumer) × (setup.adapter.get_consumer_by_token_hash s
          (setup.hash_token token)
        ≡ some found)
      × ((c : Consumer) → found ≡ some c → str_eq c.token_hash (setup.hash_token token) ≡ false)

  -- The reason for each status with which a request is turned away.
  abbrev pub Unadmitted : S → Bytes → ℕ → Type 0
  Unadmitted s header status =
      ((bearer_token header ≡ none) × (status ≡ unauthorized))
      ⊎ ((token : Bytes) × (bearer_token header ≡ some token)
          × (same_bytes token setup.admin_token ≡ false)
          × (((status ≡ internal_error) × ReadFails s token)
              ⊎ ((status ≡ unauthorized) × BelongsToNone s token)))

  -- What the lookup of a token says, over the conditions that the adapter's reads make.
  abbrev Failed : S → Bytes → Bytes → Type 0
  Failed s token t =
      let o = setup.adapter.get_consumer_by_token_hash s (setup.hash_token t) in
      (is_some o ≡ false)
      ⊎ ((scopes_work setup s o ≡ false) × IsHeld (directory setup s) (setup.hash_token token))

  failed-ReadFails :
      (s : S) (token : Bytes) (o : Option (Option Consumer))
      → setup.adapter.get_consumer_by_token_hash s (setup.hash_token token) ≡ o
      → (is_some o ≡ false)
        ⊎ ((scopes_work setup s o ≡ false) × IsHeld (directory setup s) (setup.hash_token token))
      → ReadFails s token
  failed-ReadFails s token none e h = inl e
  failed-ReadFails s token (some o) e (inl f) = cc
  failed-ReadFails s token (some none) e (inr (f, held)) = cc
  failed-ReadFails s token (some (some c)) e (inr (f, held)) = inr (c, e, none_of _ f)

  unheld-BelongsToNone :
      (s : S) (token : Bytes) (o : Option (Option Consumer))
      → setup.adapter.get_consumer_by_token_hash s (setup.hash_token token) ≡ o
      → is_some o ≡ true
      → (IsHeld (directory setup s) (setup.hash_token token) → ⊥)
      → BelongsToNone s token
  unheld-BelongsToNone s token none e f h = cc
  unheld-BelongsToNone s token (some found) e f h = (
    found,
    e,
    λ c q. elim (Bool-cases (str_eq c.token_hash (setup.hash_token token))) [
      | inl same ↦ absurd (h (c, ap (λ o. or_else o none) e ∙ q, same))
      | inr other ↦ other
    ],
  )

  pub rejected-Unadmitted :
      (req : Request) (s : S) (status : ℕ)
      → Admits setup.hash_token setup.admin_token
          (directory setup s)
          (asked setup s req)
          req.authorization
          (rejected status)
      → Unadmitted s req.authorization status
  rejected-Unadmitted req s status (inl h) = inl h
  rejected-Unadmitted req s status (inr (token, present, other, inl (e, failed))) = inr (
    token,
    present,
    other,
    inl (
      e,
      failed-ReadFails s token _ refl
          (subst (Failed s token) (ap (λ o. or_else o []) present) failed),
    ),
  )
  rejected-Unadmitted req s status (inr (token, present, other, inr (e, (read, unheld)))) = inr (
    token,
    present,
    other,
    inr (
      e,
      unheld-BelongsToNone s token _ refl
          (subst
            (λ t. is_some (setup.adapter.get_consumer_by_token_hash s (setup.hash_token t)) ≡ true)
            (ap (λ o. or_else o []) present) read)
          unheld,
    ),
  )
