-- ===== src/Api/Draws/Scope.antt =====
-- No caller is given a key outside of its scopes.
use keypooler.Base.{
  both_parts, ℕ, ◌≡◌, sym, ap, ◌∙◌, subst, ◌⊎◌, inl, inr, String, Bool, true, false, some, List, [],
  ◌∷◌, str_eq, if◌then◌else◌, or_else, Bool-cases, get_elem?,
}
use keypooler.Base.Dict.{Dict, lookup, insert, lookup-insert}
use keypooler.Crypto.{Bytes, ok, open_sealed}
use keypooler.Db.{Consumer}
use keypooler.Keypool.Types.{PoolKey, has_feature}
use keypooler.Keypool.Manager as Manager
use keypooler.Keypool.Manager.{Served, tier_allowed, offers}
use keypooler.Keypool.Manager.Outcome.{Granted-serve}
use keypooler.Api.Auth.{
  Conditions, accepted, KeyCaller, Directory, same_bytes, bearer_token, allow_all, caller_of,
}
use keypooler.Api.Auth.Current.{IsCurrent}
use keypooler.Api.Auth.Admission.{Admits}
use keypooler.Api.Server.{drawn_key, asked, Server, Setup, Request, Response, directory}
use keypooler.Api.Draws.{get_key}
use keypooler.Api.Draws.Outcome.{Answers, given, get_key-Answers}

-- The text stands in the list.
abbrev pub Has : String → List String → Type 0
Has x [] = ⊥
Has x (y ∷ ys) = (str_eq y x ≡ true) ⊎ Has x ys

allow_all-Has :
    (tier : String) (ids : List String) (allowed : Dict Bool)
    → or_else (lookup tier (allow_all allowed ids)) false ≡ true
    → (or_else (lookup tier allowed) false ≡ true) ⊎ Has tier ids
unfolding allow_all
allow_all-Has tier [] allowed h = inl h
allow_all-Has tier (id ∷ ids) allowed h = elim (allow_all-Has tier ids (insert id true allowed) h) [
  | inr later ↦ inr (inr later)
  | inl here ↦ elim (Bool-cases (str_eq id tier)) [
    | inl same ↦ inr (inl same)
    | inr other ↦ inl (
        ap (λ o. or_else o false)
          (sym (ap (λ b. if b then some true else lookup tier allowed) other)
            ∙ sym (lookup-insert id tier true allowed))
        ∙ here)
  ]
]

caller_of-Has :
    (d : Directory) (c : Consumer) (tier : String)
    → tier_allowed (caller_of d c).allowed_tier_ids tier ≡ true
    → Has tier (d.scopes c.id)
unfolding caller_of tier_allowed lookup
caller_of-Has d c tier h = elim (allow_all-Has tier (d.scopes c.id) [] h) [
  | inl never ↦ cc
  | inr listed ↦ listed
]

module _ {S : Type 0} (setup : Setup S) (req : Request) where
  -- The bearer token is the admin's, or that of a consumer of the database that has this tier in its scopes.
  abbrev pub Entitled : Directory → String → Type 0
  Entitled d tier =
      (token : Bytes) × (bearer_token req.authorization ≡ some token)
      × ((same_bytes token setup.admin_token ≡ true)
          ⊎ ((c : Consumer) × (d.by_token_hash (setup.hash_token token) ≡ some c)
              × Has tier (d.scopes c.id)))

  -- The answer to a caller that is given this key, with this value.
  abbrev pub gives : PoolKey → Bytes → Response
  gives k value = record {
    status = 200;
    body =
        drawn_key
          (record { key_id = k.id; value = value; metadata = k.metadata; secrets = k.secrets });
  }

  -- The answer gives out a key of the pool, under its own id, with its value opened, its metadata and its secrets:
  -- one that serves the feature, and to whose tier the caller is entitled.
  abbrev pub GivesOwn : String → Server S → Response → Type 0
  GivesOwn feature sv r =
      (p : ℕ) × (k : PoolKey) × (value : Bytes) × (get_elem? sv.pool.keys p ≡ some k)
      × (has_feature k feature ≡ true)
      × Entitled (directory setup sv.db) k.tier_id
      × (open_sealed setup.sealer k.key_value ≡ ok value)
      × (r ≡ gives k value)

  admitted-Entitled :
      (d : Directory) (w : Conditions) (tier : String) (caller : KeyCaller)
      → Admits setup.hash_token setup.admin_token d w req.authorization (accepted caller)
      → tier_allowed caller.allowed_tier_ids tier ≡ true
      → Entitled d tier
  admitted-Entitled d w tier caller (token, e, inl (admin, is_admin)) h = (token, e, inl admin)
  admitted-Entitled d w tier caller (token, e, inr (other, known)) h = (
    token,
    e,
    inr (
      known.consumer,
      known.held,
      caller_of-Has d known.consumer tier
          (subst (λ (x : KeyCaller). tier_allowed x.allowed_tier_ids tier ≡ true) known.scoped h),
    ),
  )

  Answers-GivesOwn :
      (feature : String) (sv sv' : Server S) (r : Response)
      → Answers setup req feature sv (sv', accepted r)
      → GivesOwn feature sv r
  unfolding offers Manager.serve
  Answers-GivesOwn feature sv sv' r (caller, s, m', value, a, g, opened, answer, pool) =
      let (open_tier, has) = both_parts _ _ g.candidate.offered in
      let same = Granted-serve g in
      (
        g.position,
        g.key,
        value,
        g.held,
        has,
        admitted-Entitled (directory setup sv.db) (asked setup sv.db req) g.key.tier_id caller a
            open_tier,
        ap (λ x. open_sealed setup.sealer x.key_value) (sym same) ∙ opened,
        answer ∙ ap (λ x. given setup req feature x value) same,
      )

  -- While the cache is in step with the database, whoever is answered with a key by `GetKey` presents the admin
  -- token or that of a consumer of the database, which has the key's tier in its scopes; the key stands in
  -- the pool, its tier has the feature, and the answer holds its id, its opened value, its metadata and its secrets.
  pub get_key-GivesOwn :
      (feature : String) (sv sv' : Server S) (r : Response)
      → IsCurrent (directory setup sv.db) sv.auth
      → get_key setup req feature sv ≡ (sv', accepted r)
      → GivesOwn feature sv r
  get_key-GivesOwn feature sv sv' r current e =
      Answers-GivesOwn feature sv sv' r
        (subst (Answers setup req feature sv) e (get_key-Answers setup req feature sv current))
