-- ===== src/Api/Draws/Outcome.antt =====
-- What `GetKey` answers, and why.
use keypooler.Base.{
  not_both, ℕ, ◌+◌, ◌≡◌, ◌≢◌, refl, ◌⊎◌, inl, inr, String, Bool, true, false, Option, none, some,
  str_eq, get_elem?,
}
use keypooler.Base.Dict.{Dict}
use keypooler.Crypto.{Bytes, Result, ok, err, SealError, open_sealed}
use keypooler.Writeback.{event}
use keypooler.Keypool.Types.{PoolKey}
use keypooler.Keypool.Manager.{
  Manager, Served, PoolError, Answer, good, bad, exhausted, out_of_scope, not_found, unknown_key,
  unit_mismatch, store_failed, attempt, offers, get_key_for_feature,
}
use keypooler.Keypool.Manager.Outcome.{
  IsCandidate, Granted, Justified, get_key_for_feature-Justified,
}
use keypooler.Api.Auth.{Reply, accepted, rejected, internal_error, KeyCaller, AuthCache}
use keypooler.Api.Auth.Current.{IsCurrent}
use keypooler.Api.Auth.Admission.{Admits, resolve_key_caller-Decides}
use keypooler.Api.Rejection.{Unadmitted, rejected-Unadmitted}
use keypooler.Api.Server.{
  asked, Server, Setup, Request, Handler, Response, ◌>>=◌, ◌>>◌, reject_if, resolve_caller,
  log_event, directory, drawn_key, bad_request, forbidden, too_many_requests,
}
use keypooler.Api.Draws.{feature_status, draw_from, give_opened, give, get_key}

module _ {S : Type 0} (setup : Setup S) (req : Request) (feature : String) where
  -- The answer to a caller who is given the key `s` with the value `value`.
  abbrev pub given : Served → Bytes → Response
  given s value = record {
    status = 200;
    body =
        drawn_key
          (record { key_id = s.id; value = value; metadata = s.metadata; secrets = s.secrets });
  }

  -- Every key that the caller may have and that is available was tried and refused.
  abbrev pub NoneLeft : Manager → Option (Dict Bool) → Type 0
  NoneLeft m allowed =
      (p : ℕ) (k : PoolKey)
      → get_elem? m.keys p ≡ some k
      → IsCandidate allowed feature req.clock p k
      → (n : ℕ) × ((attempt k feature (req.clock n) (req.clock (n + 1))).1 ≡ none)

  -- The status of an answer to an admitted caller that is given no key.
  abbrev pub Refused : Manager → KeyCaller → Manager → ℕ → Type 0
  Refused m caller m' status =
      ((status ≡ bad_request) × (str_eq feature "" ≡ true))
      ⊎ ((status ≡ forbidden)
          × (caller.allowed_tier_ids ≢ none)
          × ((p : ℕ) (k : PoolKey)
              → get_elem? m.keys p ≡ some k
              → offers caller.allowed_tier_ids feature k ≡ false))
      ⊎ ((status ≡ too_many_requests) × NoneLeft m caller.allowed_tier_ids)
      ⊎ ((status ≡ internal_error)
          × ((s : Served) × (e : SealError) × Granted m feature caller.allowed_tier_ids req.clock m'
                s
              × (open_sealed setup.sealer s.key_value ≡ err e)))

  -- The event that is logged for a key that is given out.
  abbrev pub logged : Manager → KeyCaller → String → Manager
  logged m caller id = record m {
    usage = event m.usage (record {
      id = req.fresh_id;
      key_id = id;
      consumer_id = caller.consumer_id;
      feature = feature;
      created_at = req.now;
    });
  }

  abbrev Admitted : Server S → KeyCaller → Type 0
  Admitted sv caller =
      Admits setup.hash_token setup.admin_token (directory setup sv.db) (asked setup sv.db req)
        req.authorization (accepted caller)

  -- What each answer says of the server before and after.
  abbrev pub Answers : Server S → Server S × Reply Response → Type 0
  Answers sv (sv', accepted r) =
      (caller : KeyCaller) × (s : Served) × (m' : Manager) × (value : Bytes) × Admitted sv caller
      × Granted sv.pool feature caller.allowed_tier_ids req.clock m' s
      × (open_sealed setup.sealer s.key_value ≡ ok value)
      × (r ≡ given s value)
      × (sv'.pool ≡ logged m' caller s.id)
  Answers sv (sv', rejected status) =
      Unadmitted setup sv.db req.authorization status
      ⊎ ((caller : KeyCaller) × Admitted sv caller × Refused sv.pool caller sv'.pool status)

  give_opened-Answers :
      (sv sv' : Server S) (caller : KeyCaller) (s : Served) (value : Result Bytes)
      → Admitted sv caller
      → Granted sv.pool feature caller.allowed_tier_ids req.clock sv'.pool s
      → open_sealed setup.sealer s.key_value ≡ value
      → Answers sv (give_opened req caller feature s value sv')
  unfolding log_event
  give_opened-Answers sv sv' caller s (ok value) a g e =
      (caller, s, sv'.pool, value, a, g, e, refl, refl)
  give_opened-Answers sv sv' caller s (err e) a g o =
      inr (caller, a, inr (inr (inr (refl, (s, e, g, o)))))

  give-Answers :
      (sv sv' : Server S) (caller : KeyCaller) (s : Served)
      → Admitted sv caller
      → Granted sv.pool feature caller.allowed_tier_ids req.clock sv'.pool s
      → Answers sv (give setup req caller feature s sv')
  unfolding give
  give-Answers sv sv' caller s a g = give_opened-Answers sv sv' caller s _ a g refl

  -- The status of each error of the pool, for every set of tiers.
  status-Refused :
      (m m' : Manager) (consumer_id : String) (allowed : Option (Dict Bool)) (e : PoolError)
      → Justified m feature allowed req.clock (m', bad e)
      → Refused m
          (record { consumer_id = consumer_id; allowed_tier_ids = allowed })
          m'
          (feature_status allowed e)
  status-Refused m m' c none exhausted h = inr (inr (inl (refl, h.1)))
  status-Refused m m' c (some tiers) exhausted h = inr (inr (inl (refl, h.1)))
  status-Refused m m' c none out_of_scope h =
      inr (inr (inl (refl, λ p k held cand. absurd (not_both _ cand.offered (h p k held)))))
  status-Refused m m' c (some tiers) out_of_scope h = inr (inl (refl, (λ e. cc), h))
  status-Refused m m' c allowed not_found h = absurd h
  status-Refused m m' c allowed unknown_key h = absurd h
  status-Refused m m' c allowed unit_mismatch h = absurd h
  status-Refused m m' c allowed store_failed h = absurd h

  draw-Answers :
      (sv sv' : Server S) (caller : KeyCaller) (m' : Manager) (a : Answer Served)
      → Admitted sv caller
      → Justified sv.pool feature caller.allowed_tier_ids req.clock (m', a)
      → Answers sv (
          (draw_from (λ (m : Manager). (m', a)) (feature_status caller.allowed_tier_ids)
              >>= give setup req caller feature)
            sv')
  draw-Answers sv sv' caller m' (good s) a g =
      give-Answers sv (record sv' { pool = m' }) caller s a g
  draw-Answers sv sv' caller m' (bad e) a h =
      inr (caller, a, status-Refused sv.pool m' caller.consumer_id caller.allowed_tier_ids e h)

  rest : KeyCaller → Handler S Response
  rest caller =
      draw_from (λ pool. get_key_for_feature pool feature caller.allowed_tier_ids req.clock)
        (feature_status caller.allowed_tier_ids)
      >>= give setup req caller feature

  rest-Answers :
      (sv : Server S) (auth' : AuthCache) (caller : KeyCaller)
      → Admitted sv caller
      → Answers sv (rest caller (record sv { auth = auth' }))
  unfolding rest
  rest-Answers sv auth' caller a =
      draw-Answers sv (record sv { auth = auth' }) caller _ _ a
        (get_key_for_feature-Justified sv.pool feature caller.allowed_tier_ids req.clock)

  asked-Answers :
      (sv : Server S) (auth' : AuthCache) (caller : KeyCaller) (empty : Bool)
      → str_eq feature "" ≡ empty
      → Admitted sv caller
      → Answers sv ((reject_if empty bad_request >> rest caller) (record sv { auth = auth' }))
  asked-Answers sv auth' caller true e a = inr (caller, a, inl (refl, e))
  asked-Answers sv auth' caller false e a = rest-Answers sv auth' caller a

  resolved-Answers :
      (sv : Server S) (auth' : AuthCache) (r : Reply KeyCaller)
      → Admits setup.hash_token setup.admin_token
          (directory setup sv.db)
          (asked setup sv.db req)
          req.authorization
          r
      → Answers sv (
          ((λ (x : Server S). (record sv { auth = auth' }, r)) >>= λ caller.
          reject_if (str_eq feature "") bad_request >> rest caller)
            sv)
  resolved-Answers sv auth' (accepted caller) a =
      asked-Answers sv auth' caller (str_eq feature "") refl a
  resolved-Answers sv auth' (rejected status) a = inl (rejected-Unadmitted setup req sv.db status a)

  pub get_key-Answers :
      (sv : Server S)
      → IsCurrent (directory setup sv.db) sv.auth
      → Answers sv (get_key setup req feature sv)
  unfolding get_key resolve_caller rest
  get_key-Answers sv current =
      resolved-Answers sv _ _
        (resolve_key_caller-Decides setup.hash_token setup.admin_token (directory setup sv.db)
          sv.auth _ req.authorization current).1
