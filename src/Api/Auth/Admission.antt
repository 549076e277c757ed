-- ===== src/Api/Auth/Admission.antt =====
-- Who is let in, after any sequence of requests and admin writes.
use keypooler.Base.{
  ℕ, ◌≡◌, refl, sym, ap, ◌∙◌, subst, ◌⊎◌, inl, inr, String, Bool, true, false, not, ◌&&◌, Option,
  none, some, List, [], ◌∷◌, str_eq, if◌then◌else◌,
}
use keypooler.Base.Dict.{lookup}
use keypooler.Crypto.{Bytes}
use keypooler.Api.Auth.{
  same_bytes, bearer_token, Reply, accepted, rejected, unauthorized, internal_error, KeyCaller,
  AuthEntry, AuthCache, new_auth_cache, clear_after_write, Directory, admin_caller, Lookup, found,
  not_found, read_failed, Conditions, consumer_caller, reply_of, resolve_compared, resolve_token,
  resolve_key_caller,
}
use keypooler.Api.Auth.Current.{IsKnown, IsCurrent, Tells, Sound, consumer_caller-Sound}

module _ (hash_token : Bytes → String) (admin_token : Bytes) where
  -- Who a header lets in, and who is turned away and why, by the reply.
  abbrev pub Admits : Directory → Conditions → Bytes → Reply KeyCaller → Type 0
  Admits d w header (accepted caller) =
      (token : Bytes) × (bearer_token header ≡ some token)
      × (((same_bytes token admin_token ≡ true) × (caller ≡ admin_caller))
          ⊎ ((same_bytes token admin_token ≡ false) × IsKnown d (hash_token token) caller))
  Admits d w header (rejected status) =
      ((bearer_token header ≡ none) × (status ≡ unauthorized))
      ⊎ ((token : Bytes) × (bearer_token header ≡ some token)
          × (same_bytes token admin_token ≡ false)
          × (((status ≡ internal_error) × Tells d (hash_token token) w read_failed)
              ⊎ ((status ≡ unauthorized) × Tells d (hash_token token) w not_found)))

  abbrev pub Decides : Directory → Conditions → Bytes → AuthCache × Reply KeyCaller → Type 0
  Decides d w header (c, r) = IsCurrent d c × Admits d w header r

  reply_of-Decides :
      (d : Directory) (w : Conditions) (header token : Bytes) (l : AuthCache × Lookup)
      → bearer_token header ≡ some token
      → same_bytes token admin_token ≡ false
      → Sound d (hash_token token) w l
      → Decides d w header (reply_of l)
  reply_of-Decides d w header token (c, found caller) e n (h, known) =
      (h, (token, e, inr (n, known)))
  reply_of-Decides d w header token (c, not_found) e n (h, none_known) =
      (h, inr (token, e, n, inr (refl, none_known)))
  reply_of-Decides d w header token (c, read_failed) e n (h, u) =
      (h, inr (token, e, n, inl (refl, u)))

  resolve_compared-Decides :
      (d : Directory) (c : AuthCache) (w : Conditions) (header token : Bytes) (admin : Bool)
      → bearer_token header ≡ some token
      → same_bytes token admin_token ≡ admin
      → IsCurrent d c
      → Decides d w header (resolve_compared hash_token admin_token c d w token admin)
  resolve_compared-Decides d c w header token true e m h = (h, (token, e, inl (m, refl)))
  resolve_compared-Decides d c w header token false e m h =
      reply_of-Decides d w header token (consumer_caller c d (hash_token token) w) e m
        (consumer_caller-Sound d c (hash_token token) w h)

  resolve_token-Decides :
      (d : Directory) (c : AuthCache) (w : Conditions) (header : Bytes) (token : Option Bytes)
      → bearer_token header ≡ token
      → IsCurrent d c
      → Decides d w header (resolve_token hash_token admin_token c d w token)
  resolve_token-Decides d c w header none e h = (h, inl (e, refl))
  resolve_token-Decides d c w header (some token) e h =
      resolve_compared-Decides d c w header token (same_bytes token admin_token) e refl h

  -- The cache and the database of a server, and what happens to them: a caller is resolved, or an admin request
  -- of some method has been handled, which leaves another database unless it only reads.
  pub record State : Type 0 where
    pub cache : AuthCache
    pub directory : Directory

  pub data Action : Type 0 where
    resolves : Conditions → Bytes → Action
    reads : String → Action
    writes :
        (method : String)
        → str_eq method "GET" ≡ false
        → str_eq method "HEAD" ≡ false
        → Directory
        → Action

  pub step : State → Action → State
  step s (resolves w header) = record s {
    cache = (resolve_key_caller hash_token admin_token s.cache s.directory w header).0;
  }
  step s (reads method) = record s { cache = clear_after_write s.cache method }
  step s (writes method g h d) = record { cache = clear_after_write s.cache method; directory = d }

  pub run : State → List Action → State
  run s [] = s
  run s (a ∷ rest) = run (step s a) rest

  pub resolve_key_caller-Decides :
      (d : Directory) (c : AuthCache) (w : Conditions) (header : Bytes)
      → IsCurrent d c
      → Decides d w header (resolve_key_caller hash_token admin_token c d w header)
  unfolding resolve_key_caller
  resolve_key_caller-Decides d c w header h =
      resolve_token-Decides d c w header (bearer_token header) refl h

  no_entry : (e : AuthEntry) → none ≡ some e → ⊥
  no_entry e q = cc

  abbrev pub emptied : Bool → AuthCache → AuthCache
  emptied clears c = if clears then record c { entries = [] } else c

  pub cleared-IsCurrent :
      (d : Directory) (c : AuthCache) (clears : Bool)
      → clears ≡ true
      → IsCurrent d (emptied clears c)
  unfolding lookup
  cleared-IsCurrent d c true e = λ hash entry g. absurd (no_entry entry g)
  cleared-IsCurrent d c false e = cc

  pub emptied-IsCurrent :
      (d d' : Directory) (c : AuthCache) (clears : Bool)
      → IsCurrent d c
      → (clears ≡ true) ⊎ (d' ≡ d)
      → IsCurrent d' (emptied clears c)
  emptied-IsCurrent d d' c true h why = cleared-IsCurrent d' c true refl
  emptied-IsCurrent d d' c false h (inl never) = cc
  emptied-IsCurrent d d' c false h (inr same) = subst (λ x. IsCurrent x c) (sym same) h

  step-IsCurrent :
      (s : State) (a : Action)
      → IsCurrent s.directory s.cache
      → IsCurrent (step s a).directory (step s a).cache
  unfolding step clear_after_write
  step-IsCurrent s (resolves w header) h =
      (resolve_key_caller-Decides s.directory s.cache w header h).0
  step-IsCurrent s (reads method) h =
      emptied-IsCurrent s.directory s.directory s.cache _ h (inr refl)
  step-IsCurrent s (writes method g k d) h =
      emptied-IsCurrent s.directory d s.cache _ h
        (inl (ap (λ b. not b && not (str_eq method "HEAD")) g ∙ ap not k))

  run-IsCurrent :
      (acts : List Action) (s : State)
      → IsCurrent s.directory s.cache
      → IsCurrent (run s acts).directory (run s acts).cache
  unfolding run
  run-IsCurrent [] s h = h
  run-IsCurrent (a ∷ rest) s h = run-IsCurrent rest (step s a) (step-IsCurrent s a h)

  pub start : ℕ → Directory → State
  start ttl d = record { cache = new_auth_cache ttl; directory = d }

  pub start-IsCurrent : (ttl : ℕ) (d : Directory) → IsCurrent d (new_auth_cache ttl)
  unfolding new_auth_cache lookup
  start-IsCurrent ttl d = λ hash e g. absurd (no_entry e g)

  -- Whatever requests and admin writes have been handled, each write whole, the reply to a header is
  -- the one that the database as it then is gives, cached or not: a caller is let in just as the admin, by the admin
  -- token, or as a consumer that the database holds under the token's hash, with the scopes it has now; one that is
  -- turned away with 401 has no bearer token, or the consumer was read and it is neither the admin token nor that of such a
  -- consumer; and with 500 only where the read of the consumer failed, or it is such a consumer and the read of its
  -- scopes failed.
  pub resolve_key_caller-Admits :
      (ttl : ℕ) (d : Directory) (acts : List Action) (w : Conditions) (header : Bytes)
      → let s = run (start ttl d) acts in
        Admits s.directory w header
          (resolve_key_caller hash_token admin_token s.cache s.directory w header).1
  unfolding start
  resolve_key_caller-Admits ttl d acts w header =
      (resolve_key_caller-Decides _ _ w header
        (run-IsCurrent acts (start ttl d) (start-IsCurrent ttl d))).1
