-- ===== src/Api/Auth/Current.antt =====
-- The cache against the database: who is let in is who the database lets in.
use keypooler.Base.{
  not_both, ◌⊎◌, ℕ, ◌+◌, ◌≡◌, refl, sym, ap, ◌∙◌, subst, inl, inr, String, Bool, true, false,
  Option, none, some, arith, ltb, str_eq, eq_iff, if◌then◌else◌, Bool-cases,
}
use keypooler.Base.Dict.{lookup, lookup-insert}
use keypooler.Db.{Consumer}
use keypooler.Api.Auth.{
  KeyCaller, AuthEntry, AuthCache, fresh_caller, get, put, Directory, caller_of, Lookup, found,
  not_found, read_failed, Conditions, checked_caller, known_caller, read_caller, cached_or_read,
  consumer_caller,
}

-- The database holds a consumer with this hash, and this is its caller with its scopes.
pub record IsKnown (d : Directory) (hash : String) (caller : KeyCaller) : Type 0 where
  pub consumer : Consumer
  pub held : d.by_token_hash hash ≡ some consumer
  pub hashed : str_eq consumer.token_hash hash ≡ true
  pub scoped : caller ≡ caller_of d consumer

-- Every entry of the cache is what the database would say.
abbrev pub IsCurrent : Directory → AuthCache → Type 0
IsCurrent d c =
    (hash : String) (e : AuthEntry) → lookup hash c.entries ≡ some e → IsKnown d hash e.caller

-- The database holds a consumer with this hash.
abbrev pub IsHeld : Directory → String → Type 0
IsHeld d hash =
    (consumer : Consumer) × (d.by_token_hash hash ≡ some consumer)
    × (str_eq consumer.token_hash hash ≡ true)

-- What a lookup says of the database and of its reads: the consumer is read, or it is read that there is none, or
-- the read of the consumer fails, or that of its scopes.
abbrev pub Tells : Directory → String → Conditions → Lookup → Type 0
Tells d hash w (found caller) = IsKnown d hash caller
Tells d hash w not_found = (w.consumer_read ≡ true) × (IsHeld d hash → ⊥)
Tells d hash w read_failed = (w.consumer_read ≡ false) ⊎ ((w.scopes_read ≡ false) × IsHeld d hash)

same_hash : (h j : String) → str_eq h j ≡ true → h ≡ j
same_hash h j e = ground (arith, eq_iff h j)

entry_inj : (a e : AuthEntry) → some a ≡ some e → a ≡ e
entry_inj a e h = cc

caller_inj : (a e : KeyCaller) → some a ≡ some e → a ≡ e
caller_inj a e h = cc

consumer_inj : (a e : Consumer) → some a ≡ some e → a ≡ e
consumer_inj a e h = cc

put-IsCurrent :
    (d : Directory) (c : AuthCache) (hash : String) (caller : KeyCaller) (now : ℕ)
    → IsKnown d hash caller
    → IsCurrent d c
    → IsCurrent d (put c hash caller now)
unfolding put
put-IsCurrent d c hash caller now known h asked e g = elim (Bool-cases (str_eq hash asked)) [
  | inl same ↦
      let stored = ap (λ b. if b then some (entry c) else lookup asked c.entries) same in
      subst (λ j. IsKnown d j e.caller) (same_hash hash asked same)
        (subst (λ (x : AuthEntry). IsKnown d hash x.caller)
          (entry_inj (entry c) e (sym (lookup-insert hash asked (entry c) c.entries ∙ stored) ∙ g))
          known)
  | inr other ↦ h asked e (
      sym (
        lookup-insert hash asked (entry c) c.entries
        ∙ ap (λ b. if b then some (entry c) else lookup asked c.entries) other)
      ∙ g)
]
  where
    entry : AuthCache → AuthEntry
    entry c = record { caller = caller; expires = now + c.ttl }

-- What a lookup leaves and finds.
abbrev pub Sound : Directory → String → Conditions → AuthCache × Lookup → Type 0
Sound d hash w (c, l) = IsCurrent d c × Tells d hash w l

checked_caller-Sound :
    (d : Directory) (c : AuthCache) (hash : String) (w : Conditions) (now : ℕ) (consumer : Consumer)
    (same scopes_read : Bool)
    → w.consumer_read ≡ true
    → w.scopes_read ≡ scopes_read
    → d.by_token_hash hash ≡ some consumer
    → str_eq consumer.token_hash hash ≡ same
    → IsCurrent d c
    → Sound d hash w (checked_caller c d hash now consumer same scopes_read)
checked_caller-Sound d c hash w now consumer false scopes_read read scopes e m h = (
  h,
  (
    read,
    λ (other, g, eq). not_both _ eq (
        subst (λ (x : Consumer). str_eq x.token_hash hash ≡ false)
          (consumer_inj consumer other (sym e ∙ g)) m),
  ),
)
checked_caller-Sound d c hash w now consumer true false read scopes e m h =
    (h, inr (scopes, (consumer, e, m)))
checked_caller-Sound d c hash w now consumer true true read scopes e m h =
    let known : IsKnown d hash (caller_of d consumer) = record {
      consumer = consumer;
      held = e;
      hashed = m;
      scoped = refl;
    } in
    (put-IsCurrent d c hash (caller_of d consumer) now known h, known)

no_consumer : (x : Consumer) → none ≡ some x → ⊥
no_consumer x q = cc

known_caller-Sound :
    (d : Directory) (c : AuthCache) (hash : String) (w : Conditions) (consumer : Option Consumer)
    → w.consumer_read ≡ true
    → d.by_token_hash hash ≡ consumer
    → IsCurrent d c
    → Sound d hash w (known_caller c d hash w.put_at w.scopes_read consumer)
known_caller-Sound d c hash w none read e h =
    (h, (read, λ (consumer, g, same). no_consumer consumer (sym e ∙ g)))
known_caller-Sound d c hash w (some consumer) read e h =
    checked_caller-Sound d c hash w w.put_at consumer (str_eq consumer.token_hash hash)
      w.scopes_read read refl e refl h

read_caller-Sound :
    (d : Directory) (c : AuthCache) (hash : String) (w : Conditions) (consumer_read : Bool)
    → w.consumer_read ≡ consumer_read
    → IsCurrent d c
    → Sound d hash w (read_caller c d hash w consumer_read)
read_caller-Sound d c hash w false read h = (h, inl read)
read_caller-Sound d c hash w true read h =
    known_caller-Sound d c hash w (d.by_token_hash hash) read refl h

get-IsKnown :
    (d : Directory) (c : AuthCache) (hash : String) (now : ℕ) (entry : Option AuthEntry)
    (caller : KeyCaller)
    → lookup hash c.entries ≡ entry
    → fresh_caller entry now ≡ some caller
    → IsCurrent d c
    → IsKnown d hash caller
get-IsKnown d c hash now none caller e f h = cc
get-IsKnown d c hash now (some a) caller e f h = elim (Bool-cases (ltb a.expires now)) [
  | inl old ↦ absurd (no_caller (sym (ap (λ b. if b then none else some a.caller) old) ∙ f))
  | inr fresh ↦
      subst (IsKnown d hash)
        (caller_inj a.caller caller (sym (ap (λ b. if b then none else some a.caller) fresh) ∙ f))
        (h hash a e)
]
  where
    no_caller : none ≡ some caller → ⊥
    no_caller q = cc

cached_or_read-Sound :
    (d : Directory) (c : AuthCache) (hash : String) (w : Conditions) (cached : Option KeyCaller)
    → get c hash w.got_at ≡ cached
    → IsCurrent d c
    → Sound d hash w (cached_or_read c d hash w cached)
unfolding get
cached_or_read-Sound d c hash w (some caller) e h =
    (h, get-IsKnown d c hash w.got_at (lookup hash c.entries) caller refl e h)
cached_or_read-Sound d c hash w none e h = read_caller-Sound d c hash w w.consumer_read refl h

pub consumer_caller-Sound :
    (d : Directory) (c : AuthCache) (hash : String) (w : Conditions)
    → IsCurrent d c
    → Sound d hash w (consumer_caller c d hash w)
unfolding consumer_caller
consumer_caller-Sound d c hash w h = cached_or_read-Sound d c hash w (get c hash w.got_at) refl h
