-- ===== src/Api/Draws/Exhaustion.antt =====
-- A key that is reported exhausted.
use keypooler.Base.{
  ℕ, ◌<◌, ◌≡◌, refl, sym, ap, subst, String, Bool, true, false, not, Option, none, some, str_eq,
}
use keypooler.Base.Dict.{Dict}
use keypooler.Keypool.Types.{PoolKey, available}
use keypooler.Keypool.Manager.{
  Manager, Served, Answer, bad, not_found, offers, attempt, find, draw_found, key_by_id,
  tier_allowed,
}
use keypooler.Keypool.Manager.Find.{Finds, find-Finds}
use keypooler.Keypool.Upkeep.{mark_found, mark_exhausted, tier_of}
use keypooler.Balance.Bench.{find-set, benched-available}
use keypooler.Api.Auth.{Reply, accepted, rejected, KeyCaller, AuthCache}
use keypooler.Api.Server.{
  Server, Setup, Request, Handler, Response, ◌>>=◌, ◌>>◌, reject_if, need, answer, resolve_caller,
  log_event, exhausted_key, bad_request, forbidden,
}
use keypooler.Api.Draws.{
  id_status, draw_from, give, own_key_for, get_key_by_id, tier_in_scope, key_in_scope, spend_store,
  mark, exhaust_for, exhaust_key,
}

-- The pool holds the key, resting until then.
abbrev pub Rests : String → ℕ → Manager → Type 0
Rests id until m =
    (p : ℕ) × (k : PoolKey) × (find id m.keys ≡ some (p, k)) × (k.exhausted_until ≡ some until)

found_draw :
    (m : Manager) (id feature : String) (allowed : Option (Dict Bool)) (clock : ℕ → ℕ) (p : ℕ)
    (k : PoolKey)
    → find id m.keys ≡ some (p, k)
    → key_by_id m id feature allowed clock
      ≡ draw_found
          (offers allowed feature k)
          (available k (clock 0))
          m
          p
          (attempt k feature (clock 1) (clock 2))
unfolding key_by_id
found_draw m id feature allowed clock p k f =
    ap
      (λ (o : Option (ℕ × PoolKey)).
        let r : Manager × Answer Served = elim o [
          | none ↦ (m, bad not_found)
          | some (q, j) ↦
              draw_found (offers allowed feature j) (available j (clock 0)) m q
                (attempt j feature (clock 1) (clock 2))
        ] in
        r)
      f

module _ {S : Type 0} (setup : Setup S) where
  -- What an answer of `ExhaustKey` says of the pool.
  abbrev Benches : String → Option String → Server S × Reply Response → Type 0
  Benches id body (sv', accepted r) =
      (text : String) × (until : ℕ) × (body ≡ some text)
      × (setup.parse_time text ≡ some until)
      × Rests id until sv'.pool
  Benches id body (sv', rejected status) = Unit

  -- The marking, with what the search for the key finds.
  abbrev mark_with : Option (ℕ × PoolKey) → String → ℕ → Handler S (Unit {0})
  mark_with o id until sv =
      let (db', pool', marked) = mark_found (spend_store setup) sv.db sv.pool id until o in
      (record sv { db = db'; pool = pool' }, accepted tt)

  abbrev tier_found : Option (ℕ × PoolKey) → Option String
  tier_found none = none
  tier_found (some (p, k)) = some k.tier_id

  abbrev told : Request → KeyCaller → String → ℕ → Handler S Response
  told req caller id until = do
    log_event req id caller.consumer_id "exhausted"
    answer 200 (exhausted_key "exhausted" (setup.format_time until))

  marked-Benches :
      (req : Request) (caller : KeyCaller) (id text tier : String) (until : ℕ)
      (o : Option (ℕ × PoolKey)) (sv : Server S)
      → setup.parse_time text ≡ some until
      → find id sv.pool.keys ≡ o
      → tier_found o ≡ some tier
      → Benches id (some text) ((mark_with o id until >> told req caller id until) sv)
  unfolding log_event
  marked-Benches req caller id text tier until none sv e f g = cc
  marked-Benches req caller id text tier until (some (p, k)) sv e f g =
      let k' : PoolKey = record k { exhausted_until = some until } in
      (
        text,
        until,
        refl,
        e,
        (
          p,
          k',
          find-set id sv.pool.keys p k k' f
              (subst (Finds id sv.pool.keys) f (find-Finds id sv.pool.keys)).1,
          refl,
        ),
      )

  allowed-Benches :
      (req : Request) (caller : KeyCaller) (id text tier : String) (until : ℕ) (out : Bool)
      (sv : Server S)
      → setup.parse_time text ≡ some until
      → tier_found (find id sv.pool.keys) ≡ some tier
      → Benches id
          (some text)
          ((reject_if out forbidden >> (mark setup id until >> told req caller id until)) sv)
  unfolding mark mark_exhausted
  allowed-Benches req caller id text tier until true sv e g = tt
  allowed-Benches req caller id text tier until false sv e g =
      marked-Benches req caller id text tier until (find id sv.pool.keys) sv e refl g

  scoped-Benches :
      (req : Request) (caller : KeyCaller) (id text : String) (until : ℕ) (tier : Option String)
      (sv : Server S)
      → setup.parse_time text ≡ some until
      → tier_found (find id sv.pool.keys) ≡ tier
      → Benches id (some text) (
          (tier_in_scope setup caller tier >> (mark setup id until >> told req caller id until)) sv)
  scoped-Benches req caller id text until none sv e g = tt
  scoped-Benches req caller id text until (some tier) sv e g =
      allowed-Benches req caller id text tier until
        (not (tier_allowed caller.allowed_tier_ids tier)) sv e g

  parsed-Benches :
      (req : Request) (caller : KeyCaller) (id text : String) (time : Option ℕ) (sv : Server S)
      → setup.parse_time text ≡ time
      → Benches id (some text) (
          (need bad_request time >>= λ until.
          key_in_scope setup caller id >> (mark setup id until >> told req caller id until))
            sv)
  unfolding key_in_scope tier_of
  parsed-Benches req caller id text none sv e = tt
  parsed-Benches req caller id text (some until) sv e =
      scoped-Benches req caller id text until (tier_found (find id sv.pool.keys)) sv e refl

  exhaust_for-Benches :
      (req : Request) (id : String) (body : Option String) (caller : KeyCaller) (sv : Server S)
      → Benches id body (exhaust_for setup req id body caller sv)
  exhaust_for-Benches req id none caller sv = tt
  exhaust_for-Benches req id (some text) caller sv =
      parsed-Benches req caller id text (setup.parse_time text) sv refl

  resolved-Benches :
      (req : Request) (id : String) (body : Option String) (sv : Server S) (r : Reply KeyCaller)
      → Benches id body (((λ (x : Server S). (sv, r)) >>= exhaust_for setup req id body) sv)
  resolved-Benches req id body sv (accepted caller) = exhaust_for-Benches req id body caller sv
  resolved-Benches req id body sv (rejected status) = tt

  exhaust_key-Benches :
      (req : Request) (id : String) (body : Option String) (sv : Server S)
      → Benches id body (exhaust_key setup req id body sv)
  unfolding exhaust_key resolve_caller
  exhaust_key-Benches req id body sv = resolved-Benches req id body _ _

  abbrev pub IsRejected : Server S × Reply Response → Type 0
  IsRejected (sv', accepted r) = ⊥
  IsRejected (sv', rejected status) = Unit

  refused_draw :
      (req : Request) (id feature : String) (caller : KeyCaller) (offered ready : Bool)
      (m : Manager) (p : ℕ) (tried : _) (sv : Server S)
      → ready ≡ false
      → IsRejected (
          (draw_from (λ (x : Manager). draw_found offered ready m p tried) id_status
              >>= give setup req caller feature)
            sv)
  refused_draw req id feature caller false ready m p tried sv h = tt
  refused_draw req id feature caller true false m p tried sv h = tt
  refused_draw req id feature caller true true m p tried sv h = cc

  asked-IsRejected :
      (req : Request) (id feature : String) (caller : KeyCaller) (empty : Bool) (sv : Server S)
      → (until : ℕ) → Rests id until sv.pool
      → ((n : ℕ) → req.clock n < until)
      → IsRejected (
          (reject_if empty bad_request
              >> (draw_from
                    (λ pool. key_by_id pool id feature caller.allowed_tier_ids req.clock)
                    id_status
                  >>= give setup req caller feature))
            sv)
  unfolding key_by_id
  asked-IsRejected req id feature caller true sv until rests early = tt
  asked-IsRejected req id feature caller false sv until (p, k, f, e) early =
      subst
        (λ (d : Manager × Answer Served).
          IsRejected
            ((draw_from (λ (x : Manager). d) id_status >>= give setup req caller feature) sv))
        (sym (found_draw sv.pool id feature caller.allowed_tier_ids req.clock p k f))
        (refused_draw req id feature caller (offers caller.allowed_tier_ids feature k)
          (available k (req.clock 0)) sv.pool p (attempt k feature (req.clock 1) (req.clock 2)) sv
          (benched-available k until (req.clock 0) (early 0) e))

  resolved-IsRejected :
      (req : Request) (id feature : String) (until : ℕ) (sv : Server S) (auth' : AuthCache)
      (r : Reply KeyCaller)
      → Rests id until sv.pool
      → ((n : ℕ) → req.clock n < until)
      → IsRejected (
          ((λ (x : Server S). (record sv { auth = auth' }, r)) >>= own_key_for setup req id feature)
            sv)
  resolved-IsRejected req id feature until sv auth' (rejected status) rests early = tt
  resolved-IsRejected req id feature until sv auth' (accepted caller) rests early =
      asked-IsRejected req id feature caller (str_eq feature "") (record sv { auth = auth' }) until
        rests early

  -- The same in any later server whose pool still lets the key rest.
  get_key_by_id-IsRejected :
      (req : Request) (id feature : String) (until : ℕ) (sv : Server S)
      → Rests id until sv.pool
      → ((n : ℕ) → req.clock n < until)
      → IsRejected (get_key_by_id setup req id feature sv)
  unfolding get_key_by_id resolve_caller
  get_key_by_id-IsRejected req id feature until sv rests early =
      resolved-IsRejected req id feature until sv _ _ rests early

  same_time :
      (text text' : String) (until until' : ℕ)
      → setup.parse_time text ≡ some until
      → ◌≡◌ {A = Option String} (some text) (some text')
      → setup.parse_time text' ≡ some until'
      → until' ≡ until
  same_time text text' until until' e g f = cc

  -- Where `ExhaustKey` answers with 200, the pool holds the key resting until the time that the caller reported,
  -- whether or not the database took the mark; asked next, `GetKeyByID` gives the key to nobody as long as it reads the clock
  -- before that time.
  pub exhaust_key-Rests :
      (req req' : Request) (id feature text : String) (until : ℕ) (sv sv' : Server S) (r : Response)
      → setup.parse_time text ≡ some until
      → exhaust_key setup req id (some text) sv ≡ (sv', accepted r)
      → ((n : ℕ) → req'.clock n < until)
      → Rests id until sv'.pool × IsRejected (get_key_by_id setup req' id feature sv')
  exhaust_key-Rests req req' id feature text until sv sv' r parsed e early =
      let (text', until', wanted, again, rests) =
        subst (Benches id (some text)) e (exhaust_key-Benches req id (some text) sv) in
      let rests' =
        subst (λ t. Rests id t sv'.pool) (same_time text text' until until' parsed wanted again)
          rests in
      (rests', get_key_by_id-IsRejected req' id feature until sv' rests' early)
