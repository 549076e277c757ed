-- ===== src/Api/Router/Keeps.antt =====
-- What the handlers of internal/api leave alone: the cache of callers, and the consumers and scopes of the database.
use keypooler.Base.{ℕ, ◌≡◌, refl, ◌∙◌, String, Bool, true, false, Option, none, some}
use keypooler.Crypto.{Bytes, Result, ok, err, open_sealed}
use keypooler.Db.{SpendEvent}
use keypooler.Keypool.Types.{PoolKey}
use keypooler.Keypool.Manager.{Manager, Served, PoolError, Answer, find}
use keypooler.Keypool.Upkeep.{
  mark_found, mark_exhausted, spend_in_unit, spend_found, record_spend, tier_of,
}
use keypooler.Api.Auth.{Reply, accepted, rejected, KeyCaller}
use keypooler.Api.Server.{
  Server, Setup, Request, Handler, Body, ◌>>=◌, ◌>>◌, reject_if, need, gets, answer, log_event,
  directory,
}
use keypooler.Api.Draws.{
  draw_from, give_opened, give, tier_in_scope, key_in_scope, mark, spend_store,
}
use keypooler.Api.Budgets.{SpendBody, spend_event, report}

module _ {S : Type 0} (setup : Setup S) where
  -- What the code relies on: marking a key exhausted and recording a spend leave consumers and scopes alone.
  pub record LeavesDirectory : Type 0 where
    pub marking :
        (s : S) (id : String) (until : ℕ)
        → directory setup (setup.adapter.set_key_exhausted s id until).0 ≡ directory setup s
    pub spending :
        (s : S) (e : SpendEvent) (period : Option ℕ)
        → directory setup (setup.adapter.record_spend s e period).0 ≡ directory setup s

  abbrev pub Same : Server S → Server S → Type 0
  Same sv sv' = (sv'.auth ≡ sv.auth) × (directory setup sv'.db ≡ directory setup sv.db)

  -- A handler that touches neither the cache nor what the database says of callers.
  pub record Keeps {A : Type 0} (h : Handler S A) : Type 0 where
    pub at : (sv : Server S) → Same sv (h sv).0

  then_keeps :
      {A B : Type 0} (sv : Server S) (out : Server S × Reply A) (f : A → Handler S B)
      → Same sv out.0
      → ((a : A) → Keeps (f a))
      → Same sv (((λ (x : Server S). out) >>= f) sv).0
  then_keeps sv (sv', accepted a) f h k = let s = (k a).at sv' in (s.0 ∙ h.0, s.1 ∙ h.1)
  then_keeps sv (sv', rejected c) f h k = h

  pub Keeps-bind :
      {A B : Type 0} (h : Handler S A) (f : A → Handler S B)
      → Keeps h
      → ((a : A) → Keeps (f a))
      → Keeps (h >>= f)
  Keeps-bind h f k l = record { at = λ sv. then_keeps sv (h sv) f (k.at sv) l }

  pub draw_from-Keeps :
      (draws : Manager → Manager × Answer Served) (status : PoolError → ℕ)
      → Keeps (draw_from draws status)
  draw_from-Keeps draws status = record { at = λ sv. (refl, refl) }

  pub reject_if-Keeps : (c : Bool) (status : ℕ) → Keeps (reject_if c status)
  reject_if-Keeps c status = record { at = λ sv. (refl, refl) }

  pub need-Keeps : {A : Type 0} (status : ℕ) (o : Option A) → Keeps (need status o)
  need-Keeps status none = record { at = λ sv. (refl, refl) }
  need-Keeps status (some a) = record { at = λ sv. (refl, refl) }

  pub gets-Keeps : {A : Type 0} (f : Server S → A) → Keeps (gets f)
  gets-Keeps f = record { at = λ sv. (refl, refl) }

  pub answer-Keeps : (status : ℕ) (b : Body) → Keeps (answer status b)
  answer-Keeps status b = record { at = λ sv. (refl, refl) }

  pub log_event-Keeps :
      (req : Request) (key_id consumer_id feature : String)
      → Keeps (log_event req key_id consumer_id feature)
  unfolding log_event
  log_event-Keeps req key_id consumer_id feature = record { at = λ sv. (refl, refl) }

  pub give_opened-Keeps :
      (req : Request) (caller : KeyCaller) (feature : String) (s : Served) (value : Result Bytes)
      → Keeps (give_opened req caller feature s value)
  unfolding log_event
  give_opened-Keeps req caller feature s (err e) = record { at = λ sv. (refl, refl) }
  give_opened-Keeps req caller feature s (ok value) = record { at = λ sv. (refl, refl) }

  pub give-Keeps :
      (req : Request) (caller : KeyCaller) (feature : String) (s : Served)
      → Keeps (give setup req caller feature s)
  unfolding give
  give-Keeps req caller feature s =
      give_opened-Keeps req caller feature s (open_sealed setup.sealer s.key_value)

  pub tier_in_scope-Keeps :
      (caller : KeyCaller) (tier : Option String) → Keeps (tier_in_scope setup caller tier)
  tier_in_scope-Keeps caller none = record { at = λ sv. (refl, refl) }
  tier_in_scope-Keeps caller (some tier) = record { at = λ sv. (refl, refl) }

  pub key_in_scope-Keeps : (caller : KeyCaller) (id : String) → Keeps (key_in_scope setup caller id)
  unfolding key_in_scope
  key_in_scope-Keeps caller id = record {
    at = λ sv. (tier_in_scope-Keeps caller (tier_of sv.pool id)).at sv;
  }

  mark_found-leaves :
      (l : LeavesDirectory) (s : S) (m : Manager) (id : String) (until : ℕ)
      (o : Option (ℕ × PoolKey))
      → directory setup (mark_found (spend_store setup) s m id until o).0 ≡ directory setup s
  mark_found-leaves l s m id until none = refl
  mark_found-leaves l s m id until (some (p, k)) = l.marking s id until

  pub mark-Keeps : (l : LeavesDirectory) (id : String) (until : ℕ) → Keeps (mark setup id until)
  unfolding mark mark_exhausted
  mark-Keeps l id until = record { at = λ sv. (refl, mark_found-leaves l sv.db sv.pool id until _) }

  spend_in_unit-leaves :
      (l : LeavesDirectory) (s : S) (m : Manager) (e : SpendEvent) (now p : ℕ) (k : PoolKey)
      (wrong : Bool)
      → directory setup (spend_in_unit (spend_store setup) s m e now p k wrong).0
        ≡ directory setup s
  spend_in_unit-leaves l s m e now p k true = refl
  spend_in_unit-leaves l s m e now p k false = l.spending s e _

  spend_found-leaves :
      (l : LeavesDirectory) (s : S) (m : Manager) (e : SpendEvent) (now : ℕ)
      (o : Option (ℕ × PoolKey))
      → directory setup (spend_found (spend_store setup) s m e now o).0 ≡ directory setup s
  spend_found-leaves l s m e now none = refl
  spend_found-leaves l s m e now (some (p, k)) = spend_in_unit-leaves l s m e now p k _

  pub report-Keeps :
      (l : LeavesDirectory) (req : Request) (caller : KeyCaller) (id : String) (b : SpendBody)
      → Keeps (report setup req caller id b)
  unfolding report record_spend
  report-Keeps l req caller id b = record {
    at = λ sv. (
      refl,
      spend_found-leaves l sv.db sv.pool (spend_event setup req caller id b) req.now
          (find id sv.pool.keys),
    );
  }

  pub Keeps-then :
      {B : Type 0} (h : Handler S (Unit {0})) (k : Handler S B) → Keeps h → Keeps k → Keeps (h >> k)
  Keeps-then h k p q = Keeps-bind h (λ u. k) p (λ u. q)
