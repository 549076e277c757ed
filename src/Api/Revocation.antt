-- ===== src/Api/Revocation.antt =====
-- The server on the store of internal/db: what the requests that change the callers amount to.
use keypooler.Base.{
  ℕ, ◌≡◌, refl, sym, ap, ◌∙◌, subst, String, Bool, true, false, Option, none, some, str_eq, or_else,
}
use keypooler.Float64.{Float64}
use keypooler.Crypto.{Bytes}
use keypooler.Db.{Consumer}
use keypooler.Db.Adapter.{WriteError}
use keypooler.Db.Postgres.Spend.{Ending, works, refuses, loses_reply}
use keypooler.Db.Store.{Store, Weather, commit, read}
use keypooler.Db.Store.Keys.{Codec, update_key, set_key_exhausted, record_spend}
use keypooler.Db.Store.Consumers as Consumers
use keypooler.Db.Store.Consumers.{get_consumer_by_token_hash, get_consumer_scopes}
use keypooler.Db.Store.Callers.{DistinctHashes, owner, delete_consumer-owner}
use keypooler.Db.Store.Implementation.{adapter}
use keypooler.Api.Auth.{
  same_bytes, bearer_token, Reply, accepted, rejected, internal_error, admin_auth,
  clear_after_write,
}
use keypooler.Api.Auth.Current.{IsCurrent}
use keypooler.Api.Auth.Admission.{cleared-IsCurrent}
use keypooler.Api.Server.{
  Server, Setup, Request, Handler, Response, ◌>>◌, answer, always, write, status_body, directory,
}
use keypooler.Api.Consumers.{delete_consumer}
use keypooler.Api.Router.{
  Route, get_health_check, admin, delete_consumers, handle_admin, method_of, clearing, guarded,
  serve_admin, serve,
}
use keypooler.Api.Router.Keeps.{LeavesDirectory}
use keypooler.Api.Router.Guard.{IsStranger, TurnedAway, serve-TurnedAway}

some_inj : (s t : Bytes) → some s ≡ some t → s ≡ t
some_inj s t e = cc

module _ (base : Setup Store) (codec : Codec) (w : Weather)
    (add : Float64 → Float64 → Float64) where
  -- The server's surroundings, with the store as its database.
  abbrev pub deployed : Setup Store
  deployed = record base { adapter = adapter codec w add }

  marking-leaves :
      (ending : Ending) (st : Store) (id : String) (f : _)
      → directory deployed (commit ending st (update_key st id f, none)).0 ≡ directory deployed st
  unfolding get_consumer_by_token_hash get_consumer_scopes
  marking-leaves refuses st id f = refl
  marking-leaves works st id f = refl
  marking-leaves loses_reply st id f = refl

  -- What `LeavesDirectory` asks of the database holds for the store.
  pub deployed-LeavesDirectory : LeavesDirectory deployed
  unfolding set_key_exhausted record_spend get_consumer_by_token_hash get_consumer_scopes
  deployed-LeavesDirectory = record {
    marking = λ s id until. marking-leaves w.writing s id _;
    spending = λ s e period. refl;
  }

  guarded_accepted :
      (r0 : Reply (Unit {0})) (h : Handler Store Response) (sv sv' : Server Store) (r : Response)
      → guarded deployed r0 h sv ≡ (sv', accepted r)
      → h sv ≡ (sv', accepted r)
  guarded_accepted (accepted u) h sv sv' r e = e
  guarded_accepted (rejected status) h sv sv' r e = cc

  -- The write of a handler that has succeeded with nothing after it but the answer.
  written_by :
      (sv sv' : Server Store) (out : Store × Option WriteError) (status : WriteError → ℕ) (b : _)
      (r : Response)
      → clearing deployed "DELETE" (write (λ (db : Store). out) status >> answer 200 b) sv
        ≡ (sv', accepted r)
      → out ≡ (sv'.db, none)
  unfolding clearing
  written_by sv sv' (db', none) status b r e = ap (λ x. (x.0.db, none)) e
  written_by sv sv' (db', some why) status b r e = cc

  cleared_by :
      (sv sv' : Server Store) (h : Handler Store Response) (r : Response)
      → clearing deployed "DELETE" h sv ≡ (sv', accepted r)
      → IsCurrent (directory deployed sv'.db) sv'.auth
  unfolding clearing clear_after_write
  cleared_by sv sv' h r e =
      subst (λ x. IsCurrent (directory deployed sv'.db) x.0.auth) e
        (cleared-IsCurrent deployed.hash_token deployed.admin_token (directory deployed sv'.db)
          (h sv).0.auth true refl)

  found_owner :
      (reading : Bool) (hash : String) (st : Store) (c : Consumer)
      → owner hash st.consumers ≡ none
      → or_else (read reading (owner hash st.consumers)) none ≡ some c
      → ⊥
  found_owner true hash st c e g = cc
  found_owner false hash st c e g = cc

  owner-IsStranger :
      (st : Store) (header token : Bytes)
      → owner (deployed.hash_token token) st.consumers ≡ none
      → bearer_token header ≡ some token
      → same_bytes token deployed.admin_token ≡ false
      → IsStranger deployed (directory deployed st) header
  unfolding get_consumer_by_token_hash
  owner-IsStranger st header token unowned e other t g =
      subst
        (λ (x : Bytes).
          (same_bytes x deployed.admin_token ≡ false)
          × ((c : Consumer)
              → (directory deployed st).by_token_hash (deployed.hash_token x) ≡ some c
              → ⊥))
        (some_inj token t (sym e ∙ g))
        (other, λ c. found_owner w.reading (deployed.hash_token token) st c unowned)

  -- Once `DELETE /admin/consumers/{id}` is answered with success, the token of that consumer is turned away from every
  -- route but the check of health, whatever the cache held, and changes nothing in the database and the pool. It is
  -- asked that no two consumers share a token's hash (a unique index), and that the token is not the admin's.
  pub delete_consumer-TurnedAway :
      (sv sv' : Server Store) (req req' : Request) (id : String) (r : Response) (c : Consumer)
      (token : Bytes) (route : Route)
      → DistinctHashes sv.db.consumers
      → owner (deployed.hash_token token) sv.db.consumers ≡ some c
      → str_eq c.id id ≡ true
      → serve deployed req (admin (delete_consumers id)) sv ≡ (sv', accepted r)
      → bearer_token req'.authorization ≡ some token
      → same_bytes token deployed.admin_token ≡ false
      → (route ≡ get_health_check → ⊥)
      → TurnedAway deployed req'.authorization sv' (serve deployed req' route sv')
  unfolding serve serve_admin handle_admin method_of delete_consumer clearing
  delete_consumer-TurnedAway sv sv' req req' id r c token route u o same e bearer other not_health =
      let done =
        guarded_accepted (admin_auth deployed.admin_token req.authorization (accepted tt))
          (clearing deployed "DELETE" (delete_consumer deployed id)) sv sv' r e in
      serve-TurnedAway deployed req' route sv'
        (cleared_by sv sv' (delete_consumer deployed id) r done)
        (owner-IsStranger sv'.db req'.authorization token
          (delete_consumer-owner w sv.db sv'.db id (deployed.hash_token token) c u o same (
            written_by sv sv' (Consumers.delete_consumer w sv.db id) (always internal_error)
              (status_body "deleted") r done))
          bearer other)
        not_health
