-- ===== src/Api/Router/Reach.antt =====
-- A server through any sequence of requests, and the keys that are given out after it.
use keypooler.Base.{ℕ, ◌≡◌, String}
use keypooler.Keypool.Manager.{Manager}
use keypooler.Api.Auth.{accepted, new_auth_cache}
use keypooler.Api.Auth.Admission.{start-IsCurrent}
use keypooler.Api.Server.{Server, Setup, Request, Response, directory}
use keypooler.Api.Draws.Scope.{GivesOwn, get_key-GivesOwn}
use keypooler.Api.Router.{Route, get_feature_key, serve}
use keypooler.Api.Router.Keeps.{LeavesDirectory, Same}
use keypooler.Api.Router.Cache.{Current, Same-Current, serve-Current}

module _ {S : Type 0} (setup : Setup S) where
  -- What happens to a server: a request is served, or something else goes on (a flush, a synchronisation of balances),
  -- which leaves the cache and the consumers with their scopes as they are.
  pub data Step : Server S → Server S → Type 0 where
    served : (req : Request) (route : Route) {sv : Server S} → Step sv (serve setup req route sv).0
    works : {sv sv' : Server S} → Same setup sv sv' → Step sv sv'

  pub data Reach (start : Server S) : Server S → Type 0 where
    here : Reach start start
    after : {sv sv' : Server S} → Reach start sv → Step sv sv' → Reach start sv'

  Step-Current :
      LeavesDirectory setup
      → (sv sv' : Server S) → Step sv sv'
      → Current setup sv
      → Current setup sv'
  Step-Current l sv sv' (served req route) = serve-Current setup l req route sv
  Step-Current l sv sv' (works same) = Same-Current setup sv sv' same

  Reach-Current :
      LeavesDirectory setup
      → (start sv : Server S) → Current setup start
      → Reach start sv
      → Current setup sv
  Reach-Current l start sv c here = c
  Reach-Current l start sv c (after {sv = mid} r s) =
      Step-Current l mid sv s (Reach-Current l start mid c r)

  abbrev pub new_server : S → Manager → ℕ → Server S
  new_server db pool ttl = record { db = db; pool = pool; auth = new_auth_cache ttl }

  -- A server starts with an empty cache. Whatever requests it then serves on any of the routes, and whatever else
  -- goes on that leaves cache and consumers alone: who is next answered with a key by `GetKey` presents the
  -- admin token or that of a consumer that the database holds now, which has the key's tier in its scopes now;
  -- the key stands in the pool, its tier has the feature, and the answer holds the id, the opened value, the metadata
  -- and the secrets of that key. Marking keys exhausted and recording spend must leave
  -- what the database says of callers.
  pub serve-GivesOwn :
      LeavesDirectory setup
      → (db : S) (pool : Manager) (ttl : ℕ) (sv sv' : Server S) (req : Request) (feature : String)
        (r : Response)
      → Reach (new_server db pool ttl) sv
      → serve setup req (get_feature_key feature) sv ≡ (sv', accepted r)
      → GivesOwn setup req feature sv r
  unfolding serve
  serve-GivesOwn l db pool ttl sv sv' req feature r reached e =
      get_key-GivesOwn setup req feature sv sv' r
        (Reach-Current l (new_server db pool ttl) sv
          (start-IsCurrent setup.hash_token setup.admin_token ttl (directory setup db)) reached)
        e
