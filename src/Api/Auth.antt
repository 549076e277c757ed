-- ===== src/Api/Auth.antt =====
-- internal/api/middleware.go and internal/api/authcache.go. A header and a token are lists of bytes. The
-- database is what its two reads deliver where they work; SHA-256 with its hex is the parameter `hash_token`.
pub mod Current
pub mod Admission
use keypooler.Base.{
  ℕ, ◌+◌, ◌-◌, ◌≤◌, String, Bool, true, false, ◌||◌, ◌&&◌, not, Option, none, some, List, [], ◌∷◌,
  ltb, leb, ◌==◌, str_eq, if◌then◌else◌,
}
use keypooler.Base.Dict.{Dict, lookup, insert}
use keypooler.Crypto.{Bytes}
use keypooler.Db.{Consumer}

unfoldable pub same_bytes : Bytes → Bytes → Bool
same_bytes [] [] = true
same_bytes [] (d ∷ ds) = false
same_bytes (c ∷ cs) [] = false
same_bytes (c ∷ cs) (d ∷ ds) = (c == d) && same_bytes cs ds

abbrev lower : ℕ → ℕ
lower c = if leb b'A' c && leb c b'Z' then c + 32 else c

-- `strings.EqualFold` with a text of the letters of "bearer", which fold with no letter but their capitals.
unfoldable pub equal_fold : Bytes → Bytes → Bool
equal_fold [] [] = true
equal_fold [] (d ∷ ds) = false
equal_fold (c ∷ cs) [] = false
equal_fold (c ∷ cs) (d ∷ ds) = (lower c == lower d) && equal_fold cs ds

-- `strings.Cut(s, " ")`, none where there is no blank.
unfoldable pub cut_blank : Bytes → Option (Bytes × Bytes)
cut_blank [] = none
cut_blank (c ∷ s) =
    let rest = cut_blank s in
    if c == b' '
    then some ([], s)
    else (elim rest [ none ↦ none | some (front, back) ↦ some (c ∷ front, back) ])

-- "Bearer"
abbrev pub bearer_scheme : Bytes
bearer_scheme = b'B' ∷ b'e' ∷ b'a' ∷ b'r' ∷ b'e' ∷ b'r' ∷ []

abbrev token_of : Option (Bytes × Bytes) → Option Bytes
token_of none = none
token_of (some (scheme, token)) = if equal_fold scheme bearer_scheme then some token else none

-- Of the header `Authorization`, empty where it is missing.
unfoldable pub bearer_token : Bytes → Option Bytes
bearer_token header = token_of (cut_blank header)

pub data Reply (A : Type 0) : Type 0 where
  accepted : A → Reply A
  rejected : ℕ → Reply A

abbrev pub unauthorized : ℕ
unauthorized = 401

abbrev pub internal_error : ℕ
internal_error = 500

-- `AdminAuth`: the reply is that of the handler behind it.
unfoldable pub admin_auth : {A : Type 0} → Bytes → Bytes → Reply A → Reply A
admin_auth admin_token header next = elim (bearer_token header) [
  | none ↦ rejected unauthorized
  | some token ↦ if same_bytes token admin_token then next else rejected unauthorized
]

-- No set of tiers stands for every tier.
pub record KeyCaller : Type 0 where
  pub consumer_id : String
  pub allowed_tier_ids : Option (Dict Bool)

pub record AuthEntry : Type 0 where
  pub caller : KeyCaller
  pub expires : ℕ

pub record AuthCache : Type 0 where
  pub ttl : ℕ
  pub entries : Dict AuthEntry

unfoldable pub new_auth_cache : ℕ → AuthCache
new_auth_cache ttl = record { ttl = ttl; entries = [] }

abbrev fresh_caller : Option AuthEntry → ℕ → Option KeyCaller
fresh_caller none now = none
fresh_caller (some e) now = if ltb e.expires now then none else some e.caller

unfoldable pub get : AuthCache → String → ℕ → Option KeyCaller
get c hash now = fresh_caller (lookup hash c.entries) now

unfoldable pub put : AuthCache → String → KeyCaller → ℕ → AuthCache
put c hash caller now = record c {
  entries = insert hash (record { caller = caller; expires = now + c.ttl }) c.entries;
}

-- What `clearAfterWrite` leaves of the cache once the handler has run.
unfoldable pub clear_after_write : AuthCache → String → AuthCache
clear_after_write c method =
    if not (str_eq method "GET") && not (str_eq method "HEAD") then record c { entries = [] } else c

-- What `GetConsumerByTokenHash` and `GetConsumerScopes` find.
pub record Directory : Type 0 where
  pub by_token_hash : String → Option Consumer
  pub scopes : String → List String

unfoldable pub allow_all : Dict Bool → List String → Dict Bool
allow_all allowed [] = allowed
allow_all allowed (id ∷ ids) = allow_all (insert id true allowed) ids

unfoldable pub caller_of : Directory → Consumer → KeyCaller
caller_of d consumer = record {
  consumer_id = consumer.id;
  allowed_tier_ids = some (allow_all [] (d.scopes consumer.id));
}

abbrev admin_caller : KeyCaller
admin_caller = record { consumer_id = "admin"; allowed_tier_ids = none }

pub data Lookup : Type 0 where
  found : KeyCaller → Lookup
  not_found read_failed : Lookup

-- Which of the two reads of the database work, and the two readings of the clock.
pub record Conditions : Type 0 where
  pub consumer_read : Bool
  pub scopes_read : Bool
  pub got_at : ℕ
  pub put_at : ℕ

-- The rest of `consumerCaller` with a consumer: whether its hash is the same, and whether its scopes can be read.
abbrev checked_caller :
    AuthCache → Directory → String → ℕ → Consumer → Bool → Bool → AuthCache × Lookup
checked_caller c d hash now consumer false scopes_read = (c, not_found)
checked_caller c d hash now consumer true false = (c, read_failed)
checked_caller c d hash now consumer true true =
    (put c hash (caller_of d consumer) now, found (caller_of d consumer))

abbrev known_caller :
    AuthCache → Directory → String → ℕ → Bool → Option Consumer → AuthCache × Lookup
known_caller c d hash now scopes_read none = (c, not_found)
known_caller c d hash now scopes_read (some consumer) =
    checked_caller c d hash now consumer (str_eq consumer.token_hash hash) scopes_read

abbrev read_caller : AuthCache → Directory → String → Conditions → Bool → AuthCache × Lookup
read_caller c d hash w false = (c, read_failed)
read_caller c d hash w true = known_caller c d hash w.put_at w.scopes_read (d.by_token_hash hash)

abbrev cached_or_read :
    AuthCache → Directory → String → Conditions → Option KeyCaller → AuthCache × Lookup
cached_or_read c d hash w (some caller) = (c, found caller)
cached_or_read c d hash w none = read_caller c d hash w w.consumer_read

unfoldable pub consumer_caller : AuthCache → Directory → String → Conditions → AuthCache × Lookup
consumer_caller c d hash w = cached_or_read c d hash w (get c hash w.got_at)

abbrev reply_of : AuthCache × Lookup → AuthCache × Reply KeyCaller
reply_of (c, found caller) = (c, accepted caller)
reply_of (c, not_found) = (c, rejected unauthorized)
reply_of (c, read_failed) = (c, rejected internal_error)

-- `resolveKeyCaller` of a server with the admin token `admin_token`.
module _ (hash_token : Bytes → String) (admin_token : Bytes) where
  abbrev resolve_compared :
      AuthCache → Directory → Conditions → Bytes → Bool → AuthCache × Reply KeyCaller
  resolve_compared c d w token true = (c, accepted admin_caller)
  resolve_compared c d w token false = reply_of (consumer_caller c d (hash_token token) w)

  abbrev resolve_token :
      AuthCache → Directory → Conditions → Option Bytes → AuthCache × Reply KeyCaller
  resolve_token c d w none = (c, rejected unauthorized)
  resolve_token c d w (some token) = resolve_compared c d w token (same_bytes token admin_token)

  unfoldable pub resolve_key_caller :
      AuthCache → Directory → Conditions → Bytes → AuthCache × Reply KeyCaller
  resolve_key_caller c d w header = resolve_token c d w (bearer_token header)
