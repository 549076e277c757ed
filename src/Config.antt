-- ===== src/Config.antt =====
-- internal/config/config.go. The three variables of the environment are arguments, empty where unset.
pub mod Load
use keypooler.Base.{Bool, true, false, Option, none, some, List, [], ◌∷◌, if◌then◌else◌, is_some}
use keypooler.Crypto.{Bytes, cut_prefix}

-- "postgres://" and "postgresql://"
abbrev postgres_schemes : List Bytes
postgres_schemes =
    (b'p' ∷ b'o' ∷ b's' ∷ b't' ∷ b'g' ∷ b'r' ∷ b'e' ∷ b's' ∷ b':' ∷ b'/' ∷ b'/' ∷ [])
    ∷ (b'p' ∷ b'o' ∷ b's' ∷ b't' ∷ b'g' ∷ b'r' ∷ b'e' ∷ b's' ∷ b'q' ∷ b'l' ∷ b':' ∷ b'/' ∷ b'/'
        ∷ [])
    ∷ []

pub record Config : Type 0 where
  pub database_url : Bytes
  pub encryption_key : Bytes
  pub admin_token : Bytes

pub data Loaded : Type 0 where
  ready : Config → Loaded
  no_admin_token bad_database_url : Loaded

unfoldable pub has_any_prefix : Bytes → List Bytes → Bool
has_any_prefix s [] = false
has_any_prefix s (p ∷ ps) =
    let rest = has_any_prefix s ps in if is_some (cut_prefix s p) then true else rest

abbrev check_url : Config → Bool → Loaded
check_url c true = ready c
check_url c false = bad_database_url

abbrev check_token : Config → Bytes → Loaded
check_token c [] = no_admin_token
check_token c (t ∷ ts) = check_url c (has_any_prefix c.database_url postgres_schemes)

unfoldable pub load : Bytes → Bytes → Bytes → Loaded
load database_url encryption_key admin_token =
    check_token
      (record {
        database_url = database_url;
        encryption_key = encryption_key;
        admin_token = admin_token;
      })
      admin_token
