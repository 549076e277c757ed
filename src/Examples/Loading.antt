-- ===== src/Examples/Loading.antt =====
-- The environment of a server without encryption.
use keypooler.Base.{◌≡◌, refl, [], ◌∷◌}
use keypooler.Crypto.{Bytes, cut_prefix}
use keypooler.Config.{ready, has_any_prefix, load}
use keypooler.Config.Load.{Explained, load-Explained}

-- "postgres://db"
abbrev url : Bytes
url = b'p' ∷ b'o' ∷ b's' ∷ b't' ∷ b'g' ∷ b'r' ∷ b'e' ∷ b's' ∷ b':' ∷ b'/' ∷ b'/' ∷ b'd' ∷ b'b' ∷ []

load-Explained_example : Explained url [] (b't' ∷ []) (load url [] (b't' ∷ []))
load-Explained_example = load-Explained url [] (b't' ∷ [])

loaded :
    load url [] (b't' ∷ [])
    ≡ ready (record { database_url = url; encryption_key = []; admin_token = b't' ∷ [] })
unfolding load has_any_prefix cut_prefix
loaded = refl
