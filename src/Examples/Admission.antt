-- ===== src/Examples/Admission.antt =====
-- Admission with a token that is its own hash.
use keypooler.Base.{◌≡◌, refl, String, true, none, some, List, [], ◌∷◌, str_eq, if◌then◌else◌}
use keypooler.Base.Dict.{lookup, insert}
use keypooler.Crypto.{Bytes}
use keypooler.Db.{Consumer}
use keypooler.Api.Auth.{
  accepted, Directory, Conditions, resolve_key_caller, bearer_token, cut_blank, equal_fold,
  same_bytes, consumer_caller, get, caller_of, allow_all, new_auth_cache,
}
use keypooler.Api.Auth.Admission.{
  Admits, Action, State, resolves, reads, writes, run, start, resolve_key_caller-Admits,
}

-- In the place of SHA-256: whether the token is the letter t.
abbrev hash_of : Bytes → String
hash_of token = if same_bytes token (b't' ∷ []) then "t" else "?"

abbrev admin_token : Bytes
admin_token = b'a' ∷ []

abbrev reader : Consumer
reader = record {
  id = "c";
  name = "reader";
  token_hash = "t";
  description = "";
  is_active = true;
  created_at = 0;
}

abbrev held : Directory
held = record {
  by_token_hash = λ hash. if str_eq hash "t" then some reader else none;
  scopes = λ id. "free" ∷ [];
}

abbrev dropped : Directory
dropped = record { by_token_hash = λ hash. none; scopes = λ id. [] }

abbrev fair : Conditions
fair = record { consumer_read = true; scopes_read = true; got_at = 5; put_at = 6 }

-- "bearer t"
abbrev header : Bytes
header = b'b' ∷ b'e' ∷ b'a' ∷ b'r' ∷ b'e' ∷ b'r' ∷ b' ' ∷ b't' ∷ []

-- The consumer is let in, listed, and deleted.
abbrev acts : List (Action hash_of admin_token)
acts = resolves fair header ∷ reads "GET" ∷ writes "DELETE" refl refl dropped ∷ []

abbrev last : State hash_of admin_token
last = run hash_of admin_token (start hash_of admin_token 60 held) acts

resolve_key_caller-Admits_example :
    Admits hash_of admin_token last.directory fair header
      (resolve_key_caller hash_of admin_token last.cache last.directory fair header).1
resolve_key_caller-Admits_example =
    resolve_key_caller-Admits hash_of admin_token 60 held acts fair header

let_in :
    (resolve_key_caller hash_of admin_token (new_auth_cache 60) held fair header).1
    ≡ accepted (record { consumer_id = "c"; allowed_tier_ids = some (("free", true) ∷ []) })
unfolding resolve_key_caller bearer_token cut_blank equal_fold same_bytes consumer_caller get lookup
    new_auth_cache caller_of allow_all insert
let_in = refl
