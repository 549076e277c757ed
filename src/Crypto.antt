-- ===== src/Crypto.antt =====
-- internal/crypto/sealer.go. A string is the list of its bytes. AES-GCM is a parameter: the Aead
-- that `cipher.NewGCM` returns for a key, and the bytes that `rand.Read` delivers.
pub mod Hex
pub mod RoundTrip
use keypooler.Base.{
  ℕ, ◌+◌, Bool, true, false, Option, none, some, List, [], ◌∷◌, ◌++◌, ltb, ◌==◌, if◌then◌else◌,
  is_some, length, take, drop,
}
use Hex.{encode, decode}

abbrev pub Bytes : Type 0
Bytes = List ℕ

-- `cipher.AEAD`: `seal nonce plaintext` and `unseal nonce ciphertext`.
pub record Aead : Type 0 where
  pub nonce_size : ℕ
  pub seal_raw : Bytes → Bytes → Bytes
  pub open_raw : Bytes → Bytes → Option Bytes

pub record Sealer : Type 0 where
  pub aead : Option Aead

-- "enc:gcm:"
abbrev pub gcm_prefix : Bytes
gcm_prefix = b'e' ∷ b'n' ∷ b'c' ∷ b':' ∷ b'g' ∷ b'c' ∷ b'm' ∷ b':' ∷ []

abbrev pub key_size : ℕ
key_size = 32

pub data SealError : Type 0 where
  bad_hex bad_size no_cipher no_nonce no_key bad_ciphertext too_short not_authentic : SealError

pub data Result {ℓ} (A : Type ℓ) : Type ℓ where
  ok : A → Result A
  err : SealError → Result A

-- `strings.CutPrefix`, none where the prefix is not there.
unfoldable pub cut_prefix : Bytes → Bytes → Option Bytes
cut_prefix s [] = some s
cut_prefix [] (p ∷ ps) = none
cut_prefix (c ∷ s) (p ∷ ps) = let rest = cut_prefix s ps in if c == p then rest else none

-- `new_gcm` stands for `aes.NewCipher` with `cipher.NewGCM`.
unfoldable pub new_sealer : (Bytes → Option Aead) → Bytes → Result Sealer
new_sealer new_gcm [] = ok (record { aead = none })
new_sealer new_gcm (c ∷ cs) = elim (decode (c ∷ cs)) [
  | none ↦ err bad_hex
  | some key ↦
      if length key == key_size
      then (elim (new_gcm key) [ none ↦ err no_cipher | some a ↦ ok (record { aead = some a }) ])
      else err bad_size
]

unfoldable pub enabled : Sealer → Bool
enabled s = is_some s.aead

-- `random` is what `rand.Read` puts into the nonce, none where it fails.
unfoldable pub seal : Sealer → Option Bytes → Bytes → Result Bytes
seal s random plaintext = elim s.aead [
  | none ↦ ok plaintext
  | some a ↦ elim random [
    | none ↦ err no_nonce
    | some nonce ↦ ok (gcm_prefix ++ encode (nonce ++ a.seal_raw nonce plaintext))
  ]
]

-- The branch of `Open` past the prefix, with the cipher.
unfoldable pub open_tagged : Aead → Bytes → Result Bytes
open_tagged a hexed = elim (decode hexed) [
  | none ↦ err bad_ciphertext
  | some sealed ↦
      if ltb (length sealed) a.nonce_size
      then err too_short
      else (elim (a.open_raw (take a.nonce_size sealed) (drop a.nonce_size sealed)) [
        | none ↦ err not_authentic
        | some plaintext ↦ ok plaintext
      ])
]

abbrev open_cut : Sealer → Bytes → Option Bytes → Result Bytes
open_cut s stored none = ok stored
open_cut s stored (some hexed) = elim s.aead [ none ↦ err no_key | some a ↦ open_tagged a hexed ]

unfoldable pub open_sealed : Sealer → Bytes → Result Bytes
open_sealed s stored = open_cut s stored (cut_prefix stored gcm_prefix)
