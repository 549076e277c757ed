-- ===== src/Examples/Sealing.antt =====
-- The round trip with a cipher that prefixes a byte, and the value that does not come back without one.
use keypooler.Base.{◌≡◌, refl, Option, none, some, [], ◌∷◌, ◌++◌, arith}
use keypooler.Crypto.{Bytes, Aead, gcm_prefix, ok, err, no_key, cut_prefix, seal, open_sealed}
use keypooler.Crypto.Hex.{encode}
use keypooler.Crypto.RoundTrip.{Opens, plain, open_sealed-seal, open_sealed-plain}

abbrev unseal : Bytes → Bytes → Option Bytes
unseal nonce [] = none
unseal nonce (c ∷ cs) = some cs

abbrev marking : Aead
marking = record { nonce_size = 2; seal_raw = λ nonce plaintext. 9 ∷ plaintext; open_raw = unseal }

abbrev nonce : Bytes
nonce = 200 ∷ 17 ∷ []

marking-Opens : Opens marking nonce (b's' ∷ b'k' ∷ [])
marking-Opens = record {
  nonce_bytes = (omega arith, (omega arith, tt));
  nonce_length = refl;
  sealed_bytes = (omega arith, (omega arith, (omega arith, tt)));
  opened = refl;
}

open_sealed-seal_example :
    open_sealed
      (record { aead = some marking })
      (gcm_prefix ++ encode (200 ∷ 17 ∷ 9 ∷ b's' ∷ b'k' ∷ []))
    ≡ ok (b's' ∷ b'k' ∷ [])
unfolding seal
open_sealed-seal_example = open_sealed-seal marking nonce (b's' ∷ b'k' ∷ []) marking-Opens refl

open_sealed-plain_example :
    (seal plain none (gcm_prefix ++ b'x' ∷ []) ≡ ok (gcm_prefix ++ b'x' ∷ []))
    × (cut_prefix (gcm_prefix ++ b'x' ∷ []) gcm_prefix ≡ none
        → open_sealed plain (gcm_prefix ++ b'x' ∷ []) ≡ ok (gcm_prefix ++ b'x' ∷ []))
    × ((rest : Bytes)
        → gcm_prefix ++ b'x' ∷ [] ≡ gcm_prefix ++ rest
        → open_sealed plain (gcm_prefix ++ b'x' ∷ []) ≡ err no_key)
open_sealed-plain_example = open_sealed-plain none (gcm_prefix ++ b'x' ∷ [])
