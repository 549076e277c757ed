-- ===== src/Crypto/RoundTrip.antt =====
-- What `Open` gives back of what `Seal` stored.
use keypooler.Base.{
  ◌≡◌, refl, sym, ap, ◌∙◌, subst, false, Option, none, some, [], ◌∷◌, ◌++◌, arith, ltb, length,
  length-append, take, drop,
}
use keypooler.Crypto.{
  Bytes, Aead, Sealer, gcm_prefix, ok, err, no_key, cut_prefix, seal, open_tagged, open_cut,
  open_sealed,
}
use keypooler.Crypto.Hex.{encode, decode, decode-encode, AreBytes}

cut_prefix-append : (pre s : Bytes) → cut_prefix (pre ++ s) pre ≡ some s
unfolding cut_prefix
cut_prefix-append [] [] = refl
cut_prefix-append [] (c ∷ s) = refl
cut_prefix-append (p ∷ pre) s = ground (arith, cut_prefix-append pre s)

take-append : (xs ys : Bytes) → take (length xs) (xs ++ ys) ≡ xs
take-append [] ys = refl
take-append (x ∷ xs) ys = ap (◌∷◌ x) (take-append xs ys)

drop-append : (xs ys : Bytes) → drop (length xs) (xs ++ ys) ≡ ys
drop-append [] ys = refl
drop-append (x ∷ xs) ys = drop-append xs ys

AreBytes-append : (xs ys : Bytes) → AreBytes xs → AreBytes ys → AreBytes (xs ++ ys)
AreBytes-append [] ys h k = k
AreBytes-append (x ∷ xs) ys h k = (h.0, AreBytes-append xs ys h.1 k)

open_sealed-tagged :
    (s : Sealer) (rest : Bytes)
    → open_sealed s (gcm_prefix ++ rest) ≡ open_cut s (gcm_prefix ++ rest) (some rest)
unfolding open_sealed
open_sealed-tagged s rest = ap (open_cut s (gcm_prefix ++ rest)) (cut_prefix-append gcm_prefix rest)

-- What the code relies on of AES-GCM with this nonce: it deals in bytes, and opens what it sealed.
pub record Opens (a : Aead) (nonce plaintext : Bytes) : Type 0 where
  pub nonce_bytes : AreBytes nonce
  pub nonce_length : length nonce ≡ a.nonce_size
  pub sealed_bytes : AreBytes (a.seal_raw nonce plaintext)
  pub opened : a.open_raw nonce (a.seal_raw nonce plaintext) ≡ some plaintext

ok_inj : (x y : Bytes) → ok x ≡ ok y → x ≡ y
ok_inj x y e = ground arith

module _ (a : Aead) (nonce plaintext : Bytes) (law : Opens a nonce plaintext) where
  sealed : Bytes
  sealed = a.seal_raw nonce plaintext

  long_enough : ltb (length (nonce ++ sealed)) a.nonce_size ≡ false
  long_enough = ground (arith, law.nonce_length, length-append nonce sealed)

  front : take a.nonce_size (nonce ++ sealed) ≡ nonce
  front = ap (λ n. take n (nonce ++ sealed)) (sym law.nonce_length) ∙ take-append nonce sealed

  back : drop a.nonce_size (nonce ++ sealed) ≡ sealed
  back = ap (λ n. drop n (nonce ++ sealed)) (sym law.nonce_length) ∙ drop-append nonce sealed

  read_back : decode (encode (nonce ++ sealed)) ≡ some (nonce ++ sealed)
  unfolding sealed
  read_back = decode-encode _ (AreBytes-append nonce sealed law.nonce_bytes law.sealed_bytes)

  opened : a.open_raw nonce sealed ≡ some plaintext
  unfolding sealed
  opened = law.opened

  open_tagged-encode : open_tagged a (encode (nonce ++ sealed)) ≡ ok plaintext
  unfolding open_tagged
  open_tagged-encode = rw (read_back, long_enough, front, back, opened, open_tagged) refl

-- With a key, `Open` gives back every plaintext that `Seal` stored under a nonce of the right length,
-- also one that begins with the tag itself, if AES-GCM opens what it seals.
pub open_sealed-seal :
    (a : Aead) (nonce plaintext : Bytes) {stored : Bytes}
    → Opens a nonce plaintext
    → seal (record { aead = some a }) (some nonce) plaintext ≡ ok stored
    → open_sealed (record { aead = some a }) stored ≡ ok plaintext
unfolding seal sealed
open_sealed-seal a nonce plaintext law e =
    subst (λ s. open_sealed (record { aead = some a }) s ≡ ok plaintext) (ok_inj _ _ e)
      (open_sealed-tagged _ _ ∙ open_tagged-encode a nonce plaintext law)

abbrev pub plain : Sealer
plain = record { aead = none }

-- Without a key `Seal` stores a plaintext as it is. `Open` gives back one that does not begin with
-- the tag "enc:gcm:", and refuses one that does.
pub open_sealed-plain :
    (random : Option Bytes) (plaintext : Bytes)
    → (seal plain random plaintext ≡ ok plaintext)
      × (cut_prefix plaintext gcm_prefix ≡ none → open_sealed plain plaintext ≡ ok plaintext)
      × ((rest : Bytes) → plaintext ≡ gcm_prefix ++ rest → open_sealed plain plaintext ≡ err no_key)
unfolding seal open_sealed
open_sealed-plain random plaintext = (
  refl,
  ap (open_cut plain plaintext),
  λ rest e. ap (open_sealed plain) e ∙ open_sealed-tagged plain rest,
)
