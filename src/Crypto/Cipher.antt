-- ===== src/Crypto/Cipher.antt =====
-- crypto.go of internal/crypto. AES-256-GCM is a record of what the code calls of it; a nil *Cipher
-- is none, and the nonce that rand.Read gave is an argument, none for its error.
use otel_fleet.Prelude.{
  ℕ, suc, ◌+◌, Bool, false, not, ◌||◌, Option, none, some, List, [], ◌∷◌, ◌++◌, Text, nat_eq, ◌==◌,
  ltb, length, take, drop, is_some, if◌then◌else◌,
}

-- cipher.AEAD, without additional data: `open` is none where the tag does not fit.
pub record Aead : Type 0 where
  pub nonce_size : ℕ
  pub seal : Text → Text → Text
  pub unseal : Text → Text → Option Text

pub record Cipher : Type 0 where
  pub primary : Aead
  pub decrypters : List Aead

pub data CryptoError : Type 0 where
  err_not_configured err_nonce err_decrypt : CryptoError

pub data Outcome {ℓ} (A : Type ℓ) : Type ℓ where
  done : A → Outcome A
  failed : CryptoError → Outcome A

abbrev pub key_size : ℕ
key_size = 32

abbrev pub version1 : ℕ
version1 = 1

module _ (std_decode : Text → Option Text) (gcm : Text → Aead) where
  -- `gcm` is aes.NewCipher with cipher.NewGCM, which take every key of this size.
  unfoldable pub aead_from_key : Text → Option Aead
  aead_from_key key_base64 = elim (std_decode key_base64) [
    | none ↦ none
    | some key ↦ if not (length key == key_size) then none else some (gcm key)
  ]

  unfoldable pub aeads_from_keys : List Text → Option (List Aead)
  unfolding aead_from_key
  aeads_from_keys [] = some []
  aeads_from_keys (s ∷ rest) =
      let others = aeads_from_keys rest in
      elim (aead_from_key s) [
        | none ↦ none
        | some aead ↦ elim others [ none ↦ none | some as' ↦ some (aead ∷ as') ]
      ]

  -- NewWithSecondaries; the text of an error is left out.
  unfoldable pub new_with_secondaries : Text → List Text → Option Cipher
  unfolding aead_from_key aeads_from_keys
  new_with_secondaries primary_base64 secondaries_base64 = elim (aead_from_key primary_base64) [
    | none ↦ none
    | some primary ↦ elim (aeads_from_keys secondaries_base64) [
      | none ↦ none
      | some others ↦ some (record { primary = primary; decrypters = primary ∷ others })
    ]
  ]

abbrev pub configured : Option Cipher → Bool
configured c = is_some c

-- Encrypt
unfoldable pub encrypt : Option Cipher → Option Text → Text → Outcome Text
encrypt none _ plaintext = failed err_not_configured
encrypt (some c) none plaintext = failed err_nonce
encrypt (some c) (some drawn) plaintext =
    done (version1 ∷ (drawn ++ c.primary.seal drawn plaintext))

-- The first of the keys that opens the body.
unfoldable pub try_open : List Aead → Text → Text → Outcome Text
try_open [] nonce body = failed err_decrypt
try_open (aead ∷ rest) nonce body =
    let others = try_open rest nonce body in
    elim (aead.unseal nonce body) [ none ↦ others | some pt ↦ done pt ]

abbrev pub head_is_version1 : Text → Bool
head_is_version1 [] = false
head_is_version1 (b ∷ s) = b == version1

-- Decrypt
unfoldable pub decrypt : Option Cipher → Text → Outcome Text
unfolding try_open
decrypt none ciphertext = failed err_not_configured
decrypt (some c) ciphertext =
    let ns = c.primary.nonce_size in
    if ltb (length ciphertext) (1 + ns)
    then failed err_decrypt
    else if not (head_is_version1 ciphertext)
    then failed err_decrypt
    else try_open c.decrypters (take ns (drop 1 ciphertext)) (drop (suc ns) ciphertext)

-- EncryptedWithPrimary
unfoldable pub encrypted_with_primary : Option Cipher → Text → Bool
encrypted_with_primary none ciphertext = false
encrypted_with_primary (some c) ciphertext =
    let ns = c.primary.nonce_size in
    if ltb (length ciphertext) (1 + ns) || not (head_is_version1 ciphertext)
    then false
    else is_some (c.primary.unseal (take ns (drop 1 ciphertext)) (drop (suc ns) ciphertext))
