-- ===== src/Crypto/Envelope.antt =====
-- Lemmas on the keys of internal/crypto and what they open.
use otel_fleet.Prelude.{
  ◌≡◌, refl, ap, ℕ, zero, suc, ◌+◌, false, none, some, List, [], ◌∷◌, ◌++◌, Text, All, ltb, length,
  take, drop, length-append, arith,
}
use otel_fleet.Crypto.Cipher.{Aead, Cipher, done, encrypt, decrypt, try_open}

take-append : (n : ℕ) (xs ys : Text) → length xs ≡ n → take n (xs ++ ys) ≡ xs
take-append zero [] ys h = refl
take-append zero (x ∷ xs) ys h = absurd (omega arith)
take-append (suc n) [] ys h = absurd (omega arith)
take-append (suc n) (x ∷ xs) ys h = ap (λ r. x ∷ r) (take-append n xs ys (omega arith))

drop-append : (n : ℕ) (xs ys : Text) → length xs ≡ n → drop n (xs ++ ys) ≡ ys
drop-append zero [] ys h = refl
drop-append zero (x ∷ xs) ys h = absurd (omega arith)
drop-append (suc n) [] ys h = absurd (omega arith)
drop-append (suc n) (x ∷ xs) ys h = drop-append n xs ys (omega arith)

-- What the code relies on in AES-GCM: a key opens what it sealed.
abbrev pub Opens : Aead → Type 0
Opens a = (nonce plaintext : Text) → a.unseal nonce (a.seal nonce plaintext) ≡ some plaintext

-- A key that does not know the tag refuses.
abbrev pub Refuses : Text → Text → Aead → Type 0
Refuses nonce body a = a.unseal nonce body ≡ none

module _ (old : Aead) (nonce plaintext : Text) (opens : Opens old) where
  try_open_lem :
      (front back : List Aead)
      → All (Refuses nonce (old.seal nonce plaintext)) front
      → try_open (front ++ old ∷ back) nonce (old.seal nonce plaintext) ≡ done plaintext
  unfolding try_open
  try_open_lem [] back h = rw (opens nonce plaintext)
  try_open_lem (a ∷ front) back h = rw h.0 (try_open_lem front back h.1)

-- Rotation of the master key: what a cipher encrypted is decrypted by every cipher that still holds
-- its key, among its decrypters and behind keys that refuse the tag, as long as the nonces have the
-- size that both ciphers expect.
pub rotated-decrypt :
    (c r : Cipher) (front back : List Aead) (nonce plaintext : Text)
    → Opens c.primary
    → length nonce ≡ r.primary.nonce_size
    → r.decrypters ≡ front ++ c.primary ∷ back
    → All (Refuses nonce (c.primary.seal nonce plaintext)) front
    → (ciphertext : Text) × (encrypt (some c) (some nonce) plaintext ≡ done ciphertext)
      × (decrypt (some r) ciphertext ≡ done plaintext)
unfolding encrypt decrypt
rotated-decrypt c r front back nonce plaintext opens size keys refuses =
    let body = c.primary.seal nonce plaintext in
    let n = r.primary.nonce_size in
    let long : ltb (length (1 ∷ (nonce ++ body))) (1 + n) ≡ false =
      ground (arith, length-append nonce body) in
    let opened : try_open r.decrypters nonce body ≡ done plaintext =
      rw keys (try_open_lem c.primary nonce plaintext opens front back refuses) in
    (
      1 ∷ (nonce ++ body),
      refl,
      rw (long, take-append n nonce body size, drop-append n nonce body size) opened,
    )
