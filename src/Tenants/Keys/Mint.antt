-- ===== src/Tenants/Keys/Mint.antt =====
-- Lemmas on the minted secrets and their parsers (internal/tenants/keys.go).
use mathlib.Core.List.{append_assoc}
use otel_fleet.Prelude.{
  ℕ, zero, suc, ◌*◌, ◌/◌, ◌%◌, ◌≤◌, ◌<◌, Text, nat_eq, text_eq, true, all, length, take, drop, All,
  ◌≡◌, ◌≢◌, refl, [], ◌∷◌, ◌++◌, some, arith,
}
use otel_fleet.Tenants.Keys.{
  sep, is_hex, is_id, parse_key_prefix, parse_token_prefix, hex_digit, hex_encode, base64_encode,
  GeneratedKey, mint, generate_api_key, generate_token,
}
use otel_fleet.Tenants.Keys.Split.{NoSep}
use otel_fleet.Tenants.Keys.Shape.{key_complete, token_complete}

abbrev pub IsByte : ℕ → Type 0
IsByte b = b < 256

hex_digit-is_hex : (n : ℕ) → n < 16 → is_hex (hex_digit n) ≡ true
hex_digit-is_hex n h = ground arith

hex_encode-all : (s : Text) → All IsByte s → all is_hex (hex_encode s) ≡ true
unfolding hex_encode
hex_encode-all [] h = refl
hex_encode-all (b ∷ s) h =
    rw (hex_digit-is_hex (b / 16) (omega arith), hex_digit-is_hex (b % 16) (omega arith))
      (hex_encode-all s h.1)

length-hex_encode : (s : Text) → length (hex_encode s) ≡ 2 * length s
unfolding hex_encode
length-hex_encode [] = refl
length-hex_encode (b ∷ s) = omega (arith, length-hex_encode s)

take-All : (n : ℕ) (s : Text) → All IsByte s → All IsByte (take n s)
take-All zero s h = tt
take-All (suc n) [] h = tt
take-All (suc n) (b ∷ s) h = (h.0, take-All n s h.1)

length-take_of_le : (n : ℕ) (s : Text) → n ≤ length s → length (take n s) ≡ n
length-take_of_le zero s h = refl
length-take_of_le (suc n) [] h = absurd (omega arith)
length-take_of_le (suc n) (b ∷ s) h = omega (arith, length-take_of_le n s (omega arith))

drop-ne-nil : (n : ℕ) (s : Text) → n < length s → drop n s ≢ []
drop-ne-nil zero [] h = absurd (omega arith)
drop-ne-nil zero (b ∷ s) h = λ e. cc
drop-ne-nil (suc n) [] h = absurd (omega arith)
drop-ne-nil (suc n) (b ∷ s) h = drop-ne-nil n s (omega arith)

base64_encode-ne-nil : (s : Text) → s ≢ [] → base64_encode s ≢ []
unfolding base64_encode
base64_encode-ne-nil [] h = λ e. h refl
base64_encode-ne-nil (a ∷ []) h = λ e. cc
base64_encode-ne-nil (a ∷ b ∷ []) h = λ e. cc
base64_encode-ne-nil (a ∷ b ∷ c ∷ s) h = λ e. cc

minted_id : (buf : Text) → All IsByte buf → 4 < length buf → is_id (hex_encode (take 4 buf)) ≡ true
minted_id buf bytes long =
    let n : length (hex_encode (take 4 buf)) ≡ 8 =
      omega (arith, length-hex_encode (take 4 buf), length-take_of_le 4 buf) in
    rw (n, hex_encode-all (take 4 buf) (take-All 4 buf bytes))

module _ (sha256 : Text → Text) (buf : Text) (bytes : All IsByte buf) (long : length buf ≡ 36) where
  -- An API key that is minted from 36 bytes is accepted, and leads to the prefix that is stored with
  -- its hash.
  pub parse-generate_api_key :
      (key : GeneratedKey)
      → generate_api_key sha256 (some buf) ≡ some key
      → (parse_key_prefix key.secret ≡ some key.prefix) × (key.hash ≡ sha256 key.secret)
  unfolding mint
  parse-generate_api_key key h = (
    key_complete (record {
      id = hex_encode (take 4 buf);
      secret = base64_encode (drop 4 buf);
      hex_id = minted_id buf bytes (omega arith);
      some_secret = base64_encode-ne-nil (drop 4 buf) (drop-ne-nil 4 buf (omega arith));
      spelled = cc;
      prefixed = cc;
    }),
    cc,
  )

  -- A token minted from 36 bytes, of a kind that holds no separator, is accepted by its parser, and
  -- leads to the prefix that is stored with its hash.
  pub parse-generate_token :
      (kind : Text) (key : GeneratedKey)
      → NoSep kind
      → generate_token sha256 kind (some buf) ≡ some key
      → (parse_token_prefix kind key.secret ≡ some key.prefix) × (key.hash ≡ sha256 key.secret)
  unfolding generate_token mint
  parse-generate_token kind key plain h =
      let id = hex_encode (take 4 buf) in
      let rest = sep ∷ base64_encode (drop 4 buf) in
      (
        token_complete kind plain (record {
          id = id;
          secret = base64_encode (drop 4 buf);
          hex_id = minted_id buf bytes (omega arith);
          some_secret = base64_encode-ne-nil (drop 4 buf) (drop-ne-nil 4 buf (omega arith));
          spelled =
              cc (
                append_assoc (kind ++ sep ∷ []) id rest,
                append_assoc kind (sep ∷ []) (id ++ rest),
              );
          prefixed = cc (append_assoc kind (sep ∷ []) id);
        }),
        cc,
      )
