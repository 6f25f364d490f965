-- ===== src/Tenants/Keys.antt =====
-- keys.go, apitoken.go, agenttoken.go and bootstrap.go of internal/tenants: the four secrets that
-- the control plane mints, and the parsers that take the lookup prefix out of a presented one.
-- The random bytes and SHA-256 are arguments; hex and base64 are those of Go's library.
pub mod Split
pub mod Shape
pub mod Mint
use otel_fleet.Prelude.{
  ℕ, zero, suc, ◌+◌, ◌-◌, ◌*◌, ◌/◌, ◌%◌, Text, codes, text_eq, nat_eq, ◌==◌, Bool, ◌&&◌, ◌||◌, not,
  leb, ltb, if◌then◌else◌, all, length, take, drop, Option, none, some, List, [], ◌∷◌, ◌++◌,
}

abbrev pub sep : ℕ
sep = b'_'

pub push : ℕ → List Text → List Text
push c [] = (c ∷ []) ∷ []
push c (p ∷ ps) = (c ∷ p) ∷ ps

-- strings.SplitN(s, "_", cuts + 1)
unfoldable pub split_n : ℕ → Text → List Text
unfolding push
split_n cuts [] = [] ∷ []
split_n zero (c ∷ s) = (c ∷ s) ∷ []
split_n (suc cuts) (c ∷ s) =
    let cut = [] ∷ split_n cuts s in
    let longer = push c (split_n (suc cuts) s) in if c == sep then cut else longer

-- The test of the loop over the id: '0' to '9' or 'a' to 'f'.
abbrev pub is_hex : ℕ → Bool
is_hex c = (leb b'0' c && leb c b'9') || (leb b'a' c && leb c b'f')

abbrev pub is_id : Text → Bool
is_id s = length s == 8 && all is_hex s

abbrev pub otm : Text
otm = codes "otm"

unfoldable pub key_parts : List Text → Option Text
key_parts (tag ∷ id ∷ secret ∷ []) =
    if tag == otm && is_id id && not (secret == []) then some (otm ++ sep ∷ id) else none
key_parts _ = none

-- ParseKeyPrefix
unfoldable pub parse_key_prefix : Text → Option Text
parse_key_prefix key = key_parts (split_n 2 key)

unfoldable pub token_parts : Text → List Text → Option Text
token_parts kind (tag ∷ k ∷ id ∷ secret ∷ []) =
    if tag == otm && k == kind && is_id id && not (secret == [])
    then some (otm ++ sep ∷ kind ++ sep ∷ id)
    else none
token_parts kind _ = none

-- The three token parsers differ in the kind alone.
unfoldable pub parse_token_prefix : Text → Text → Option Text
parse_token_prefix kind token = token_parts kind (split_n 3 token)

abbrev pub parse_api_token_prefix : Text → Option Text
parse_api_token_prefix = parse_token_prefix (codes "pat")

abbrev pub parse_agent_token_prefix : Text → Option Text
parse_agent_token_prefix = parse_token_prefix (codes "at")

abbrev pub parse_bootstrap_token_prefix : Text → Option Text
parse_bootstrap_token_prefix = parse_token_prefix (codes "bt")

abbrev pub hex_digit : ℕ → ℕ
hex_digit n = if ltb n 10 then b'0' + n else b'a' + (n - 10)

-- hex.EncodeToString
unfoldable pub hex_encode : Text → Text
hex_encode [] = []
hex_encode (b ∷ bs) = hex_digit (b / 16) ∷ hex_digit (b % 16) ∷ hex_encode bs

abbrev pub base64_char : ℕ → ℕ
base64_char n =
    if ltb n 26
    then b'A' + n
    else if ltb n 52
    then b'a' + (n - 26)
    else if ltb n 62
    then b'0' + (n - 52)
    else if n == 62
    then b'-'
    else b'_'

-- base64.RawURLEncoding.EncodeToString
unfoldable pub base64_encode : Text → Text
base64_encode [] = []
base64_encode (a ∷ []) = base64_char (a / 4) ∷ base64_char (a % 4 * 16) ∷ []
base64_encode (a ∷ b ∷ []) =
    base64_char (a / 4) ∷ base64_char (a % 4 * 16 + b / 16) ∷ base64_char (b % 16 * 4) ∷ []
base64_encode (a ∷ b ∷ c ∷ s) =
    base64_char (a / 4)
    ∷ base64_char (a % 4 * 16 + b / 16)
    ∷ base64_char (b % 16 * 4 + c / 64)
    ∷ base64_char (c % 64)
    ∷ base64_encode s

pub record GeneratedKey : Type 0 where
  pub secret : Text
  pub prefix : Text
  pub hash : Text

module _ (sha256 : Text → Text) where
  -- The common end of the four generators; `buf` is what rand.Read gave, none its error.
  unfoldable pub mint : Text → Option Text → Option GeneratedKey
  mint lead none = none
  mint lead (some buf) =
      let prefix = lead ++ hex_encode (take 4 buf) in
      let secret = prefix ++ sep ∷ base64_encode (drop 4 buf) in
      some (record { secret = secret; prefix = prefix; hash = sha256 secret })

  abbrev pub generate_api_key : Option Text → Option GeneratedKey
  generate_api_key = mint (otm ++ sep ∷ [])

  -- The lead of a token names its kind.
  unfoldable pub generate_token : Text → Option Text → Option GeneratedKey
  generate_token kind = mint (otm ++ sep ∷ kind ++ sep ∷ [])

  abbrev pub generate_api_token : Option Text → Option GeneratedKey
  generate_api_token = generate_token (codes "pat")

  abbrev pub generate_agent_token : Option Text → Option GeneratedKey
  generate_agent_token = generate_token (codes "at")

  abbrev pub generate_bootstrap_token : Option Text → Option GeneratedKey
  generate_bootstrap_token = generate_token (codes "bt")
