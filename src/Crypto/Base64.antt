-- ===== src/Crypto/Base64.antt =====
-- base64.StdEncoding of Go, as internal/pipelines/secrets.go uses it: padded, and without care for
-- line ends.
use otel_fleet.Prelude.{
  ◌≡◌, ℕ, ◌+◌, ◌-◌, ◌*◌, ◌/◌, ◌%◌, ◌<◌, refl, Bool, true, false, not, ◌&&◌, Option, none, some, [],
  ◌∷◌, Text, nat_eq, ◌==◌, ltb, leb, filter, if◌then◌else◌, All, arith,
}

unfoldable pub std_char : ℕ → ℕ
std_char n =
    if ltb n 26
    then b'A' + n
    else if ltb n 52
    then b'a' + (n - 26)
    else if ltb n 62
    then b'0' + (n - 52)
    else if n == 62
    then b'+'
    else b'/'

unfoldable pub std_value : ℕ → Option ℕ
std_value c =
    if leb b'A' c && leb c b'Z'
    then some (c - b'A')
    else if leb b'a' c && leb c b'z'
    then some (c - b'a' + 26)
    else if leb b'0' c && leb c b'9'
    then some (c - b'0' + 52)
    else if c == b'+'
    then some 62
    else if c == b'/'
    then some 63
    else none

-- EncodeToString
unfoldable pub std_encode : Text → Text
unfolding std_char
std_encode [] = []
std_encode (a ∷ []) = std_char (a / 4) ∷ std_char (a % 4 * 16) ∷ b'=' ∷ b'=' ∷ []
std_encode (a ∷ b ∷ []) =
    std_char (a / 4) ∷ std_char (a % 4 * 16 + b / 16) ∷ std_char (b % 16 * 4) ∷ b'=' ∷ []
std_encode (a ∷ b ∷ c ∷ s) =
    std_char (a / 4)
    ∷ std_char (a % 4 * 16 + b / 16)
    ∷ std_char (b % 16 * 4 + c / 64)
    ∷ std_char (c % 64)
    ∷ std_encode s

-- The bytes of four characters, given what each stands for, and what follows them.
abbrev pub quad : Option ℕ → Option ℕ → Option ℕ → Option ℕ → Option Text → Option Text
quad (some w) (some x) (some y) (some z) (some rest) =
    some ((w * 4 + x / 16) ∷ (x % 16 * 16 + y / 4) ∷ (y % 4 * 64 + z) ∷ rest)
quad _ _ _ _ _ = none

abbrev pub pair : Option ℕ → Option ℕ → Option ℕ → Option Text
pair (some w) (some x) (some y) = some ((w * 4 + x / 16) ∷ (x % 16 * 16 + y / 4) ∷ [])
pair _ _ _ = none

abbrev pub single : Option ℕ → Option ℕ → Option Text
single (some w) (some x) = some ((w * 4 + x / 16) ∷ [])
single _ _ = none

-- Padding ends the text.
unfoldable pub decode_quads : Text → Option Text
unfolding std_value
decode_quads [] = some []
decode_quads (a ∷ []) = none
decode_quads (a ∷ b ∷ []) = none
decode_quads (a ∷ b ∷ c ∷ []) = none
decode_quads (a ∷ b ∷ c ∷ d ∷ s) =
    let rest = decode_quads s in
    if not (d == b'=')
    then quad (std_value a) (std_value b) (std_value c) (std_value d) rest
    else elim s [
      | [] ↦
          if c == b'='
          then single (std_value a) (std_value b)
          else pair (std_value a) (std_value b) (std_value c)
      | _ ∷ _ ↦ none
    ]

unfoldable pub is_text_char : ℕ → Bool
is_text_char c = not (c == 10) && not (c == 13)

-- DecodeString
unfoldable pub std_decode : Text → Option Text
unfolding decode_quads is_text_char std_value
std_decode s = decode_quads (filter is_text_char s)

abbrev pub IsByte : ℕ → Type 0
IsByte b = b < 256

std_value-char : (n : ℕ) → n < 64 → std_value (std_char n) ≡ some n
unfolding std_value std_char
std_value-char n h = ground arith

is_text_char-char : (n : ℕ) → n < 64 → is_text_char (std_char n) ≡ true
unfolding is_text_char std_char
is_text_char-char n h = ground arith

char-ne-pad : (n : ℕ) → n < 64 → (std_char n == b'=') ≡ false
unfolding std_char
char-ne-pad n h = ground arith

single_lem : (a : ℕ) → a < 256 → single (some (a / 4)) (some (a % 4 * 16)) ≡ some (a ∷ [])
single_lem a h = ground arith

pair_lem :
    (a b : ℕ)
    → a < 256
    → b < 256
    → pair (some (a / 4)) (some (a % 4 * 16 + b / 16)) (some (b % 16 * 4)) ≡ some (a ∷ b ∷ [])
pair_lem a b h k = ground arith

quad_lem :
    (a b c : ℕ) (s : Text)
    → a < 256
    → b < 256
    → c < 256
    → quad
        (some (a / 4))
        (some (a % 4 * 16 + b / 16))
        (some (b % 16 * 4 + c / 64))
        (some (c % 64))
        (some s)
      ≡ some (a ∷ b ∷ c ∷ s)
quad_lem a b c s h k l = ground arith

-- The text of a list of bytes is decoded to them.
pub std_decode-encode : (s : Text) → All IsByte s → std_decode (std_encode s) ≡ some s
unfolding std_decode std_encode
std_decode-encode [] h = refl
std_decode-encode (a ∷ []) h =
    rw
      (
        is_text_char-char (a / 4) (omega arith),
        is_text_char-char (a % 4 * 16) (omega arith),
        std_value-char (a / 4) (omega arith),
        std_value-char (a % 4 * 16) (omega arith),
      )
      (single_lem a h.0)
std_decode-encode (a ∷ b ∷ []) h =
    rw
      (
        is_text_char-char (a / 4) (omega arith),
        is_text_char-char (a % 4 * 16 + b / 16) (omega arith),
        is_text_char-char (b % 16 * 4) (omega arith),
        char-ne-pad (b % 16 * 4) (omega arith),
        std_value-char (a / 4) (omega arith),
        std_value-char (a % 4 * 16 + b / 16) (omega arith),
        std_value-char (b % 16 * 4) (omega arith),
      )
      (pair_lem a b h.0 h.1.0)
std_decode-encode (a ∷ b ∷ c ∷ s) h =
    rw
      (
        is_text_char-char (a / 4) (omega arith),
        is_text_char-char (a % 4 * 16 + b / 16) (omega arith),
        is_text_char-char (b % 16 * 4 + c / 64) (omega arith),
        is_text_char-char (c % 64) (omega arith),
        char-ne-pad (c % 64) (omega arith),
        std_value-char (a / 4) (omega arith),
        std_value-char (a % 4 * 16 + b / 16) (omega arith),
        std_value-char (b % 16 * 4 + c / 64) (omega arith),
        std_value-char (c % 64) (omega arith),
        std_decode-encode s h.1.1.1,
      )
      (quad_lem a b c s h.0 h.1.0 h.1.1.0)
