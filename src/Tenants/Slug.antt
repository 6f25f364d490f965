-- ===== src/Tenants/Slug.antt =====
-- slug.go of internal/tenants. A name is its runes; the lower case of a rune is an argument, since
-- it comes from the Unicode tables of Go's library.
pub mod Valid
use otel_fleet.Prelude.{
  ℕ, zero, suc, ◌-◌, Text, codes, text_eq, nat_eq, ◌==◌, Bool, true, false, ◌&&◌, ◌||◌, leb, ltb,
  if◌then◌else◌, length, take, [], ◌∷◌, ◌++◌,
}

abbrev pub hyphen : ℕ
hyphen = b'-'

abbrev pub is_alnum : ℕ → Bool
is_alnum c = (leb b'a' c && leb c b'z') || (leb b'0' c && leb c b'9')

abbrev pub is_slug_char : ℕ → Bool
is_slug_char c = is_alnum c || c == hyphen

-- What is left of a slug from some character on: it ends in a letter or a digit.
unfoldable pub ends_well : Text → Bool
ends_well [] = false
ends_well (c ∷ []) = is_alnum c
ends_well (c ∷ d ∷ s) = is_slug_char c && ends_well (d ∷ s)

unfoldable pub starts_well : Text → Bool
starts_well [] = false
starts_well (c ∷ s) = is_alnum c

-- ValidSlug: ^[a-z0-9][a-z0-9-]{1,62}[a-z0-9]$
unfoldable pub valid_slug : Text → Bool
valid_slug s = starts_well s && ends_well s && leb 3 (length s) && leb (length s) 64

-- The loop over the name; `last` is `lastHyphen`.
unfoldable pub hyphenate : (ℕ → ℕ) → Bool → Text → Text
hyphenate lower last [] = []
hyphenate lower last (r ∷ rs) =
    let c = lower r in
    let kept = c ∷ hyphenate lower false rs in
    let skipped = hyphenate lower true rs in
    let dashed = hyphen ∷ hyphenate lower true rs in
    if is_alnum c then kept else if last then skipped else dashed

unfoldable pub trim_left : Text → Text
trim_left [] = []
trim_left (c ∷ s) = let rest = trim_left s in if c == hyphen then rest else c ∷ s

unfoldable pub drop_hyphen : ℕ → Text → Text
drop_hyphen c [] = if c == hyphen then [] else c ∷ []
drop_hyphen c (d ∷ s) = c ∷ d ∷ s

unfoldable pub trim_right : Text → Text
trim_right [] = []
trim_right (c ∷ s) = drop_hyphen c (trim_right s)

-- strings.Trim(s, "-")
unfoldable pub trim : Text → Text
trim s = trim_right (trim_left s)

-- One round of the padding loop; the default name is long enough to end it.
unfoldable pub pad_once : Text → Text
pad_once s = if ltb (length s) 3 then (if s == [] then codes "customer" else s ++ b'0' ∷ []) else s

-- A text of one character takes two rounds, and every other text fewer.
unfoldable pub pad : Text → Text
pad s = pad_once (pad_once (pad_once s))

unfoldable pub cut : Text → Text
cut s = if ltb 64 (length s) then trim (take 64 s) else s

-- DeriveSlug
unfoldable pub derive_slug : (ℕ → ℕ) → Text → Text
derive_slug lower name = pad (cut (trim (hyphenate lower true name)))
