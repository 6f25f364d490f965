-- ===== src/Examples/KeyTexts.antt =====
-- Keys, tokens and slugs.
use otel_fleet.Prelude.{codes, Text, text_eq, ◌≡◌, ◌↔◌, refl, true, none, some, ◌∷◌, ◌++◌, arith}
use otel_fleet.Tenants.Keys.{
  split_n, key_parts, token_parts, parse_key_prefix, parse_token_prefix, parse_api_token_prefix,
  hex_encode, base64_encode, GeneratedKey, mint,
}
use otel_fleet.Tenants.Keys.Shape.{IsKey, IsKey-iff, parsers_disjoint}
use otel_fleet.Tenants.Keys.Mint.{parse-generate_api_key}
use otel_fleet.Tenants.Slug.{
  valid_slug, derive_slug, hyphenate, trim, trim_left, trim_right, drop_hyphen, cut, pad, pad_once,
}
use otel_fleet.Tenants.Slug.Valid.{derive_slug-valid}

abbrev buffer : Text
buffer = 0xab ∷ 0x12 ∷ 0xcd ∷ 0x34 ∷ codes "0123456789abcdef0123456789abcdef"

-- A hash that keeps its text serves as well as any other.
abbrev minted : Text → GeneratedKey
minted lead =
    let secret = lead ++ codes "ab12cd34_MDEyMzQ1Njc4OWFiY2RlZjAxMjM0NTY3ODlhYmNkZWY" in
    record { secret = secret; prefix = lead ++ codes "ab12cd34"; hash = secret }

parse-generate_api_key_example :
    (parse_key_prefix (minted (codes "otm_")).secret ≡ some (codes "otm_ab12cd34"))
    × ((minted (codes "otm_")).hash ≡ (minted (codes "otm_")).secret)
unfolding mint hex_encode base64_encode
parse-generate_api_key_example =
    parse-generate_api_key (λ t. t) buffer (omega arith) refl (minted (codes "otm_")) refl

parsers_disjoint_example :
    (parse_key_prefix (codes "otm_pat_ab12cd34_x") ≡ none)
    × (parse_token_prefix (codes "at") (codes "otm_pat_ab12cd34_x") ≡ none)
unfolding parse_token_prefix token_parts split_n
parsers_disjoint_example =
    parsers_disjoint (codes "pat") (codes "at") (codes "otm_pat_ab12cd34_x")
      {p = codes "otm_pat_ab12cd34"} (omega arith) (λ e. cc) refl

-- The separator may stand in the secret, and an upper-case id is refused.
parse_edges :
    (parse_key_prefix (codes "otm_ab12cd34_a_b") ≡ some (codes "otm_ab12cd34"))
    × (parse_key_prefix (codes "otm_AB12cd34_x") ≡ none)
    × (parse_key_prefix (codes "otm_ab12cd34_") ≡ none)
    × (parse_api_token_prefix (codes "otm_at_ab12cd34_x") ≡ none)
unfolding parse_key_prefix key_parts parse_token_prefix token_parts split_n
parse_edges = (refl, refl, refl, refl)

IsKey-iff_example :
    (parse_key_prefix (codes "otm_ab12cd34_x") ≡ some (codes "otm_ab12cd34"))
    ↔ IsKey (codes "otm_ab12cd34_x") (codes "otm_ab12cd34")
IsKey-iff_example = IsKey-iff (codes "otm_ab12cd34_x") (codes "otm_ab12cd34")

derive_slug-valid_example : valid_slug (derive_slug (λ c. c) (codes " a")) ≡ true
derive_slug-valid_example = derive_slug-valid (λ c. c) (codes " a")

-- Runs of other characters become one hyphen, and short names are padded.
derived :
    (derive_slug (λ c. c) (codes "acme & co.") ≡ codes "acme-co")
    × (derive_slug (λ c. c) (codes "a") ≡ codes "a00")
    × (derive_slug (λ c. c) (codes "!") ≡ codes "customer")
unfolding derive_slug hyphenate trim trim_left trim_right drop_hyphen cut pad pad_once
derived = (refl, refl, refl)
