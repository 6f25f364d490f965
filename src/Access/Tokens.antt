-- ===== src/Access/Tokens.antt =====
-- internal/api/tokenauth.go, with the row of a management token (store.APITokenAuth).
use otel_fleet.Prelude.{
  ℕ, Text, codes, text_eq, ◌==◌, cut_prefix, Bool, true, false, Option, none, some, List, find?,
  leb, if◌then◌else◌,
}
use otel_fleet.Tenants.Keys.{parse_api_token_prefix}

pub record ApiTokenAuth : Type 0 where
  pub id : ℕ
  pub role : Text
  pub created_by : Option ℕ
  pub token_hash : Text
  pub expires_at : Option ℕ

abbrev pub bearer : Text
bearer = codes "Bearer "

abbrev pub is_expired : ℕ → Option ℕ → Bool
is_expired now none = false
is_expired now (some t) = leb t now

-- The loop: the first token with the hash decides.
unfoldable pub match_token : ℕ → Text → List ApiTokenAuth → Option (Text × Option ℕ)
match_token now hash toks = elim (find? (λ (t : ApiTokenAuth). hash == t.token_hash) toks) [
  | none ↦ none
  | some t ↦ if is_expired now t.expires_at then none else some (t.role, t.created_by)
]

module _ (sha256 : Text → Text) where
  -- authenticateAPIToken; `active` is ActiveAPITokensByPrefix, none where it fails.
  unfoldable pub authenticate_api_token :
      ℕ → (Text → Option (List ApiTokenAuth)) → Text → Option (Text × Option ℕ)
  authenticate_api_token now active authorization = elim (cut_prefix bearer authorization) [
    | none ↦ none
    | some raw ↦ elim (parse_api_token_prefix raw) [
      | none ↦ none
      | some prefix ↦ elim (active prefix) [
        | none ↦ none
        | some toks ↦ match_token now (sha256 raw) toks
      ]
    ]
  ]

-- looksLikeAPIToken
unfoldable pub looks_like_api_token : Text → Bool
looks_like_api_token authorization = elim (cut_prefix bearer authorization) [
  | none ↦ false
  | some raw ↦ elim (parse_api_token_prefix raw) [ none ↦ false | some prefix ↦ true ]
]
