-- ===== src/TenantAuth/Headers.antt =====
-- `extractKey` of extension.go. Headers are ASCII, so the functions of `strings` that it calls are
-- written for bytes; `sources` is the map in the order in which the range visits it.
use otel_fleet.Prelude.{
  ℕ, ◌+◌, Text, codes, text_eq, nat_eq, ◌==◌, Bool, not, ◌&&◌, ◌||◌, leb, if◌then◌else◌, map,
  Option, none, some, List, [], ◌∷◌,
}

lower_byte : ℕ → ℕ
lower_byte c = if leb b'A' c && leb c b'Z' then c + 32 else c

-- strings.ToLower; strings.EqualFold compares what it gives
unfoldable pub to_lower : Text → Text
unfolding lower_byte
to_lower = map lower_byte

abbrev is_space : ℕ → Bool
is_space c = c == 32 || (leb 9 c && leb c 13)

trim_start : Text → Text
trim_start [] = []
trim_start (c ∷ s) = let rest = trim_start s in if is_space c then rest else c ∷ s

drop_space : ℕ → Text → Text
drop_space c [] = if is_space c then [] else c ∷ []
drop_space c (d ∷ s) = c ∷ d ∷ s

trim_end : Text → Text
trim_end [] = []
trim_end (c ∷ s) = drop_space c (trim_end s)

-- strings.TrimSpace
unfoldable pub trim_space : Text → Text
unfolding trim_start trim_end drop_space
trim_space s = trim_end (trim_start s)

abbrev prepend : ℕ → Option (Text × Text) → Option (Text × Text)
prepend c none = none
prepend c (some (a, b)) = some (c ∷ a, b)

-- strings.Cut(s, " ")
unfoldable pub cut_space : Text → Option (Text × Text)
cut_space [] = none
cut_space (c ∷ s) = let rest = cut_space s in if c == 32 then some ([], s) else prepend c rest

-- What one `authorization` value offers: the token behind the bearer scheme.
unfoldable pub bearer_of : Text → Text
unfolding trim_space cut_space to_lower
bearer_of v = elim (cut_space (trim_space v)) [
  | none ↦ []
  | some (scheme, rest) ↦ if to_lower scheme == codes "bearer" then trim_space rest else []
]

-- The first value that offers something wins.
unfoldable pub pick : (Text → Text) → Text → List Text → Text
pick offer chosen [] = chosen
pick offer chosen (v ∷ vs) =
    pick offer (if not (offer v == []) && chosen == [] then offer v else chosen) vs

-- The range over `sources`, with `bearer` and `apiKey`.
unfoldable pub scan : List (Text × List Text) → Text → Text → Text × Text
scan [] bearer api_key = (bearer, api_key)
scan ((name, values) ∷ rest) bearer api_key =
    scan rest
      (if to_lower name == codes "authorization" then pick bearer_of bearer values else bearer)
      (if to_lower name == codes "x-api-key" then pick trim_space api_key values else api_key)

unfoldable pub choose : Text × Text → Text
choose (bearer, api_key) = if bearer == [] then api_key else bearer

unfoldable pub extract_key : List (Text × List Text) → Text
unfolding scan choose pick bearer_of trim_space to_lower cut_space
extract_key sources = choose (scan sources [] [])
