-- ===== src/Tenants/Keys/Shape.antt =====
-- Lemmas on the texts the parsers take (internal/tenants/keys.go).
use otel_fleet.Prelude.{
  ℕ, suc, Text, nat_eq, text_eq, true, all, length, ◌≡◌, ◌≢◌, ◌↔◌, refl, ap, sym, ◌∙◌, List, [],
  ◌∷◌, ◌++◌, Option, none, some, arith, text_beq_iff, beq_ne, beq_self,
}
use otel_fleet.Tenants.Keys.{
  sep, split_n, is_hex, is_id, otm, key_parts, parse_key_prefix, token_parts, parse_token_prefix,
}
use otel_fleet.Tenants.Keys.Split.{NoSep, split_n-append, split_n-cons, split_n-zero, split_n_none}

all_hex-NoSep : (s : Text) → all is_hex s ≡ true → NoSep s
all_hex-NoSep [] h = tt
all_hex-NoSep (c ∷ s) h = (ground arith, all_hex-NoSep s (ground arith))

id-NoSep : (id : Text) → is_id id ≡ true → NoSep id
id-NoSep id h = all_hex-NoSep id (ground arith)

-- otm_<id>_<secret>
pub record IsKey (key prefix : Text) : Type 0 where
  pub id : Text
  pub secret : Text
  pub hex_id : is_id id ≡ true
  pub some_secret : secret ≢ []
  pub spelled : key ≡ otm ++ sep ∷ id ++ sep ∷ secret
  pub prefixed : prefix ≡ otm ++ sep ∷ id

-- otm_<kind>_<id>_<secret>
pub record IsToken (kind token prefix : Text) : Type 0 where
  pub id : Text
  pub secret : Text
  pub hex_id : is_id id ≡ true
  pub some_secret : secret ≢ []
  pub spelled : token ≡ otm ++ sep ∷ kind ++ sep ∷ (id ++ sep ∷ secret)
  pub prefixed : prefix ≡ otm ++ sep ∷ kind ++ sep ∷ id

otm-NoSep : NoSep otm
otm-NoSep = (refl, (refl, (refl, tt)))

split_key :
    (id secret : Text)
    → is_id id ≡ true
    → split_n 2 (otm ++ sep ∷ id ++ sep ∷ secret) ≡ otm ∷ id ∷ secret ∷ []
split_key id secret h = rw (
  split_n-append 1 otm (id ++ sep ∷ secret) otm-NoSep,
  split_n-append 0 id secret (id-NoSep id h),
  split_n_none secret,
)

-- Every text of the shape is accepted, with its prefix.
pub key_complete : {key prefix : Text} → IsKey key prefix → parse_key_prefix key ≡ some prefix
unfolding parse_key_prefix key_parts
key_complete k =
    rw (k.spelled, split_key k.id k.secret k.hex_id, k.hex_id, beq_ne k.secret [] k.some_secret)
      (ap some (sym k.prefixed))

key_parts_inv :
    (l : List Text) (p : Text)
    → key_parts l ≡ some p
    → (id : Text) × (secret : Text) × (l ≡ otm ∷ id ∷ secret ∷ [])
      × (is_id id ≡ true)
      × (secret ≢ [])
      × (p ≡ otm ++ sep ∷ id)
unfolding key_parts
key_parts_inv (tag ∷ id ∷ secret ∷ []) p h = (
  id,
  secret,
  ground (arith, text_beq_iff tag otm),
  ground arith,
  λ e. ground (arith, text_beq_iff secret []),
  ground arith,
)
key_parts_inv [] p h = cc
key_parts_inv _ p h = cc

-- What is accepted has the shape.
pub IsKey-sound : {key prefix : Text} → parse_key_prefix key ≡ some prefix → IsKey key prefix
unfolding parse_key_prefix
IsKey-sound {key} {prefix} h =
    let (id, secret, parts, hex, some_secret, pre) = key_parts_inv (split_n 2 key) prefix h in
    let (j, t, ej, es, et) = split_n-cons 2 key otm id (secret ∷ []) parts in
    let (i, u, ei, eu, ev) = split_n-cons j t id secret [] et in
    let last = split_n-zero u secret [] (rw (zero_of i j ej ei) at ev) in
    record {
      id = id;
      secret = secret;
      hex_id = hex;
      some_secret = some_secret;
      spelled = rw (es, eu, last.0) refl;
      prefixed = pre;
    }
  where
    zero_of : (i j : ℕ) → 2 ≡ suc j → j ≡ suc i → i ≡ 0
    zero_of i j p q = omega arith

module _ (kind : Text) (plain : NoSep kind) where
  split_token :
      (cuts : ℕ) (id secret : Text)
      → is_id id ≡ true
      → split_n (suc (suc (suc cuts))) (otm ++ sep ∷ kind ++ sep ∷ (id ++ sep ∷ secret))
        ≡ otm ∷ kind ∷ id ∷ split_n cuts secret
  split_token cuts id secret h = rw (
    split_n-append (suc (suc cuts)) otm (kind ++ sep ∷ (id ++ sep ∷ secret)) otm-NoSep,
    split_n-append (suc cuts) kind (id ++ sep ∷ secret) plain,
    split_n-append cuts id secret (id-NoSep id h),
  )

  pub token_complete :
      {token prefix : Text}
      → IsToken kind token prefix
      → parse_token_prefix kind token ≡ some prefix
  unfolding parse_token_prefix token_parts
  token_complete k =
      rw
        (
          k.spelled,
          split_token 0 k.id k.secret k.hex_id,
          split_n_none k.secret,
          k.hex_id,
          beq_self kind,
          beq_ne k.secret [] k.some_secret,
        )
        (ap some (sym k.prefixed))

token_parts_inv :
    (kind : Text) (l : List Text) (p : Text)
    → token_parts kind l ≡ some p
    → (id : Text) × (secret : Text) × (l ≡ otm ∷ kind ∷ id ∷ secret ∷ [])
      × (is_id id ≡ true)
      × (secret ≢ [])
      × (p ≡ otm ++ sep ∷ kind ++ sep ∷ id)
unfolding token_parts
token_parts_inv kind (tag ∷ k ∷ id ∷ secret ∷ []) p h = (
  id,
  secret,
  ground (arith, text_beq_iff tag otm, text_beq_iff k kind),
  ground arith,
  λ e. ground (arith, text_beq_iff secret []),
  ground arith,
)
token_parts_inv kind [] p h = cc
token_parts_inv kind _ p h = cc

pub IsToken-sound :
    {kind token prefix : Text}
    → parse_token_prefix kind token ≡ some prefix
    → IsToken kind token prefix
unfolding parse_token_prefix
IsToken-sound {kind} {token} {prefix} h =
    let (id, secret, parts, hex, some_secret, pre) =
      token_parts_inv kind (split_n 3 token) prefix h in
    let (j, t, ej, es, et) = split_n-cons 3 token otm kind (id ∷ secret ∷ []) parts in
    let (i, u, ei, eu, ev) = split_n-cons j t kind id (secret ∷ []) et in
    let (h', v, eh, ew, ex) = split_n-cons i u id secret [] ev in
    let last = split_n-zero v secret [] (rw (zero_of h' i j ej ei eh) at ex) in
    record {
      id = id;
      secret = secret;
      hex_id = hex;
      some_secret = some_secret;
      spelled = rw (es, eu, ew, last.0) refl;
      prefixed = pre;
    }
  where
    zero_of : (h' i j : ℕ) → 3 ≡ suc j → j ≡ suc i → i ≡ suc h' → h' ≡ 0
    zero_of h' i j p q s = omega arith

-- A text is never a token of two kinds.
same_kind :
    (kind kind' token : Text) {p p' : Text}
    → parse_token_prefix kind token ≡ some p
    → parse_token_prefix kind' token ≡ some p'
    → kind ≡ kind'
unfolding parse_token_prefix
same_kind kind kind' token {p} {p'} h h' =
    let (id, secret, parts, _, _, _) = token_parts_inv kind (split_n 3 token) p h in
    let (id', secret', parts', _, _, _) = token_parts_inv kind' (split_n 3 token) p' h' in
    second_eq (sym parts ∙ parts')
  where
    second_eq : {a b c d : Text} {r r' : List Text} → otm ∷ a ∷ c ∷ r ≡ otm ∷ b ∷ d ∷ r' → a ≡ b
    second_eq e = cc

-- A key is a token only of a kind that is eight characters long.
key_kind :
    (kind key : Text) {p p' : Text}
    → parse_key_prefix key ≡ some p
    → parse_token_prefix kind key ≡ some p'
    → length kind ≡ 8
unfolding parse_token_prefix
key_kind kind key {p} {p'} h h' =
    let k = IsKey-sound h in
    let (id, secret, parts, _, _, _) = token_parts_inv kind (split_n 3 key) p' h' in
    let e : split_n 3 key ≡ otm ∷ k.id ∷ split_n 1 k.secret = rw (
      k.spelled,
      split_n-append 2 otm (k.id ++ sep ∷ k.secret) otm-NoSep,
      split_n-append 1 k.id k.secret (id-NoSep k.id k.hex_id),
    ) in
    let same : kind ≡ k.id = second_eq (sym parts ∙ e) in rw same (ground (arith, k.hex_id))
  where
    second_eq : {a b : Text} {r r' : List Text} → otm ∷ a ∷ r ≡ otm ∷ b ∷ r' → a ≡ b
    second_eq e = cc

-- A text is accepted as a key with a prefix exactly if it is otm_<8 hex digits>_<secret> with a
-- secret that is not empty, and the prefix is what stands before the second separator.
pub IsKey-iff : (key prefix : Text) → (parse_key_prefix key ≡ some prefix) ↔ IsKey key prefix
IsKey-iff key prefix = (IsKey-sound, key_complete)

-- For a kind without separators a text is accepted as its token exactly if it has the kind's shape.
pub IsToken-iff :
    (kind token prefix : Text)
    → NoSep kind
    → (parse_token_prefix kind token ≡ some prefix) ↔ IsToken kind token prefix
IsToken-iff kind token prefix plain = (IsToken-sound, token_complete kind plain)

none_of : {A : Type 0} (o : Option A) → ((a : A) → o ≡ some a → ⊥) → o ≡ none
none_of none h = refl
none_of (some a) h = absurd (h a refl)

-- What is accepted as a token of one kind is neither an API key, if the kind is not as long as an
-- id, nor a token of another kind.
pub parsers_disjoint :
    (kind kind' text : Text) {p : Text}
    → length kind ≢ 8
    → kind ≢ kind'
    → parse_token_prefix kind text ≡ some p
    → (parse_key_prefix text ≡ none) × (parse_token_prefix kind' text ≡ none)
parsers_disjoint kind kind' text short other h = (
  none_of (parse_key_prefix text) (λ p' k. short (key_kind kind text k h)),
  none_of (parse_token_prefix kind' text) (λ p' k. other (same_kind kind kind' text h k)),
)
