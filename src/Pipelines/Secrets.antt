-- ===== src/Pipelines/Secrets.antt =====
-- secrets.go of internal/pipelines. The callbacks of transformSecrets carry a state and may fail; the
-- cipher is that of internal/crypto, with the bytes of its nonces in `nonce_at`, one for each path.
pub mod Marked
pub mod Index
pub mod Meets
pub mod Graphs
pub mod Chain
pub mod Redaction
pub mod Editing
pub mod Decryption
use otel_fleet.Prelude.{
  ℕ, suc, Text, codes, text_eq, ◌==◌, Bool, true, false, Option, none, some, List, [], ◌∷◌, ◌++◌,
  Map, empty, put, decimal, if◌then◌else◌,
}
use otel_fleet.Crypto.Base64.{std_encode, std_decode}
use otel_fleet.Crypto.Cipher.{Cipher, CryptoError, done, failed, configured, encrypt, decrypt}
use otel_fleet.Pipelines.Graph.{
  Value, null, bool, num, str, arr, obj, Items, nil, cons, Fields, end, field, field_of, as_map,
  as_string, Node, Graph, Kind, processor, exporter, Component, lookup,
}

abbrev pub redacted_sentinel : Text
redacted_sentinel = codes "__otel_fleet_redacted__"

abbrev pub enc_key : Text
enc_key = codes "$enc"

-- encValue
unfoldable pub enc_value : Value → Option Text
enc_value (obj (field k (str s) end)) = if k == enc_key then std_decode s else none
enc_value _ = none

unfoldable pub new_enc_value : Text → Value
new_enc_value ciphertext = obj (field enc_key (str (std_encode ciphertext)) end)

-- An error, wrapped with the path of the field where it occurred.
pub data Attempt {ℓ} (A : Type ℓ) : Type ℓ where
  ok : A → Attempt A
  failed_at : Text → CryptoError → Attempt A

infixl 5 ◌>>=◌
abbrev pub ◌>>=◌ {ℓ κ} : {A : Type ℓ} {B : Type κ} → Attempt A → (A → Attempt B) → Attempt B
ok a >>= f = f a
failed_at p e >>= f = failed_at p e

-- schema["format"] is "password"
abbrev pub is_password : Fields → Bool
is_password schema = elim (as_string (field_of schema (codes "format"))) [
  | none ↦ false
  | some f ↦ f == codes "password"
]

-- The schema of the field k.
abbrev pub sub_schema : Fields → Text → Option Fields
sub_schema schema k =
    let addl = as_map (field_of schema (codes "additionalProperties")) in
    elim (as_map (field_of schema (codes "properties"))) [
      | none ↦ addl
      | some props ↦ elim (as_map (field_of props k)) [ none ↦ addl | some sub ↦ some sub ]
    ]

abbrev pub items_schema : Fields → Option Fields
items_schema schema = as_map (field_of schema (codes "items"))

abbrev pub field_path : Text → Text → Text
field_path path k = path ++ (codes "." ++ k)

abbrev pub item_path : Text → ℕ → Text
item_path path i = path ++ (codes "[" ++ (decimal i ++ codes "]"))

-- The result at a value: it stays the same without a schema, the callback's where the schema marks
-- it, and else what is made of the values below.
abbrev pub visit {ℓ} : {R : Type ℓ} → Option Fields → R → R → (Fields → R) → R
visit none same marked below = same
visit (some schema) same marked below = if is_password schema then marked else below schema

-- The result at a list: it stays the same where the schema says nothing of its items.
abbrev pub below_items {ℓ} : {R : Type ℓ} → Option Fields → R → (Option Fields → R) → R
below_items none same below = same
below_items (some items) same below = below (some items)

abbrev pub map_result {ℓ κ υ} :
    {A : Type ℓ} {B : Type κ} {S : Type υ} → (A → B) → Attempt (A × S) → Attempt (B × S)
map_result f m = m >>= λ r. ok (f r.0, r.1)

abbrev pub Callback {ℓ} : Type ℓ → Type ℓ
Callback S = Text → Value → S → Attempt (Value × S)

-- transformSecrets
unfoldable mutual
  pub transform {ℓ} :
      {S : Type ℓ} → Callback S → Value → Option Fields → Text → S → Attempt (Value × S)
  transform fn null schema path st =
      visit schema (ok (null, st)) (fn path null st) λ _. ok (null, st)
  transform fn (bool b) schema path st =
      visit schema (ok (bool b, st)) (fn path (bool b) st) λ _. ok (bool b, st)
  transform fn (num n) schema path st =
      visit schema (ok (num n, st)) (fn path (num n) st) λ _. ok (num n, st)
  transform fn (str s) schema path st =
      visit schema (ok (str s, st)) (fn path (str s) st) λ _. ok (str s, st)
  transform fn (arr xs) schema path st = visit schema (ok (arr xs, st)) (fn path (arr xs) st) λ m.
      below_items (items_schema m) (ok (arr xs, st))
        λ items. map_result arr (transform_items fn xs items path 0 st)
  transform fn (obj fs) schema path st =
      visit schema (ok (obj fs, st)) (fn path (obj fs) st)
        λ m. map_result obj (transform_fields fn fs m path st)

  pub transform_items {ℓ} :
      {S : Type ℓ} → Callback S → Items → Option Fields → Text → ℕ → S → Attempt (Items × S)
  transform_items fn nil schema path i st = ok (nil, st)
  transform_items fn (cons x xs) schema path i st =
      transform fn x schema (item_path path i) st >>= λ r.
      map_result (cons r.0) (transform_items fn xs schema path (suc i) r.1)

  pub transform_fields {ℓ} :
      {S : Type ℓ} → Callback S → Fields → Fields → Text → S → Attempt (Fields × S)
  transform_fields fn end schema path st = ok (end, st)
  transform_fields fn (field k x fs) schema path st =
      transform fn x (sub_schema schema k) (field_path path k) st >>= λ r.
      map_result (field k r.0) (transform_fields fn fs schema path r.1)

-- The configuration of a node, left as it is for an unknown type and where it is nil.
unfoldable pub transform_config {ℓ} :
    {S : Type ℓ}
    → Callback S
    → Option Component
    → Option Fields
    → Text
    → S
    → Attempt (Option Fields × S)
unfolding transform
transform_config fn none config base st = ok (config, st)
transform_config fn (some comp) none base st = ok (none, st)
transform_config fn (some comp) (some config) base st =
    map_result (λ v. as_map (some v)) (transform fn (obj config) (some comp.schema) base st)

-- The body of the loop of transformGraphSecrets.
unfoldable pub transform_node {ℓ} :
    {S : Type ℓ} → List Component → Callback S → Kind → Text → Node → S → Attempt (Node × S)
unfolding transform_config
transform_node all fn kind base n st =
    map_result (λ c. record n { config = c })
      (transform_config fn (lookup all kind n.type) n.config base st)

abbrev pub node_path : Text → ℕ → Text
node_path name i = item_path name i ++ codes ".config"

unfoldable pub transform_nodes {ℓ} :
    {S : Type ℓ}
    → List Component
    → Callback S
    → Kind
    → Text
    → ℕ
    → List Node
    → S
    → Attempt (List Node × S)
unfolding transform_node
transform_nodes all fn kind name i [] st = ok ([], st)
transform_nodes all fn kind name i (n ∷ nodes) st =
    transform_node all fn kind (node_path name i) n st >>= λ r.
    map_result (λ rest. r.0 ∷ rest) (transform_nodes all fn kind name (suc i) nodes r.1)

-- transformGraphSecrets
unfoldable pub transform_graph {ℓ} :
    {S : Type ℓ} → List Component → Callback S → Graph → S → Attempt (Graph × S)
unfolding transform_nodes
transform_graph all fn g st =
    transform_nodes all fn processor (codes "processors") 0 g.processors st >>= λ p.
    transform_nodes all fn exporter (codes "exporters") 0 g.exporters p.1 >>= λ e.
    ok (record g { processors = p.0; exporters = e.0 }, e.1)

-- Issue, of the two kinds that secrets have: the text of the second names an example key.
pub data SecretIssue : Type 0 where
  redacted_without_secret : Text → SecretIssue
  no_master_key : Text → SecretIssue

-- What EncryptGraphSecrets keeps between its fields: how many nonces were drawn, and the issues.
pub record Encrypting : Type 0 where
  pub drawn : ℕ
  pub issues : List SecretIssue

abbrev pub add_issue : SecretIssue → Encrypting → Encrypting
add_issue issue st = record st { issues = st.issues ++ issue ∷ [] }

-- The callback that indexes the secrets of the previous version.
unfoldable pub index_secret : Callback (Map Text Value)
index_secret path value m = ok (value, put m path value)

-- A graph to store, or the issues where there are any.
pub data Prepared : Type 0 where
  stored : Graph → Prepared
  refused : List SecretIssue → Prepared

abbrev pub conclude : Graph → List SecretIssue → Prepared
conclude g [] = stored g
conclude g (issue ∷ rest) = refused (issue ∷ rest)

-- The text of a legacy secret; any other value counts as the empty one.
abbrev pub legacy_text : Value → Text
legacy_text (str s) = s
legacy_text _ = []

-- The table of the previous version's secrets by path.
unfoldable pub index_graph : List Component → Option Graph → Attempt (Map Text Value)
index_graph all none = ok empty
index_graph all (some prev) = transform_graph all index_secret prev empty >>= λ r. ok r.1

module _ (cipher : Option Cipher) (rand : ℕ → Option Text) where
  unfoldable pub seal_at : Text → Value → Text → Encrypting → Attempt (Value × Encrypting)
  seal_at path value s st = elim (encrypt cipher (rand st.drawn) s) [
    | done ct ↦ ok (new_enc_value ct, record st { drawn = suc st.drawn })
    | failed e ↦
        if configured cipher
        then failed_at path e
        else ok (value, add_issue (no_master_key path) st)
  ]

  unfoldable pub restore_at :
      Text → Value → Option Value → Encrypting → Attempt (Value × Encrypting)
  unfolding seal_at enc_value
  restore_at path value none st = ok (value, add_issue (redacted_without_secret path) st)
  restore_at path value (some prev) st = elim (enc_value prev) [
    | some _ ↦ ok (prev, st)
    | none ↦ seal_at path value (legacy_text prev) st
  ]

  -- The callback of EncryptGraphSecrets.
  unfoldable pub encrypt_secret : Map Text Value → Callback Encrypting
  unfolding enc_value seal_at restore_at
  encrypt_secret prev_secrets path value st = elim (enc_value value) [
    | some _ ↦ ok (value, st)
    | none ↦ elim (as_string (some value)) [
      | none ↦ ok (value, st)
      | some s ↦
          if s == redacted_sentinel
          then restore_at path value (prev_secrets path) st
          else seal_at path value s st
    ]
  ]

  -- EncryptGraphSecrets
  unfoldable pub encrypt_graph_secrets : List Component → Graph → Option Graph → Attempt Prepared
  encrypt_graph_secrets all g prev = index_graph all prev >>= λ prev_secrets.
      transform_graph all (encrypt_secret prev_secrets) g (record { drawn = 0; issues = [] })
      >>= λ r. ok (conclude r.0 r.1.issues)

module _ (cipher : Option Cipher) where
  -- The callback of DecryptGraphSecrets.
  unfoldable pub decrypt_secret : Callback (Unit {0})
  unfolding enc_value
  decrypt_secret path value st = elim (enc_value value) [
    | none ↦ ok (value, st)
    | some ct ↦ elim (decrypt cipher ct) [ done pt ↦ ok (str pt, st) | failed e ↦ failed_at path e ]
  ]

  -- DecryptGraphSecrets
  unfoldable pub decrypt_graph_secrets : List Component → Graph → Attempt Graph
  decrypt_graph_secrets all g = transform_graph all decrypt_secret g tt >>= λ r. ok r.0

-- The callback of RedactGraphSecrets, which leaves null alone.
unfoldable pub redact_secret : Callback (Unit {0})
redact_secret path null st = ok (null, st)
redact_secret path _ st = ok (str redacted_sentinel, st)

abbrev pub empty_graph : Graph
empty_graph = record { signals = []; processors = []; exporters = [] }

-- The error is dropped, and with it the graph would be.
abbrev pub graph_or_empty : Attempt (Graph × Unit {0}) → Graph
graph_or_empty (ok r) = r.0
graph_or_empty (failed_at p e) = empty_graph

-- RedactGraphSecrets
unfoldable pub redact_graph_secrets : List Component → Graph → Graph
redact_graph_secrets all g = graph_or_empty (transform_graph all redact_secret g tt)
