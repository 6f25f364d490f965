-- ===== src/Pipelines/Secrets/Editing.antt =====
-- A stored graph that goes out redacted and comes back: RedactGraphSecrets and EncryptGraphSecrets of
-- internal/pipelines/secrets.go.
use otel_fleet.Prelude.{
  ◌≡◌, ◌⊎◌, refl, ◌∙◌, sym, ap, subst, ℕ, suc, Text, Bool-cases, inl, inr, Option, Option-cases,
  none, some, List, [], ◌∷◌, All, Map, empty, codes, arith,
}
use otel_fleet.Crypto.Cipher.{Cipher}
use otel_fleet.Pipelines.Graph.{
  Value, null, bool, num, str, arr, obj, Items, nil, cons, Fields, end, field, Graph, Component,
  Kind, Node, lookup, processor, exporter,
}
use otel_fleet.Pipelines.Secrets.{
  ok, is_password, sub_schema, items_schema, field_path, item_path, redacted_sentinel, enc_value,
  redact_secret, redact_graph_secrets, encrypt_secret, encrypt_graph_secrets, index_graph,
  restore_at, Encrypting, stored, node_path,
}
use otel_fleet.Pipelines.Secrets.Marked.{Each, at_secrets, at_items, at_fields}
use otel_fleet.Pipelines.Secrets.Index.{puts, Apart, puts-Each}
use otel_fleet.Pipelines.Secrets.Graphs.{
  PlainComponent, at_config, at_nodes, at_graph, secrets_of_graph, graph_index,
}
use otel_fleet.Pipelines.Secrets.Chain.{graph_meets}
use otel_fleet.Pipelines.Secrets.Redaction.{hide, hide_value, redact_secret_lem}

abbrev same : Text → Value → Value
same p x = x

mutual
  unfolding at_secrets

  at_secrets_same :
      (v : Value) (schema : Option Fields) (path : Text) → at_secrets same v schema path ≡ v
  at_secrets_same null none path = refl
  at_secrets_same (bool b) none path = refl
  at_secrets_same (num n) none path = refl
  at_secrets_same (str s) none path = refl
  at_secrets_same (arr xs) none path = refl
  at_secrets_same (obj fs) none path = refl
  at_secrets_same null (some m) path = ground arith
  at_secrets_same (bool b) (some m) path = ground arith
  at_secrets_same (num n) (some m) path = ground arith
  at_secrets_same (str s) (some m) path = ground arith
  at_secrets_same (arr xs) (some m) path = elim (Bool-cases (is_password m)) [
    | inl q ↦ rw q
    | inr q ↦ elim (Option-cases (items_schema m)) [
      | inl e ↦ rw (q, e)
      | inr (o, e) ↦ rw (q, e, at_items_same xs (some o) path 0)
    ]
  ]
  at_secrets_same (obj fs) (some m) path = elim (Bool-cases (is_password m)) [
    | inl q ↦ rw q
    | inr q ↦ rw (q, at_fields_same fs m path)
  ]

  at_items_same :
      (xs : Items) (schema : Option Fields) (path : Text) (i : ℕ)
      → at_items same xs schema path i ≡ xs
  at_items_same nil schema path i = refl
  at_items_same (cons x xs) schema path i =
      rw (at_secrets_same x schema (item_path path i), at_items_same xs schema path (suc i))

  at_fields_same :
      (fs : Fields) (schema : Fields) (path : Text) → at_fields same fs schema path ≡ fs
  at_fields_same end schema path = refl
  at_fields_same (field k x fs) schema path =
      rw
        (at_secrets_same x (sub_schema schema k) (field_path path k), at_fields_same fs schema path)

config_same : (o : Option Component) (c : Option Fields) (base : Text) → at_config same o c base ≡ c
config_same none c base = refl
config_same (some comp) none base = refl
config_same (some comp) (some config) base =
    rw (at_secrets_same (obj config) (some comp.schema) base)

nodes_same :
    (all : List Component) (kind : Kind) (name : Text) (i : ℕ) (nodes : List Node)
    → at_nodes same all kind name i nodes ≡ nodes
nodes_same all kind name i [] = refl
nodes_same all kind name i (n ∷ nodes) = rw (
  config_same (lookup all kind n.type) n.config (node_path name i),
  nodes_same all kind name (suc i) nodes,
)

graph_same : (all : List Component) (g : Graph) → at_graph same all g ≡ g
graph_same all g = rw (
  nodes_same all processor (codes "processors") 0 g.processors,
  nodes_same all exporter (codes "exporters") 0 g.exporters,
)

-- A stored secret: a marker, or null.
abbrev pub IsStored : Text → Value → Type 0
IsStored p x = (x ≡ null) ⊎ ((ct : Text) × (enc_value x ≡ some ct))

Each-and :
    (P Q : Text → Value → Type 0) (l : List (Text × Value))
    → Each P l
    → Each Q l
    → Each (λ p x. P p x × Q p x) l
Each-and P Q [] h k = tt
Each-and P Q ((p, x) ∷ l) h k = ((h.0, k.0), Each-and P Q l h.1 k.1)

module _ (cipher : Option Cipher) (rand : ℕ → Option Text) (table : Map Text Value) where
  restored_at :
      (p : Text) (x : Value) (t : Encrypting)
      → IsStored p x
      → table p ≡ some x
      → encrypt_secret cipher rand table p (hide p x) t ≡ ok (x, t)
  unfolding encrypt_secret restore_at enc_value
  restored_at p x t (inl q) k =
      subst (λ v. encrypt_secret cipher rand table p (hide p v) t ≡ ok (v, t)) (sym q) refl
  restored_at p x t (inr (ct, q)) k =
      let shown : hide p x ≡ str redacted_sentinel =
        hide_value p x (λ z. let y : some ct ≡ none = sym q ∙ ap enc_value z in cc) in
      ap (λ v. encrypt_secret cipher rand table p v t) shown ∙ rw (k, restore_at, q)

  restored :
      (p : Text) (x : Value) (st : Unit {0}) (t : Encrypting)
      → IsStored p x × (table p ≡ some x)
      → Unit {0}
      → (r : Value × Unit {0}) × (redact_secret p x st ≡ ok r)
        × Unit {0}
        × (encrypt_secret cipher rand table p r.0 t ≡ ok (x, t))
  restored p x st t (h, k) n =
      ((hide p x, st), redact_secret_lem p x st tt, tt, restored_at p x t h k)

-- A stored graph that was redacted, and comes back as it went out, is stored with the same secrets,
-- without a key being used: its secrets are markers or null, and no two of them have the same path.
-- It needs no master key, and draws no random bytes.
pub encrypt-redact :
    (cipher : Option Cipher) (rand : ℕ → Option Text) (all : List Component) (g : Graph)
    → All PlainComponent all
    → Each IsStored (secrets_of_graph all g)
    → Apart (secrets_of_graph all g)
    → encrypt_graph_secrets cipher rand all (redact_graph_secrets all g) (some g) ≡ ok (stored g)
unfolding encrypt_graph_secrets index_graph redact_graph_secrets
encrypt-redact cipher rand all g q k a =
    let table = puts empty (secrets_of_graph all g) in
    let start : Encrypting = record { drawn = 0; issues = [] } in
    let (r, e, _, l) =
      graph_meets redact_secret (encrypt_secret cipher rand table) same _ (λ _. Unit)
        (restored cipher rand table) all g tt start q (Each-and _ _ _ k (puts-Each empty _ a)) tt in
    rw (graph_index all g empty, e, l) (ap (λ v. ok (stored v)) (graph_same all g))
