-- ===== src/Pipelines/Secrets/Graphs.antt =====
-- The lemmas on values, for whole graphs (internal/pipelines/secrets.go).
use otel_fleet.Prelude.{
  ◌≡◌, refl, ℕ, suc, Text, codes, text_eq, ◌==◌, false, ◌&&◌, Bool-cases, inl, inr, Option, none,
  some, List, [], ◌∷◌, ◌++◌, All,
}
use otel_fleet.Pipelines.Graph.{
  Value, obj, Fields, as_map, Node, Graph, Kind, processor, exporter, Component, lookup, same_kind,
}
use otel_fleet.Pipelines.Secrets.{
  ok, is_password, Callback, transform_config, transform_node, transform_nodes, transform_graph,
  node_path, index_secret,
}
use otel_fleet.Pipelines.Secrets.Marked.{
  secrets, Each, Each-split, at_secrets, transform_at, at_fields_twice,
}
use otel_fleet.Pipelines.Secrets.Index.{puts, puts-append, transform_index}

-- The schema of a component is that of a map, and no secret itself.
abbrev pub PlainComponent : Component → Type 0
PlainComponent c = is_password c.schema ≡ false

abbrev pub PlainOption : Option Component → Type 0
PlainOption none = Unit
PlainOption (some c) = PlainComponent c

pub lookup-PlainOption :
    (all : List Component) (kind : Kind) (typ : Text)
    → All PlainComponent all
    → PlainOption (lookup all kind typ)
lookup-PlainOption [] kind typ h = tt
lookup-PlainOption (c ∷ all) kind typ h =
    elim (Bool-cases (same_kind c.kind kind && (c.type == typ))) [
      | inl q ↦ rw q h.0
      | inr q ↦ rw q (lookup-PlainOption all kind typ h.1)
    ]

-- A graph with f at each marked field.
module _ (f : Text → Value → Value) where
  abbrev pub at_config : Option Component → Option Fields → Text → Option Fields
  at_config none config base = config
  at_config (some comp) none base = none
  at_config (some comp) (some config) base =
      as_map (some (at_secrets f (obj config) (some comp.schema) base))

  abbrev pub at_node : List Component → Kind → Text → Node → Node
  at_node all kind base n = record n { config = at_config (lookup all kind n.type) n.config base }

  abbrev pub at_nodes : List Component → Kind → Text → ℕ → List Node → List Node
  at_nodes all kind name i [] = []
  at_nodes all kind name i (n ∷ nodes) =
      at_node all kind (node_path name i) n ∷ at_nodes all kind name (suc i) nodes

  abbrev pub at_graph : List Component → Graph → Graph
  at_graph all g = record g {
    processors = at_nodes all processor (codes "processors") 0 g.processors;
    exporters = at_nodes all exporter (codes "exporters") 0 g.exporters;
  }

abbrev pub secrets_of_config : Option Component → Option Fields → Text → List (Text × Value)
secrets_of_config none config base = []
secrets_of_config (some comp) none base = []
secrets_of_config (some comp) (some config) base = secrets (obj config) (some comp.schema) base

abbrev pub secrets_of_nodes : List Component → Kind → Text → ℕ → List Node → List (Text × Value)
secrets_of_nodes all kind name i [] = []
secrets_of_nodes all kind name i (n ∷ nodes) =
    secrets_of_config (lookup all kind n.type) n.config (node_path name i)
    ++ secrets_of_nodes all kind name (suc i) nodes

-- The marked fields of a graph, with their paths.
abbrev pub secrets_of_graph : List Component → Graph → List (Text × Value)
secrets_of_graph all g =
    secrets_of_nodes all processor (codes "processors") 0 g.processors
    ++ secrets_of_nodes all exporter (codes "exporters") 0 g.exporters

module _ {S : Type 0} (fn : Callback S) (f : Text → Value → Value) (P : Text → Value → Type 0)
    (acts : (path : Text) (x : Value) (st : S) → P path x → fn path x st ≡ ok (f path x, st)) where
  config_at :
      (o : Option Component) (c : Option Fields) (base : Text) (st : S)
      → Each P (secrets_of_config o c base)
      → transform_config fn o c base st ≡ ok (at_config f o c base, st)
  unfolding transform_config
  config_at none c base st e = refl
  config_at (some comp) none base st e = refl
  config_at (some comp) (some config) base st e =
      rw (transform_at fn f P acts (obj config) (some comp.schema) base st e)

  nodes_at :
      (all : List Component) (kind : Kind) (name : Text) (i : ℕ) (nodes : List Node) (st : S)
      → Each P (secrets_of_nodes all kind name i nodes)
      → transform_nodes all fn kind name i nodes st ≡ ok (at_nodes f all kind name i nodes, st)
  unfolding transform_nodes transform_node
  nodes_at all kind name i [] st e = refl
  nodes_at all kind name i (n ∷ nodes) st e =
      let (h, k) =
        Each-split P (secrets_of_config (lookup all kind n.type) n.config (node_path name i)) _ e in
      rw (
        config_at (lookup all kind n.type) n.config (node_path name i) st h,
        nodes_at all kind name (suc i) nodes st k,
      )

  pub graph_at :
      (all : List Component) (g : Graph) (st : S)
      → Each P (secrets_of_graph all g)
      → transform_graph all fn g st ≡ ok (at_graph f all g, st)
  unfolding transform_graph
  graph_at all g st e =
      let (h, k) =
        Each-split P (secrets_of_nodes all processor (codes "processors") 0 g.processors) _ e in
      rw (
        nodes_at all processor (codes "processors") 0 g.processors st h,
        nodes_at all exporter (codes "exporters") 0 g.exporters st k,
      )

config_index :
    (o : Option Component) (c : Option Fields) (base : Text) (m : Text → Option Value)
    → transform_config index_secret o c base m ≡ ok (c, puts m (secrets_of_config o c base))
unfolding transform_config
config_index none c base m = refl
config_index (some comp) none base m = refl
config_index (some comp) (some config) base m =
    rw (transform_index (obj config) (some comp.schema) base m)

nodes_index :
    (all : List Component) (kind : Kind) (name : Text) (i : ℕ) (nodes : List Node)
    (m : Text → Option Value)
    → transform_nodes all index_secret kind name i nodes m
      ≡ ok (nodes, puts m (secrets_of_nodes all kind name i nodes))
unfolding transform_nodes transform_node
nodes_index all kind name i [] m = refl
nodes_index all kind name i (n ∷ nodes) m =
    let here = secrets_of_config (lookup all kind n.type) n.config (node_path name i) in
    rw (
      config_index (lookup all kind n.type) n.config (node_path name i) m,
      nodes_index all kind name (suc i) nodes (puts m here),
      puts-append m here,
    )

pub graph_index :
    (all : List Component) (g : Graph) (m : Text → Option Value)
    → transform_graph all index_secret g m ≡ ok (g, puts m (secrets_of_graph all g))
unfolding transform_graph
graph_index all g m =
    let here = secrets_of_nodes all processor (codes "processors") 0 g.processors in
    rw (
      nodes_index all processor (codes "processors") 0 g.processors m,
      nodes_index all exporter (codes "exporters") 0 g.exporters (puts m here),
      puts-append m here,
    )

module _ (h f : Text → Value → Value) where
  abbrev Both : Text → Value → Value
  Both p x = h p (f p x)

  config_twice :
      (o : Option Component) (c : Option Fields) (base : Text)
      → PlainOption o
      → at_config h o (at_config f o c base) base ≡ at_config Both o c base
  unfolding at_secrets
  config_twice none c base q = refl
  config_twice (some comp) none base q = refl
  config_twice (some comp) (some config) base q =
      rw (q, q, at_fields_twice h f config comp.schema base)

  nodes_twice :
      (all : List Component) (kind : Kind) (name : Text) (i : ℕ) (nodes : List Node)
      → All PlainComponent all
      → at_nodes h all kind name i (at_nodes f all kind name i nodes)
        ≡ at_nodes Both all kind name i nodes
  nodes_twice all kind name i [] q = refl
  nodes_twice all kind name i (n ∷ nodes) q = rw (
    config_twice (lookup all kind n.type) n.config (node_path name i)
        (lookup-PlainOption all kind n.type q),
    nodes_twice all kind name (suc i) nodes q,
  )

  pub graph_twice :
      (all : List Component) (g : Graph)
      → All PlainComponent all
      → at_graph h all (at_graph f all g) ≡ at_graph Both all g
  graph_twice all g q = rw (
    nodes_twice all processor (codes "processors") 0 g.processors q,
    nodes_twice all exporter (codes "exporters") 0 g.exporters q,
  )
