-- ===== src/Pipelines/Secrets/Chain.antt =====
-- Two walks one after the other, over whole graphs (internal/pipelines/secrets.go).
use otel_fleet.Prelude.{◌≡◌, refl, ℕ, suc, Text, codes, Option, none, some, List, [], ◌∷◌, All}
use otel_fleet.Pipelines.Graph.{
  Value, Fields, Node, Graph, Kind, processor, exporter, Component, lookup,
}
use otel_fleet.Pipelines.Secrets.{
  ok, Callback, transform, transform_config, transform_node, transform_nodes, transform_graph,
  node_path,
}
use otel_fleet.Pipelines.Secrets.Marked.{secrets, Each, Each-split, at_secrets}
use otel_fleet.Pipelines.Secrets.Meets.{transform_fields_meets}
use otel_fleet.Pipelines.Secrets.Graphs.{
  PlainComponent, PlainOption, lookup-PlainOption, at_config, at_nodes, at_graph, secrets_of_config,
  secrets_of_nodes, secrets_of_graph,
}

module _ {S T : Type 0} (fn : Callback S) (gn : Callback T) (f : Text → Value → Value)
    (P : Text → Value → Type 0) (N : S → Type 0)
    (meets : (p : Text) (x : Value) (st : S) (t : T)
      → P p x
      → N st
      → (r : Value × S) × (fn p x st ≡ ok r) × N r.1 × (gn p r.0 t ≡ ok (f p x, t))) where
  config_meets :
      (o : Option Component) (c : Option Fields) (base : Text) (st : S) (t : T)
      → PlainOption o
      → Each P (secrets_of_config o c base)
      → N st
      → (r : Option Fields × S) × (transform_config fn o c base st ≡ ok r)
        × N r.1
        × (transform_config gn o r.0 base t ≡ ok (at_config f o c base, t))
  unfolding transform_config transform at_secrets secrets
  config_meets none c base st t q k n = ((c, st), refl, n, refl)
  config_meets (some comp) none base st t q k n = ((none, st), refl, n, refl)
  config_meets (some comp) (some config) base st t q k n =
      let (w, a, n', l) =
        transform_fields_meets fn gn f P N meets config comp.schema base st t (rw q at k) n in
      ((some w.0, w.1), rw (q, a), n', rw (q, l))

  nodes_meets :
      (all : List Component) (kind : Kind) (name : Text) (i : ℕ) (nodes : List Node) (st : S)
      (t : T)
      → All PlainComponent all
      → Each P (secrets_of_nodes all kind name i nodes)
      → N st
      → (r : List Node × S) × (transform_nodes all fn kind name i nodes st ≡ ok r)
        × N r.1
        × (transform_nodes all gn kind name i r.0 t ≡ ok (at_nodes f all kind name i nodes, t))
  unfolding transform_nodes transform_node
  nodes_meets all kind name i [] st t q k n = (([], st), refl, n, refl)
  nodes_meets all kind name i (m ∷ nodes) st t q k n =
      let o = lookup all kind m.type in
      let base = node_path name i in
      let (k', k'') = Each-split P (secrets_of_config o m.config base) _ k in
      let (w, a, n', l) =
        config_meets o m.config base st t (lookup-PlainOption all kind m.type q) k' n in
      let (w', a', n'', l') = nodes_meets all kind name (suc i) nodes w.1 t q k'' n' in
      ((record m { config = w.0 } ∷ w'.0, w'.1), rw (a, a'), n'', rw (l, l'))

  -- The first walk takes the graph to another, and the second takes that to f of the first one.
  pub graph_meets :
      (all : List Component) (g : Graph) (st : S) (t : T)
      → All PlainComponent all
      → Each P (secrets_of_graph all g)
      → N st
      → (r : Graph × S) × (transform_graph all fn g st ≡ ok r)
        × N r.1
        × (transform_graph all gn r.0 t ≡ ok (at_graph f all g, t))
  unfolding transform_graph
  graph_meets all g st t q k n =
      let (k', k'') =
        Each-split P (secrets_of_nodes all processor (codes "processors") 0 g.processors) _ k in
      let (w, a, n', l) =
        nodes_meets all processor (codes "processors") 0 g.processors st t q k' n in
      let (w', a', n'', l') =
        nodes_meets all exporter (codes "exporters") 0 g.exporters w.1 t q k'' n' in
      ((record g { processors = w.0; exporters = w'.0 }, w'.1), rw (a, a'), n'', rw (l, l'))
