-- ===== src/Examples/RenderRuns.antt =====
-- Two customers with one pipeline each, in one forwarding configuration.
use otel_fleet.Prelude.{◌≡◌, ◌↔◌, refl, codes, text_eq, none, some, List, [], ◌∷◌}
use otel_fleet.Pipelines.Graph.{Graph, Node, Component, end, processor, exporter}
use otel_fleet.Pipelines.Naming.{component_id, pipeline_key, node_suffix, valid_node_name}
use otel_fleet.Pipelines.Render.{
  RenderPipeline, config, duplicate, sort, duplicate_key, signals_with, flat_map,
  render_forwarding_config, render_with,
}
use otel_fleet.Pipelines.Render.Routes.{of_client}
use otel_fleet.Pipelines.Render.Delivered.{exporter_ids}
use otel_fleet.Pipelines.Validation.{validate_structural, signal_issues, validate_nodes}
use otel_fleet.Pipelines.Validation.Exact.{IsWellFormed, validate_structural-exact}

abbrev otlp : Node
otlp = record { type = codes "otlp"; name = none; config = some end }

abbrev batch_node : Node
batch_node = record { type = codes "batch"; name = some (codes "a"); config = some end }

abbrev logs_graph : Graph
logs_graph = record {
  signals = codes "logs" ∷ [];
  processors = batch_node ∷ [];
  exporters = otlp ∷ otlp ∷ [];
}

abbrev zebra : RenderPipeline
zebra = record {
  customer_slug = codes "zebra";
  client_id = codes "cust_z";
  pipeline_slug = codes "backup";
  graph = logs_graph;
}

abbrev acme : RenderPipeline
acme = record {
  customer_slug = codes "acme";
  client_id = codes "cust_a";
  pipeline_slug = codes "backup";
  graph = logs_graph;
}

abbrev two : List RenderPipeline
two = zebra ∷ acme ∷ []

own_exporters :
    flat_map exporter_ids (of_client (codes "cust_z") (signals_with (codes "logs") (sort two)))
    ≡ codes "otlp/zebra__backup__0" ∷ codes "otlp/zebra__backup__1" ∷ []
unfolding sort signals_with component_id pipeline_key node_suffix
own_exporters = refl

twice_the_same : render_forwarding_config (acme ∷ acme ∷ []) ≡ duplicate (codes "acme__backup")
unfolding render_with sort duplicate_key pipeline_key
twice_the_same = refl

abbrev catalog : List Component
catalog =
    record { type = codes "otlp"; kind = exporter; schema = end }
    ∷ record { type = codes "batch"; kind = processor; schema = end }
    ∷ []

validate_structural-exact_example :
    (validate_structural catalog (λ _ _. []) logs_graph ≡ [])
    ↔ IsWellFormed catalog (λ _ _. []) logs_graph
validate_structural-exact_example = validate_structural-exact catalog (λ _ _. []) logs_graph

passes : validate_structural catalog (λ _ _. []) logs_graph ≡ []
unfolding validate_structural signal_issues validate_nodes valid_node_name component_id pipeline_key
    node_suffix
passes = refl
