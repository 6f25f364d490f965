-- ===== src/Pipelines/Render.antt =====
-- render.go and render_edge.go of internal/pipelines: the sections of the rendered configurations, in
-- their order. What is the same in every configuration (receivers, extensions, telemetry, the settings
-- of the shared processors) and the printing by yaml.v3 are left out.
pub mod Blocks
pub mod Routes
pub mod Delivered
pub mod Isolation
pub mod Keys
use otel_fleet.Prelude.{
  ℕ, suc, Text, codes, text_eq, nat_eq, ◌==◌, ltb, Bool, true, false, not, ◌&&◌, ◌||◌, Option, none,
  some, List, [], ◌∷◌, ◌++◌, map, any, elem, Map, empty, put, if◌then◌else◌,
}
use otel_fleet.Pipelines.Graph.{Fields, Node, Graph, signals, has_signal}
use otel_fleet.Pipelines.Naming.{pipeline_key, collector_pipeline_id, component_id}

pub record RenderPipeline : Type 0 where
  pub customer_slug : Text
  pub client_id : Text
  pub pipeline_slug : Text
  pub graph : Graph

abbrev pub routing_connector_id : Text → Text
routing_connector_id signal = codes "routing/tenants_" ++ signal

-- Go's < on strings
abbrev pub text_ltb : Text → Text → Bool
text_ltb s [] = false
text_ltb [] (b ∷ t) = true
text_ltb (a ∷ s) (b ∷ t) = ltb a b || (a == b && text_ltb s t)

-- less of the calls of sort.Slice
abbrev pub before : RenderPipeline → RenderPipeline → Bool
before p q =
    if not (p.customer_slug == q.customer_slug)
    then text_ltb p.customer_slug q.customer_slug
    else text_ltb p.pipeline_slug q.pipeline_slug

abbrev pub insert : RenderPipeline → List RenderPipeline → List RenderPipeline
insert p [] = p ∷ []
insert p (q ∷ ps) = if before q p then q ∷ insert p ps else p ∷ q ∷ ps

-- sort.Slice
unfoldable pub sort : List RenderPipeline → List RenderPipeline
sort [] = []
sort (p ∷ ps) = insert p (sort ps)

abbrev pub key_of : RenderPipeline → Text
key_of p = pipeline_key p.customer_slug p.pipeline_slug

-- The first key that occurs again.
unfoldable pub duplicate_key : List RenderPipeline → Option Text
duplicate_key [] = none
duplicate_key (p ∷ ps) =
    let rest = duplicate_key ps in
    if any (λ q. key_of q == key_of p) ps then some (key_of p) else rest

-- for _, s := range p.Graph.Signals { if s == sig { append(p) } }
abbrev pub carried : Text → RenderPipeline → List Text → List RenderPipeline
carried sig p [] = []
carried sig p (s ∷ sigs) = let rest = carried sig p sigs in if s == sig then p ∷ rest else rest

-- signalsWith[sig]
unfoldable pub signals_with : Text → List RenderPipeline → List RenderPipeline
signals_with sig [] = []
signals_with sig (p ∷ ps) = carried sig p p.graph.signals ++ signals_with sig ps

-- The nodes with their component ids.
abbrev pub components_from : ℕ → List Node → RenderPipeline → List (Text × Option Fields)
components_from i [] p = []
components_from i (n ∷ nodes) p =
    (component_id n i p.customer_slug p.pipeline_slug, n.config) ∷ components_from (suc i) nodes p

abbrev pub processors_of : RenderPipeline → List (Text × Option Fields)
processors_of p = components_from 0 p.graph.processors p

abbrev pub exporters_of : RenderPipeline → List (Text × Option Fields)
exporters_of p = components_from 0 p.graph.exporters p

abbrev pub ids : List (Text × Option Fields) → List Text
ids cs = map (λ (c : Text × Option Fields). c.0) cs

abbrev pub flat_map {ℓ κ} : {A : Type ℓ} {B : Type κ} → (A → List B) → List A → List B
flat_map f [] = []
flat_map f (x ∷ xs) = f x ++ flat_map f xs

-- An entry of service.pipelines; the processors are left away where there are none.
pub record CollectorPipeline : Type 0 where
  pub receivers : List Text
  pub processors : Option (List Text)
  pub exporters : List Text

abbrev pub Table : Type 0
Table = List (Text × List Text)

-- A rendered configuration.
pub record Config : Type 0 where
  pub processors : List (Text × Option Fields)
  pub connectors : List (Text × Table)
  pub exporters : List (Text × Option Fields)
  pub pipelines : List (Text × CollectorPipeline)

-- The lookup of a YAML mapping.
abbrev pub entry_of {ℓ} : {V : Type ℓ} → List (Text × V) → Text → Option V
entry_of [] k = none
entry_of ((j, v) ∷ l) k = if j == k then some v else entry_of l k

-- clientOrder and byClient
pub record ByClient : Type 0 where
  pub client_order : List Text
  pub by_client : Map Text (List Text)

abbrev pub ids_so_far : Option (List Text) → List Text
ids_so_far none = []
ids_so_far (some l) = l

abbrev pub order_with : Option (List Text) → List Text → Text → List Text
order_with none order client = order ++ client ∷ []
order_with (some l) order client = order

abbrev pub grouped_with : Text → ByClient → RenderPipeline → ByClient
grouped_with sig st p = record {
  client_order = order_with (st.by_client p.client_id) st.client_order p.client_id;
  by_client = put st.by_client p.client_id (
      ids_so_far (st.by_client p.client_id)
      ++ collector_pipeline_id sig p.customer_slug p.pipeline_slug ∷ []);
}

unfoldable pub group : Text → ByClient → List RenderPipeline → ByClient
group sig st [] = st
group sig st (p ∷ routed) = group sig (grouped_with sig st p) routed

abbrev pub no_clients : ByClient
no_clients = record { client_order = []; by_client = empty }

-- The table of the routing connector of a signal. The condition of an entry, that the tenant.id of the
-- resource is the client's, is the client's id.
abbrev pub table_of : Text → List RenderPipeline → Table
table_of sig routed =
    let st = group sig no_clients routed in
    map (λ (client : Text). (client, ids_so_far (st.by_client client))) st.client_order

-- Only a signal with pipelines has a connector.
abbrev pub add_connector : Text → List RenderPipeline → List (Text × Table) → List (Text × Table)
add_connector sig [] rest = rest
add_connector sig (p ∷ routed) rest = (routing_connector_id sig, table_of sig (p ∷ routed)) ∷ rest

abbrev pub connectors_of : List Text → List RenderPipeline → List (Text × Table)
connectors_of [] ps = []
connectors_of (sig ∷ sigs) ps = add_connector sig (signals_with sig ps) (connectors_of sigs ps)

abbrev pub is_nil {ℓ} : {A : Type ℓ} → List A → Bool
is_nil [] = true
is_nil (x ∷ xs) = false

abbrev pub is_unrouted : List RenderPipeline → Text → Bool
is_unrouted ps sig = is_nil (signals_with sig ps)

abbrev pub sink_of : List RenderPipeline → Text → Text
sink_of ps sig = if is_unrouted ps sig then codes "debug" else routing_connector_id sig

abbrev pub shared_processors : List Text
shared_processors = codes "memory_limiter" ∷ codes "batch" ∷ []

abbrev pub entry_id : Text → Text
entry_id sig = sig ++ codes "/in"

abbrev pub entry_pipelines : (Text → Text) → List Text → List (Text × CollectorPipeline)
entry_pipelines sink [] = []
entry_pipelines sink (sig ∷ sigs) =
    (
      entry_id sig,
      record {
        receivers = codes "otlp" ∷ [];
        processors = some shared_processors;
        exporters = sink sig ∷ [];
      },
    )
    ∷ entry_pipelines sink sigs

abbrev pub non_empty : List Text → Option (List Text)
non_empty [] = none
non_empty (x ∷ xs) = some (x ∷ xs)

-- The collector pipeline of a customer's pipeline for a signal.
abbrev pub collector_pipeline : Text → RenderPipeline → CollectorPipeline
collector_pipeline sig p = record {
  receivers = routing_connector_id sig ∷ [];
  processors = non_empty (ids (processors_of p));
  exporters = ids (exporters_of p);
}

-- edgeProcessorIDs
abbrev pub edge_processor_ids : RenderPipeline → List Text
edge_processor_ids p = shared_processors ++ ids (processors_of p)

abbrev pub edge_collector_pipeline : Text → RenderPipeline → CollectorPipeline
edge_collector_pipeline sig p = record {
  receivers = codes "otlp" ∷ [];
  processors = some (edge_processor_ids p);
  exporters = ids (exporters_of p);
}

-- The entries of one pipeline, in the order of the signals.
abbrev pub block_of :
    (Text → RenderPipeline → CollectorPipeline)
    → List Text
    → RenderPipeline
    → List (Text × CollectorPipeline)
block_of make [] p = []
block_of make (sig ∷ sigs) p =
    let rest = block_of make sigs p in
    if has_signal p.graph sig
    then (collector_pipeline_id sig p.customer_slug p.pipeline_slug, make sig p) ∷ rest
    else rest

abbrev pub shared_configs : List (Text × Option Fields)
shared_configs = map (λ (n : Text). (n, none)) shared_processors

abbrev pub debug_config : Bool → List (Text × Option Fields)
debug_config needed = if needed then (codes "debug", none) ∷ [] else []

-- RenderForwardingConfig after its check, over the sorted pipelines
unfoldable pub forwarding_config : List RenderPipeline → Config
forwarding_config ps = record {
  processors = shared_configs ++ flat_map processors_of ps;
  connectors = connectors_of signals ps;
  exporters = debug_config (any (is_unrouted ps) signals) ++ flat_map exporters_of ps;
  pipelines =
      entry_pipelines (sink_of ps) signals ++ flat_map (block_of collector_pipeline signals) ps;
}

-- RenderEdgeConfig after its check, over the sorted pipelines
unfoldable pub edge_config : List RenderPipeline → Config
edge_config ps = record {
  processors = shared_configs ++ flat_map processors_of ps;
  connectors = [];
  exporters = debug_config (is_nil ps) ++ flat_map exporters_of ps;
  pipelines =
      (if is_nil ps then entry_pipelines (λ _. codes "debug") signals else [])
      ++ flat_map (block_of edge_collector_pipeline signals) ps;
}

-- A configuration, or the key that two pipelines share.
pub data Rendered : Type 0 where
  config : Config → Rendered
  duplicate : Text → Rendered

unfoldable pub render_with : (List RenderPipeline → Config) → List RenderPipeline → Rendered
render_with make pipelines = elim (duplicate_key (sort pipelines)) [
  | none ↦ config (make (sort pipelines))
  | some key ↦ duplicate key
]

-- RenderForwardingConfig
abbrev pub render_forwarding_config : List RenderPipeline → Rendered
render_forwarding_config = render_with forwarding_config

-- RenderEdgeConfig
abbrev pub render_edge_config : List RenderPipeline → Rendered
render_edge_config = render_with edge_config

-- RenderFragment and RenderEdgeFragment
unfoldable pub fragment : (Text → RenderPipeline → CollectorPipeline) → RenderPipeline → Config
fragment make p = record {
  processors = processors_of p;
  connectors = [];
  exporters = exporters_of p;
  pipelines = block_of make signals p;
}

abbrev pub render_fragment : RenderPipeline → Config
render_fragment = fragment collector_pipeline

abbrev pub render_edge_fragment : RenderPipeline → Config
render_edge_fragment = fragment edge_collector_pipeline
