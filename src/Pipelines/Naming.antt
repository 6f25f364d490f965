-- ===== src/Pipelines/Naming.antt =====
-- naming.go of internal/pipelines.
pub mod Apart
use otel_fleet.Prelude.{
  ℕ, zero, suc, Text, codes, text_eq, nat_eq, ◌==◌, Bool, true, false, not, ◌&&◌, ◌||◌, leb, Option,
  none, some, List, [], ◌∷◌, ◌++◌, all, length, if◌then◌else◌, decimal,
}
use otel_fleet.Pipelines.Graph.{Node}
use otel_fleet.Tenants.Slug.{derive_slug, is_slug_char, is_alnum}

-- PipelineSlug
unfoldable pub pipeline_slug : (ℕ → ℕ) → Text → Text
pipeline_slug lower name = derive_slug lower name

unfoldable pub pipeline_key : Text → Text → Text
pipeline_key customer_slug slug = customer_slug ++ (codes "__" ++ slug)

-- CollectorPipelineID
unfoldable pub collector_pipeline_id : Text → Text → Text → Text
collector_pipeline_id signal customer_slug slug =
    signal ++ (codes "/" ++ pipeline_key customer_slug slug)

-- nodeSuffix: the name, or else the index.
unfoldable pub node_suffix : Option Text → ℕ → Text
node_suffix none idx = decimal idx
node_suffix (some name) idx = if name == [] then decimal idx else name

-- ComponentID
unfoldable pub component_id : Node → ℕ → Text → Text → Text
component_id n idx customer_slug slug =
    n.type
    ++ (codes "/" ++ (pipeline_key customer_slug slug ++ (codes "__" ++ node_suffix n.name idx)))

-- ComponentType: what stands before the first slash.
unfoldable pub component_type : Text → Text
component_type [] = []
component_type (c ∷ s) = let rest = component_type s in if c == b'/' then [] else c ∷ rest

-- ValidNodeName: ^[a-z0-9][a-z0-9-]{0,63}$
unfoldable pub valid_node_name : Text → Bool
valid_node_name [] = false
valid_node_name (c ∷ s) = is_alnum c && all is_slug_char s && leb (length s) 63
