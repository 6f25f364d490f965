-- ===== src/Examples/NamingRuns.antt =====
-- A node without a name at index 1, and a node that is named 1.
use otel_fleet.Prelude.{◌≡◌, refl, codes, text_eq, nat_eq, Bool, none, some, arith}
use otel_fleet.Tenants.Slug.{valid_slug, starts_well, ends_well}
use otel_fleet.Pipelines.Graph.{Node}
use otel_fleet.Pipelines.Naming.{
  pipeline_key, node_suffix, component_id, component_type, valid_node_name,
}
use otel_fleet.Pipelines.Naming.Apart.{component_id_inj}

abbrev unnamed : Node
unnamed = record { type = codes "otlp"; name = none; config = none }

abbrev named : Node
named = record { type = codes "otlp"; name = some (codes "1"); config = none }

component_id_inj_example :
    (unnamed.type ≡ named.type)
    × (codes "acme-corp" ≡ codes "acme-corp")
    × (codes "backup" ≡ codes "backup")
    × (node_suffix unnamed.name 1 ≡ node_suffix named.name 0)
    × (component_type (component_id unnamed 1 (codes "acme-corp") (codes "backup")) ≡ unnamed.type)
unfolding component_id pipeline_key node_suffix valid_slug starts_well ends_well
component_id_inj_example =
    component_id_inj unnamed named 1 0 (codes "acme-corp") (codes "acme-corp") (codes "backup")
      (codes "backup") (omega arith, (omega arith, (omega arith, (omega arith, tt))))
      (omega arith, (omega arith, (omega arith, (omega arith, tt)))) refl refl refl refl refl

ids :
    (component_id unnamed 1 (codes "acme-corp") (codes "backup")
      ≡ codes "otlp/acme-corp__backup__1")
    × (valid_node_name (codes "a_b") ≡ Bool.false)
unfolding component_id pipeline_key node_suffix valid_node_name
ids = (refl, refl)
