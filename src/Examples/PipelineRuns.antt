-- ===== src/Examples/PipelineRuns.antt =====
-- A service without a master key, over the tables of one customer.
use otel_fleet.Prelude.{true, ◌≡◌, refl, codes, none, some, List, [], ◌∷◌, ◌++◌}
use otel_fleet.Store.{Customer, active, get_customer, write_audit, update_where}
use otel_fleet.Store
use otel_fleet.Tenants.Slug.{
  derive_slug, ends_well, starts_well, valid_slug, hyphenate, trim_left, drop_hyphen, trim_right,
  trim, pad_once, pad, cut,
}
use otel_fleet.Tenants.Service.{trim_space, trim_start, trim_end, audit_entry}
use otel_fleet.Pipelines.Graph.{Graph, end, exporter}
use otel_fleet.Pipelines.Naming.{pipeline_slug, pipeline_key}
use otel_fleet.Pipelines.Naming.Apart.{valid_slug-Lacks}
use otel_fleet.Pipelines.Secrets.{
  ok, transform_config, transform_node, transform_nodes, transform_graph, index_graph,
  encrypt_graph_secrets, decrypt_graph_secrets,
}
use otel_fleet.Pipelines.Render.{
  RenderPipeline, config, sort, forwarding_config, duplicate_key, render_with,
}
use otel_fleet.Pipelines.Validation.{signal_issues, validate_nodes, validate_structural}
use otel_fleet.Pipelines.Validator.{binary_unavailable, validate}
use otel_fleet.Pipelines.Versions.{
  NewPipelineVersion, Db, forwarding, version_row, insert_pipeline_version, insert_pipeline,
  create_pipeline, get_pipeline, get_pipeline_version, activate_pipeline_version, active_row,
  list_active_pipelines, list_pipelines,
}
use otel_fleet.Pipelines.Validator.{binary_unavailable}
use otel_fleet.Pipelines.Versions.{valid, pipeline_row}
use otel_fleet.Pipelines.Versions.Steps.{run, run_all}
use otel_fleet.Pipelines.Versions.Steps
use otel_fleet.Pipelines.Render.{duplicate}
use otel_fleet.Pipelines.Service.{
  Service, error, err_slug_taken, render_current, active_render_pipelines, then_do, all_to_render,
}
use otel_fleet.Pipelines.Service.Prepare.{Drawn, prepare}
use otel_fleet.Pipelines.Service.Operations.{Created, create, slug_free, activate_version}
use otel_fleet.Pipelines.Service.Slugs.{Change, creating, activating, carry_out_all, carry_out}
use otel_fleet.Pipelines.Service.Clashes.{carry_out_all-renders}
use otel_fleet.Pipelines.Service.Storable.{Storable, create-Storable}

abbrev acme : Customer
acme = record {
  id = 1;
  slug = codes "acme";
  name = codes "Acme";
  client_id = codes "cust_a";
  status = active;
  region = codes "eu";
  rate_limit_items_per_sec = none;
  retention_days = none;
  created_at = 0;
  updated_at = 0;
}

abbrev start : Db
start = record {
  base = record { customers = acme ∷ []; api_keys = []; audit_log = [] };
  pipelines = [];
  versions = [];
}

abbrev service : Service
service = record {
  validator = record {
    components = record { type = codes "otlp"; kind = exporter; schema = end } ∷ [];
    validate_config = λ _ _. [];
    print = λ _. codes "rendered";
    binary = none;
  };
  cipher = none;
  lower = λ c. c;
  sha256 = λ t. t;
  describe = λ _. [];
}

abbrev logs_graph : Graph
logs_graph = record {
  signals = codes "logs" ∷ [];
  processors = [];
  exporters = record { type = codes "otlp"; name = none; config = none } ∷ [];
}

abbrev drawn : Drawn
drawn = record { pipeline_id = 5; version_id = 10; nonces = λ _. none }

abbrev changes : List Change
changes =
    creating 3 none 1 (codes " backup") none logs_graph drawn
    ∷ creating 4 none 1 (codes "backup!") none logs_graph
        (record { pipeline_id = 6; version_id = 11; nonces = λ _. none })
    ∷ activating none 5 1
    ∷ []

abbrev inputs : List RenderPipeline
inputs =
    record {
      customer_slug = codes "acme";
      client_id = codes "cust_a";
      pipeline_slug = codes "backup";
      graph = logs_graph;
    }
    ∷ []

carry_out_all-renders_example :
    render_current service (carry_out_all service changes start)
    ≡ ok (config (forwarding_config (sort inputs)))
unfolding write_audit get_customer update_where transform_graph index_graph encrypt_graph_secrets
    decrypt_graph_secrets pipeline_slug sort duplicate_key render_with signal_issues validate_nodes
    validate_structural validate insert_pipeline_version insert_pipeline create_pipeline
    get_pipeline get_pipeline_version activate_pipeline_version active_row list_active_pipelines
    list_pipelines then_do all_to_render active_render_pipelines prepare slug_free create
    activate_version carry_out carry_out_all ends_well starts_well valid_slug hyphenate trim_left
    drop_hyphen trim_right trim pad_once pad cut derive_slug trim_end trim_start
carry_out_all-renders_example =
    carry_out_all-renders service changes start inputs tt
      ((valid_slug-Lacks (codes "acme") refl, tt), (tt, tt)) refl

abbrev first_payload : NewPipelineVersion
first_payload = record {
  id = 10;
  pipeline_id = 5;
  graph = logs_graph;
  rendered_yaml = codes "rendered";
  config_hash = codes "rendered";
  validation_status = valid;
  validation_output = some [];
  created_by = none;
}

abbrev made : Created
made = record {
  version = version_row 3 first_payload 1;
  result = record {
    is_accepted = true;
    issues = binary_unavailable ∷ [];
    rendered_yaml = some (codes "rendered");
  };
  db = record {
    base = record {
      customers = acme ∷ [];
      api_keys = [];
      audit_log =
          audit_entry none (codes "pipeline.create") (codes "pipeline") 5 1
          ∷ audit_entry none (codes "pipeline_version.create") (codes "pipeline_version") 10 1
          ∷ [];
    };
    pipelines =
        pipeline_row 3
          (record { id = 5; customer_id = 1; name = codes "backup"; target_class = forwarding })
        ∷ [];
    versions = version_row 3 first_payload 1 ∷ [];
  };
}

create-Storable_example :
    (owner : Customer) × (new : NewPipelineVersion) × (get_customer 1 start.base ≡ Store.ok owner)
    × Storable service forwarding owner
        (trim_space (codes " backup"))
        none
        logs_graph
        none
        (λ _. none)
        start
        new
    × (made.version ≡ version_row 3 new 1)
    × (made.db.versions ≡ start.versions ++ made.version ∷ [])
unfolding write_audit get_customer transform_graph index_graph encrypt_graph_secrets
    decrypt_graph_secrets pipeline_slug sort duplicate_key render_with signal_issues validate_nodes
    validate_structural validate insert_pipeline_version insert_pipeline create_pipeline
    list_active_pipelines list_pipelines then_do all_to_render active_render_pipelines prepare
    slug_free create hyphenate trim_left drop_hyphen trim_right trim pad_once pad cut derive_slug
    trim_end trim_start
create-Storable_example =
    create-Storable service 3 none 1 (codes " backup") none logs_graph drawn start made refl

-- Another name of the same slug is refused.
same_slug :
    create service 4 none 1 (codes "backup!") none logs_graph drawn made.db ≡ error err_slug_taken
unfolding get_customer pipeline_slug list_pipelines then_do slug_free create hyphenate trim_left
    drop_hyphen trim_right trim pad_once pad cut derive_slug trim_end trim_start
same_slug = refl

-- Two calls at the same time, of which the second looked for its slug before the first had inserted:
-- both pipelines are stored, and once both are active nothing is rendered.
race_clashes :
    render_current service (
      run_all
        (Steps.creating 4
            (record { id = 6; customer_id = 1; name = codes "backup!"; target_class = forwarding })
            (record first_payload { id = 11 })
            []
          ∷ Steps.activating 5 1 []
          ∷ Steps.activating 6 1 []
          ∷ [])
        made.db)
    ≡ ok (duplicate (codes "acme__backup"))
unfolding update_where decrypt_graph_secrets transform_graph transform_nodes transform_node
    transform_config pipeline_slug derive_slug pad pad_once cut trim trim_left trim_right
    drop_hyphen hyphenate pipeline_key sort duplicate_key render_with render_current
    active_render_pipelines all_to_render list_active_pipelines active_row run run_all
    create_pipeline insert_pipeline insert_pipeline_version activate_pipeline_version
    get_pipeline_version write_audit ends_well starts_well valid_slug
race_clashes = refl
