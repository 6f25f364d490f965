-- ===== src/Examples/VersionRuns.antt =====
-- A customer with a pipeline of two versions.
use otel_fleet.Prelude.{◌≡◌, refl, subst, inl, ℕ, codes, none, some, List, [], ◌∷◌}
use otel_fleet.Store.{Customer, active}
use otel_fleet.Store
use otel_fleet.Pipelines.Graph.{Graph}
use otel_fleet.Pipelines.Render.Blocks.{In}
use otel_fleet.Pipelines.Versions.{
  forwarding, valid, PipelineRow, VersionRow, NewPipelineVersion, Db, done, row_of,
  activate_pipeline_version, list_active_pipelines, active_row, create_pipeline, insert_pipeline,
  insert_pipeline_version, create_pipeline_version, get_pipeline_version,
}
use otel_fleet.Pipelines.Versions.Invariant.{IsSound}
use otel_fleet.Pipelines.Versions.Steps.{
  Command, creating, versioning, activating, run, run_all, run_all-IsSound,
}
use otel_fleet.Pipelines.Versions.Active.{Backed, list_active_pipelines-Backed, activate-rendered}

abbrev acme : Customer
acme = record {
  id = 1;
  slug = codes "acme";
  name = codes "Acme";
  client_id = codes "cust_a";
  status = active;
  region = codes "eu";
  rate_limit_items_per_sec = none;
  retention_days = none;
  created_at = 0;
  updated_at = 0;
}

abbrev no_graph : Graph
no_graph = record { signals = []; processors = []; exporters = [] }

abbrev version : ℕ → ℕ → VersionRow
version id number = record {
  id = id;
  pipeline_id = 5;
  version = number;
  graph = no_graph;
  rendered_yaml = [];
  config_hash = [];
  validation_status = valid;
  validation_output = none;
  created_by = none;
  created_at = 3;
}

abbrev pipeline : PipelineRow
pipeline = record {
  id = 5;
  customer_id = 1;
  name = codes "backup";
  target_class = forwarding;
  active_version_id = some 11;
  created_at = 3;
}

abbrev db : Db
db = record {
  base = record { customers = acme ∷ []; api_keys = []; audit_log = [] };
  pipelines = pipeline ∷ [];
  versions = version 10 1 ∷ version 11 2 ∷ [];
}

abbrev new_version : ℕ → NewPipelineVersion
new_version id = record {
  id = id;
  pipeline_id = 5;
  graph = no_graph;
  rendered_yaml = [];
  config_hash = [];
  validation_status = valid;
  validation_output = none;
  created_by = none;
}

abbrev start : Db
start = record {
  base = record { customers = acme ∷ []; api_keys = []; audit_log = [] };
  pipelines = [];
  versions = [];
}

abbrev commands : List Command
commands =
    creating 3
      (record { id = 5; customer_id = 1; name = codes "backup"; target_class = forwarding })
      (new_version 10) []
    ∷ versioning 3 (new_version 11) []
    ∷ activating 5 2 []
    ∷ []

start-IsSound : IsSound start
start-IsSound = record { active_valid = tt; numbered = λ i. refl; owned = tt; distinct = tt }

run_all-IsSound_example : IsSound (run_all commands start)
run_all-IsSound_example = run_all-IsSound commands start start-IsSound

history : run_all commands start ≡ db
unfolding run_all run create_pipeline insert_pipeline insert_pipeline_version
    create_pipeline_version activate_pipeline_version get_pipeline_version Store.write_audit
    Store.update_where
history = refl

db-IsSound : IsSound db
db-IsSound = subst IsSound history (run_all-IsSound commands start start-IsSound)

list_active_pipelines-Backed_example :
    Backed db forwarding none (row_of pipeline acme (version 11 2))
unfolding list_active_pipelines active_row
list_active_pipelines-Backed_example =
    list_active_pipelines-Backed db forwarding none (row_of pipeline acme (version 11 2)) db-IsSound
      (inl refl)

activate-rendered_example :
    (db' : Db) × (activate_pipeline_version 5 1 [] db ≡ done (version 10 1, db'))
    × In (row_of pipeline acme (version 10 1)) (list_active_pipelines forwarding (some 1) db')
activate-rendered_example =
    activate-rendered 5 1 [] db forwarding (some 1) pipeline acme (version 10 1) db-IsSound
      (inl refl) refl refl refl refl refl
