-- ===== src/Pipelines/Validator.antt =====
-- Validator.Validate of validate.go: the two stages that a candidate passes. The printing by yaml.v3 and
-- the run of the collector binary are arguments.
use otel_fleet.Prelude.{Text, Bool, true, false, Option, none, some, List, [], ◌∷◌, ◌++◌, map}
use otel_fleet.Pipelines.Graph.{Fields, Component}
use otel_fleet.Pipelines.Secrets.{SecretIssue}
use otel_fleet.Pipelines.Render.{
  RenderPipeline, Config, Rendered, config, duplicate, render_forwarding_config, render_edge_config,
  render_fragment, render_edge_fragment,
}
use otel_fleet.Pipelines.Validation.{Issue, validate_structural}
use otel_fleet.Pipelines.Versions.{TargetClass, forwarding, edge}

-- Validator, with the catalog that it asks; binary is none where there is no collector, and else gives
-- the output of a run that fails.
pub record Validator : Type 0 where
  pub components : List Component
  pub validate_config : Component → Option Fields → List (Text × Text)
  pub print : Config → Text
  pub binary : Option (Text → Option Text)

-- What an issue of a result says.
pub data Finding : Type 0 where
  structural : Issue → Finding
  of_secret : SecretIssue → Finding
  render_failed : Text → Finding
  binary_unavailable : Finding
  collector_refused : Text → Finding

-- Result
pub record Validated : Type 0 where
  pub is_accepted : Bool
  pub issues : List Finding
  pub rendered_yaml : Option Text

-- renderFragment and renderFull
abbrev pub fragment_of : TargetClass → RenderPipeline → Config
fragment_of forwarding = render_fragment
fragment_of edge = render_edge_fragment

abbrev pub full_of : TargetClass → List RenderPipeline → Rendered
full_of forwarding = render_forwarding_config
full_of edge = render_edge_config

-- runValidate
abbrev pub verdict_of : Text → Option Text → Validated
verdict_of fragment none = record { is_accepted = true; issues = []; rendered_yaml = some fragment }
verdict_of fragment (some output) = record {
  is_accepted = false;
  issues = collector_refused output ∷ [];
  rendered_yaml = some fragment;
}

abbrev pub run_binary : Option (Text → Option Text) → Text → Text → Validated
run_binary none fragment full = record {
  is_accepted = true;
  issues = binary_unavailable ∷ [];
  rendered_yaml = some fragment;
}
run_binary (some run) fragment full = verdict_of fragment (run full)

abbrev pub second_stage : Validator → Text → Rendered → Validated
second_stage v fragment (duplicate key) = record {
  is_accepted = false;
  issues = render_failed key ∷ [];
  rendered_yaml = some fragment;
}
second_stage v fragment (config full) = run_binary v.binary fragment (v.print full)

abbrev pub first_stage :
    Validator → TargetClass → RenderPipeline → List RenderPipeline → List Issue → Validated
first_stage v class candidate others (i ∷ issues) = record {
  is_accepted = false;
  issues = map structural (i ∷ issues);
  rendered_yaml = none;
}
first_stage v class candidate others [] =
    second_stage v (v.print (fragment_of class candidate))
      (full_of class (others ++ candidate ∷ []))

-- Validate
unfoldable pub validate : Validator → TargetClass → RenderPipeline → List RenderPipeline → Validated
validate v class candidate others =
    first_stage v class candidate others
      (validate_structural v.components v.validate_config candidate.graph)
