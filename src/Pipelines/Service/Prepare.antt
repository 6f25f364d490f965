-- ===== src/Pipelines/Service/Prepare.antt =====
-- prepare of service.go: the validation of a graph, and what is stored for it.
use otel_fleet.Prelude.{
  ℕ, Text, codes, text_eq, nat_eq, false, Option, none, some, List, [], ◌∷◌, ◌++◌, map,
  if◌then◌else◌,
}
use otel_fleet.Store.{Customer}
use otel_fleet.Pipelines.Graph.{Graph}
use otel_fleet.Pipelines.Naming.{pipeline_slug}
use otel_fleet.Pipelines.Secrets.{
  Prepared, stored, refused, encrypt_graph_secrets, decrypt_graph_secrets, redact_graph_secrets,
}
use otel_fleet.Pipelines.Render.{RenderPipeline}
use otel_fleet.Pipelines.Validator.{Finding, of_secret, Validated, fragment_of, validate}
use otel_fleet.Pipelines.Versions.{TargetClass, forwarding, edge, valid, NewPipelineVersion, Db}
use otel_fleet.Pipelines.Service.{
  Service, Returned, returned, not_valid, then_do, of_attempt, active_render_pipelines,
}

-- customerScope
abbrev pub customer_scope : TargetClass → ℕ → Option ℕ
customer_scope forwarding customer_id = none
customer_scope edge customer_id = some customer_id

abbrev pub without_issues : Prepared → Returned Graph
without_issues (stored g) = returned g
without_issues (refused issues) =
    not_valid (record { is_accepted = false; issues = map of_secret issues; rendered_yaml = none })

abbrev pub accepted : Validated → Returned Validated
accepted r = if r.is_accepted then returned r else not_valid r

-- strings.Join(msgs, "\n")
abbrev pub join_lines : List Text → Text
join_lines [] = []
join_lines (m ∷ []) = m
join_lines (m ∷ (n ∷ rest)) = m ++ codes "\n" ++ join_lines (n ∷ rest)

abbrev pub output_of : (Finding → Text) → List Finding → Option Text
output_of describe [] = none
output_of describe (i ∷ issues) = some (join_lines (map describe (i ∷ issues)))

-- The payload of a version. Its text is rendered from the redacted graph.
abbrev pub payload :
    Service
    → TargetClass
    → RenderPipeline
    → Graph
    → Validated
    → ℕ
    → Option ℕ
    → ℕ
    → NewPipelineVersion
payload s class candidate kept res id actor pipeline_id =
    let fragment = s.validator.print (
      fragment_of class
        (record candidate { graph = redact_graph_secrets s.validator.components kept })) in
    record {
      id = id;
      pipeline_id = pipeline_id;
      graph = kept;
      rendered_yaml = fragment;
      config_hash = s.sha256 fragment;
      validation_status = valid;
      validation_output = output_of s.describe res.issues;
      created_by = actor;
    }

abbrev pub candidate_of : Service → Customer → Text → Graph → RenderPipeline
candidate_of s c name plain = record {
  customer_slug = c.slug;
  client_id = c.client_id;
  pipeline_slug = pipeline_slug s.lower name;
  graph = plain;
}

-- What is drawn for an operation.
pub record Drawn : Type 0 where
  pub pipeline_id : ℕ
  pub version_id : ℕ
  pub nonces : ℕ → Option Text

-- prepare; the id of the pipeline is filled in by the caller.
unfoldable pub prepare :
    Service
    → Option ℕ
    → Customer
    → Text
    → TargetClass
    → Option ℕ
    → Graph
    → Option Graph
    → Drawn
    → Db
    → Returned ((ℕ → NewPipelineVersion) × Validated)
prepare s actor c name class exclude g prev d db =
    then_do (of_attempt (encrypt_graph_secrets s.cipher d.nonces s.validator.components g prev))
      (λ e. then_do (without_issues e) (λ kept.
        then_do (of_attempt (decrypt_graph_secrets s.cipher s.validator.components kept)) (λ plain.
          then_do
            (of_attempt (active_render_pipelines s class (customer_scope class c.id) exclude db))
            (λ others.
              then_do (accepted (validate s.validator class (candidate_of s c name plain) others))
                (λ res.
                  let new =
                    payload s class (candidate_of s c name plain) kept res d.version_id actor in
                  returned (
                    new,
                    record res { rendered_yaml = some (new d.pipeline_id).rendered_yaml },
                  ))))))
