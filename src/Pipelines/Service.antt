-- ===== src/Pipelines/Service.antt =====
-- service.go of internal/pipelines over the tables, the secrets, the validator and the renderer: how its
-- operations fail, what it renders, and the validation of a draft.
pub mod Prepare
pub mod Operations
pub mod Effects
pub mod Slugs
pub mod Clashes
pub mod Storable
use otel_fleet.Prelude.{
  ℕ, Text, codes, text_eq, nat_eq, ◌==◌, Bool, true, false, not, ◌||◌, Option, none, some, List, [],
  ◌∷◌, ◌++◌, map, filter, find?, is_some, if◌then◌else◌,
}
use otel_fleet.Store.{Customer, Entry, err_not_found, get_customer, is_deleted}
use otel_fleet.Store
use otel_fleet.Tenants.Service.{trim_space, is_invalid_name, audit_entry}
use otel_fleet.Crypto.Cipher.{Cipher, CryptoError}
use otel_fleet.Pipelines.Graph.{Graph}
use otel_fleet.Pipelines.Naming.{pipeline_slug}
use otel_fleet.Pipelines.Secrets.{
  Attempt, ok, failed_at, ◌>>=◌, SecretIssue, Prepared, stored, refused, encrypt_graph_secrets,
  decrypt_graph_secrets, redact_graph_secrets,
}
use otel_fleet.Pipelines.Secrets
use otel_fleet.Pipelines.Render.{
  RenderPipeline, Config, Rendered, config, duplicate, render_forwarding_config, render_edge_config,
}
use otel_fleet.Pipelines.Validator.{Validator, Finding, of_secret, Validated, fragment_of, validate}
use otel_fleet.Pipelines.Versions.{
  TargetClass, forwarding, edge, valid, PipelineRow, VersionRow, NewPipelineVersion, ActivePipeline,
  Db, PipelineError, err_name_exists, store_error, Answer, create_pipeline, get_pipeline,
  get_pipeline_version, delete_pipeline, create_pipeline_version, activate_pipeline_version,
  list_active_pipelines, list_pipelines, owner_of, latest_version,
}
use otel_fleet.Pipelines.Versions

-- Service, with the functions of Go's library that it calls: describe gives the text of an issue.
pub record Service : Type 0 where
  pub validator : Validator
  pub cipher : Option Cipher
  pub lower : ℕ → ℕ
  pub sha256 : Text → Text
  pub describe : Finding → Text

pub data ServiceError : Type 0 where
  err_invalid_name err_slug_taken : ServiceError
  of_store : PipelineError → ServiceError
  of_crypto : Text → CryptoError → ServiceError

-- What an operation returns: its value, a result that is not valid, or an error.
pub data Returned {ℓ} (A : Type ℓ) : Type ℓ where
  returned : A → Returned A
  not_valid : Validated → Returned A
  error : ServiceError → Returned A

unfoldable pub then_do {ℓ κ} :
    {A : Type ℓ} {B : Type κ} → Returned A → (A → Returned B) → Returned B
then_do (returned a) f = f a
then_do (not_valid v) f = not_valid v
then_do (error e) f = error e

abbrev pub of_attempt {ℓ} : {A : Type ℓ} → Attempt A → Returned A
of_attempt (ok a) = returned a
of_attempt (failed_at path e) = error (of_crypto path e)

abbrev pub of_answer {ℓ} : {A : Type ℓ} → Answer A → Returned A
of_answer (Versions.done a) = returned a
of_answer (Versions.failed e) = error (of_store e)

abbrev pub of_result {ℓ} : {A : Type ℓ} → Store.Result A → Returned A
of_result (Store.ok a) = returned a
of_result (Store.err e) = error (of_store (store_error e))

-- toRender
abbrev pub to_render : Service → ActivePipeline → Attempt RenderPipeline
to_render s a = decrypt_graph_secrets s.cipher s.validator.components a.graph >>= λ g. ok (record {
  customer_slug = a.customer_slug;
  client_id = a.client_id;
  pipeline_slug = pipeline_slug s.lower a.pipeline_name;
  graph = g;
})

abbrev pub attempt_cons {ℓ} : {A : Type ℓ} → Attempt A → Attempt (List A) → Attempt (List A)
attempt_cons a rest = a >>= λ x. rest >>= λ xs. ok (x ∷ xs)

unfoldable pub all_to_render : Service → List ActivePipeline → Attempt (List RenderPipeline)
all_to_render s [] = ok []
all_to_render s (a ∷ rows) = attempt_cons (to_render s a) (all_to_render s rows)

abbrev pub is_excluded : Option ℕ → ActivePipeline → Bool
is_excluded none a = false
is_excluded (some id) a = a.pipeline_id == id

-- activeRenderPipelines
unfoldable pub active_render_pipelines :
    Service → TargetClass → Option ℕ → Option ℕ → Db → Attempt (List RenderPipeline)
active_render_pipelines s class customer_id exclude db =
    all_to_render s
      (filter (λ a. not (is_excluded exclude a)) (list_active_pipelines class customer_id db))

-- RenderCurrent
unfoldable pub render_current : Service → Db → Attempt Rendered
render_current s db = active_render_pipelines s forwarding none none db >>= λ inputs.
    ok (render_forwarding_config inputs)

-- RenderEdgeCurrent
unfoldable pub render_edge_current : Service → ℕ → Db → Attempt Rendered
render_edge_current s customer_id db =
    active_render_pipelines s edge (some customer_id) none db >>= λ inputs.
    ok (render_edge_config inputs)

abbrev pub or_nothing : Attempt (List RenderPipeline) → List RenderPipeline
or_nothing (ok inputs) = inputs
or_nothing (failed_at path e) = []

abbrev pub draft_others : Service → TargetClass → Db → List RenderPipeline
draft_others s edge db = []
draft_others s forwarding db = or_nothing (active_render_pipelines s forwarding none none db)

-- ValidateDraft
unfoldable pub validate_draft : Service → TargetClass → Graph → Db → Validated
validate_draft s class g db =
    validate s.validator class
      (record {
        customer_slug = codes "draft-validation";
        client_id = codes "cust_draft_validation";
        pipeline_slug = codes "draft";
        graph = g;
      })
      (draft_others s class db)
