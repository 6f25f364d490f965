-- ===== src/Pipelines/Service/Operations.antt =====
-- The operations of service.go that change the tables. What Activate and Delete hand to the Distributor
-- or to the edge agents is part of their result.
use otel_fleet.Prelude.{
  ℕ, Text, codes, text_eq, nat_eq, ◌==◌, Bool, true, false, ◌||◌, Option, none, some, List, [], ◌∷◌,
  is_some, if◌then◌else◌,
}
use otel_fleet.Store.{Customer, Entry, err_not_found, get_customer, is_deleted}
use otel_fleet.Tenants.Service.{trim_space, is_invalid_name, audit_entry}
use otel_fleet.Crypto.Cipher.{CryptoError}
use otel_fleet.Pipelines.Graph.{Graph}
use otel_fleet.Pipelines.Naming.{pipeline_slug}
use otel_fleet.Pipelines.Secrets.{Attempt, ok, failed_at}
use otel_fleet.Pipelines.Render.{Config, Rendered, config, duplicate}
use otel_fleet.Pipelines.Validator.{Validated}
use otel_fleet.Pipelines.Versions.{
  TargetClass, forwarding, edge, PipelineRow, VersionRow, Db, err_name_exists, store_error, Answer,
  create_pipeline, get_pipeline, get_pipeline_version, delete_pipeline, create_pipeline_version,
  activate_pipeline_version, list_pipelines, owner_of, latest_version,
}
use otel_fleet.Pipelines.Versions
use otel_fleet.Pipelines.Service.{
  Service, err_invalid_name, err_slug_taken, of_store, Returned, returned, error, then_do,
  of_answer, of_result, render_current,
}
use otel_fleet.Pipelines.Service.Prepare.{Drawn, prepare}

-- The loop over the customer's pipelines in Create
unfoldable pub slug_free : (ℕ → ℕ) → Text → List PipelineRow → Returned (Unit {0})
slug_free lower name [] = returned tt
slug_free lower name (p ∷ existing) =
    let rest = slug_free lower name existing in
    if pipeline_slug lower p.name == pipeline_slug lower name
    then error (if p.name == name then of_store err_name_exists else err_slug_taken)
    else rest

pub record Created : Type 0 where
  pub version : VersionRow
  pub result : Validated
  pub db : Db

abbrev pub or_forwarding : Option TargetClass → TargetClass
or_forwarding none = forwarding
or_forwarding (some class) = class

-- cust.Status == CustomerDeleted
abbrev pub not_deleted : Customer → Returned (Unit {0})
not_deleted c =
    if is_deleted c.status then error (of_store (store_error err_not_found)) else returned tt

abbrev pub named : (ℕ → ℕ) → Text → Returned (Unit {0})
named lower name =
    if is_invalid_name name || (pipeline_slug lower name == [])
    then error err_invalid_name
    else returned tt

-- Create
unfoldable pub create :
    Service → ℕ → Option ℕ → ℕ → Text → Option TargetClass → Graph → Drawn → Db → Returned Created
create s now actor customer_id raw class g d db =
    let name = trim_space raw in
    then_do (named s.lower name) (λ _. then_do (of_result (get_customer customer_id db.base)) (λ c.
      then_do (not_deleted c) (λ _.
        then_do (slug_free s.lower name (list_pipelines (some customer_id) db)) (λ _.
          then_do (prepare s actor c name (or_forwarding class) none g none d db) (λ p.
            then_do
              (of_answer (
                create_pipeline now
                  (record {
                    id = d.pipeline_id;
                    customer_id = customer_id;
                    name = name;
                    target_class = or_forwarding class;
                  })
                  (p.0 d.pipeline_id)
                  (audit_entry actor (codes "pipeline.create") (codes "pipeline") d.pipeline_id
                      customer_id
                    ∷ audit_entry actor (codes "pipeline_version.create") (codes "pipeline_version")
                        d.version_id customer_id
                    ∷ [])
                  db))
              (λ r. returned (record { version = r.0; result = p.1; db = r.1 })))))))

-- The graph of the latest version
abbrev pub graph_of_version : Answer VersionRow → Returned (Option Graph)
graph_of_version (Versions.done v) = returned (some v.graph)
graph_of_version (Versions.failed e) = error (of_store e)

abbrev pub previous_graph : ℕ → Option ℕ → Db → Returned (Option Graph)
previous_graph id none db = returned none
previous_graph id (some number) db = graph_of_version (get_pipeline_version id number db)

abbrev pub joined_owner : Option Customer → Returned Customer
joined_owner none = error (of_store (store_error err_not_found))
joined_owner (some c) = returned c

-- CreateVersion
unfoldable pub create_version : Service → ℕ → Option ℕ → ℕ → Graph → Drawn → Db → Returned Created
create_version s now actor id g d db = then_do (of_answer (get_pipeline id db)) (λ p.
    then_do (joined_owner (owner_of p db)) (λ c.
      then_do (previous_graph id (latest_version id db) db) (λ prev.
        then_do (prepare s actor c p.name p.target_class (some id) g prev d db) (λ n.
          then_do
            (of_answer (
              create_pipeline_version now (n.0 id)
                (audit_entry actor (codes "pipeline_version.create") (codes "pipeline_version")
                    d.version_id p.customer_id
                  ∷ [])
                db))
            (λ r. returned (record { version = r.0; result = n.1; db = r.1 }))))))

-- What is sent out after a change.
pub data Rollout : Type 0 where
  edge_notified : ℕ → Rollout
  distributed : Text → Rollout
  key_clash : Text → Rollout
  not_rendered : Text → CryptoError → Rollout

abbrev pub rollout_of : (Config → Text) → Attempt Rendered → Rollout
rollout_of print (ok (config c)) = distributed (print c)
rollout_of print (ok (duplicate key)) = key_clash key
rollout_of print (failed_at path e) = not_rendered path e

-- distribute
abbrev pub distribute : Service → Db → Rollout
distribute s db = rollout_of s.validator.print (render_current s db)

abbrev pub roll_out : Service → TargetClass → ℕ → Db → Rollout
roll_out s edge customer_id db = edge_notified customer_id
roll_out s forwarding customer_id db = distribute s db

abbrev pub activation_entry : Option ℕ → ℕ → Entry
activation_entry actor id = record {
  actor_user_id = actor;
  action = codes "pipeline_version.activate";
  entity_type = codes "pipeline";
  entity_id = id;
  customer_id = none;
}

-- Activate: the tables have changed whatever becomes of the rollout.
unfoldable pub activate_version : Service → Option ℕ → ℕ → ℕ → Db → Returned (Db × Rollout)
activate_version s actor id number db =
    then_do (of_answer (activate_pipeline_version id number (activation_entry actor id ∷ []) db))
      (λ r.
        then_do (of_answer (get_pipeline id r.1))
          (λ p. returned (r.1, roll_out s p.target_class p.customer_id r.1)))

abbrev pub rollout_if : Bool → Rollout → Option Rollout
rollout_if false r = none
rollout_if true r = some r

-- Delete
unfoldable pub delete : Service → Option ℕ → ℕ → Db → Returned (Db × Option Rollout)
delete s actor id db = then_do (of_answer (get_pipeline id db)) (λ p.
    then_do
      (of_answer (
        delete_pipeline id
          (audit_entry actor (codes "pipeline.delete") (codes "pipeline") id p.customer_id ∷ [])
          db))
      (λ db'. returned (
        db',
        rollout_if (is_some p.active_version_id) (roll_out s p.target_class p.customer_id db'),
      )))
