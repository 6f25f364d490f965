-- ===== src/Pipelines/Versions.antt =====
-- pg_pipelines.go of internal/store, over migration 0002, with the rows of store.go.
--
-- The tables stand beside those of Store. Graphs are stored as they are. ORDER BY is left out: the
-- renderer sorts what it gets. The failures of the driver are left out.
pub mod Invariant
pub mod Changes
pub mod Steps
pub mod Active
pub mod Results
use otel_fleet.Prelude.{
  ℕ, ◌+◌, max, Text, text_eq, nat_eq, ◌==◌, Bool, true, false, not, ◌&&◌, Option, none, some, List,
  [], ◌∷◌, ◌++◌, any, filter, find?, is_some, if◌then◌else◌,
}
use otel_fleet.Store.{
  Customer, Entry, StoreError, err_conflict, err_not_found, rejected, Result, ok, err, is_live,
  is_active, write_audit, update_where,
}
use otel_fleet.Store
use otel_fleet.Pipelines.Graph.{Graph}

pub data TargetClass : Type 0 where
  forwarding edge : TargetClass

abbrev pub same_class : TargetClass → TargetClass → Bool
same_class forwarding forwarding = true
same_class edge edge = true
same_class _ _ = false

pub data ValidationStatus : Type 0 where
  valid invalid : ValidationStatus

abbrev pub is_valid : ValidationStatus → Bool
is_valid valid = true
is_valid invalid = false

pub record PipelineRow : Type 0 where
  pub id : ℕ
  pub customer_id : ℕ
  pub name : Text
  pub target_class : TargetClass
  pub active_version_id : Option ℕ
  pub created_at : ℕ

pub record VersionRow : Type 0 where
  pub id : ℕ
  pub pipeline_id : ℕ
  pub version : ℕ
  pub graph : Graph
  pub rendered_yaml : Text
  pub config_hash : Text
  pub validation_status : ValidationStatus
  pub validation_output : Option Text
  pub created_by : Option ℕ
  pub created_at : ℕ

pub record NewPipeline : Type 0 where
  pub id : ℕ
  pub customer_id : ℕ
  pub name : Text
  pub target_class : TargetClass

pub record NewPipelineVersion : Type 0 where
  pub id : ℕ
  pub pipeline_id : ℕ
  pub graph : Graph
  pub rendered_yaml : Text
  pub config_hash : Text
  pub validation_status : ValidationStatus
  pub validation_output : Option Text
  pub created_by : Option ℕ

-- What the renderer reads of a pipeline with an active version.
pub record ActivePipeline : Type 0 where
  pub pipeline_id : ℕ
  pub pipeline_name : Text
  pub customer_id : ℕ
  pub customer_slug : Text
  pub client_id : Text
  pub graph : Graph

pub record Db : Type 0 where
  pub base : Store.Db
  pub pipelines : List PipelineRow
  pub versions : List VersionRow

-- ErrNameExists beside the errors that are shared with the customers.
pub data PipelineError : Type 0 where
  err_name_exists : PipelineError
  store_error : StoreError → PipelineError

pub data Answer {ℓ} (A : Type ℓ) : Type ℓ where
  done : A → Answer A
  failed : PipelineError → Answer A

abbrev pub log : List Entry → Db → Db
log entries db = record db { base = write_audit entries db.base }

abbrev pub pipeline_row : ℕ → NewPipeline → PipelineRow
pipeline_row now p = record {
  id = p.id;
  customer_id = p.customer_id;
  name = p.name;
  target_class = p.target_class;
  active_version_id = none;
  created_at = now;
}

abbrev pub version_row : ℕ → NewPipelineVersion → ℕ → VersionRow
version_row now v number = record {
  id = v.id;
  pipeline_id = v.pipeline_id;
  version = number;
  graph = v.graph;
  rendered_yaml = v.rendered_yaml;
  config_hash = v.config_hash;
  validation_status = v.validation_status;
  validation_output = v.validation_output;
  created_by = v.created_by;
  created_at = now;
}

abbrev pub is_pipeline : ℕ → PipelineRow → Bool
is_pipeline id p = p.id == id

abbrev pub is_of : ℕ → VersionRow → Bool
is_of pipeline_id v = v.pipeline_id == pipeline_id

abbrev pub is_numbered : ℕ → ℕ → VersionRow → Bool
is_numbered pipeline_id number v = is_of pipeline_id v && (v.version == number)

-- insertPipelineVersion, with the constraints of the table
unfoldable pub insert_pipeline_version : ℕ → NewPipelineVersion → ℕ → Db → Answer (VersionRow × Db)
insert_pipeline_version now v number db =
    if any (λ (r : VersionRow). r.id == v.id) db.versions
    then failed (store_error rejected)
    else if not (any (is_pipeline v.pipeline_id) db.pipelines)
    then failed (store_error rejected)
    else if any (is_numbered v.pipeline_id number) db.versions
    then failed (store_error rejected)
    else done (
      version_row now v number,
      record db { versions = db.versions ++ version_row now v number ∷ [] },
    )

-- UNIQUE (customer_id, name)
abbrev pub same_name : NewPipeline → PipelineRow → Bool
same_name p r = (r.customer_id == p.customer_id) && (r.name == p.name)

-- INSERT INTO pipelines
unfoldable pub insert_pipeline : ℕ → NewPipeline → Db → Answer Db
insert_pipeline now p db =
    if any (is_pipeline p.id) db.pipelines
    then failed (store_error rejected)
    else if any (same_name p) db.pipelines
    then failed err_name_exists
    else done (record db { pipelines = db.pipelines ++ pipeline_row now p ∷ [] })

infixl 5 ◌>>=◌
abbrev pub ◌>>=◌ {ℓ κ} : {A : Type ℓ} {B : Type κ} → Answer A → (A → Answer B) → Answer B
done a >>= f = f a
failed e >>= f = failed e

-- CreatePipeline
unfoldable pub create_pipeline :
    ℕ → NewPipeline → NewPipelineVersion → List Entry → Db → Answer (VersionRow × Db)
create_pipeline now p v entries db =
    if not (any (is_live p.customer_id) db.base.customers)
    then failed (store_error err_not_found)
    else (insert_pipeline now p db >>= λ db'.
        insert_pipeline_version now v 1 db' >>= λ r. done (r.0, log entries r.1))

unfoldable pub get_pipeline : ℕ → Db → Answer PipelineRow
get_pipeline id db = elim (find? (is_pipeline id) db.pipelines) [
  | none ↦ failed (store_error err_not_found)
  | some p ↦ done p
]

unfoldable pub get_pipeline_version : ℕ → ℕ → Db → Answer VersionRow
get_pipeline_version pipeline_id number db =
    elim (find? (is_numbered pipeline_id number) db.versions) [
      | none ↦ failed (store_error err_not_found)
      | some v ↦ done v
    ]

-- DeletePipeline; the versions go with their pipeline.
unfoldable pub delete_pipeline : ℕ → List Entry → Db → Answer Db
delete_pipeline id entries db =
    if any (is_pipeline id) db.pipelines
    then done (
        log entries (record db {
          pipelines = filter (λ p. not (is_pipeline id p)) db.pipelines;
          versions = filter (λ v. not (is_of id v)) db.versions;
        }))
    else failed (store_error err_not_found)

-- COALESCE(max(version), 0)
abbrev pub greatest : List VersionRow → ℕ
greatest [] = 0
greatest (v ∷ vs) = max v.version (greatest vs)

abbrev pub versions_of : ℕ → List VersionRow → List VersionRow
versions_of pipeline_id vs = filter (is_of pipeline_id) vs

-- CreatePipelineVersion
unfoldable pub create_pipeline_version :
    ℕ → NewPipelineVersion → List Entry → Db → Answer (VersionRow × Db)
create_pipeline_version now v entries db =
    if not (any (is_pipeline v.pipeline_id) db.pipelines)
    then failed (store_error err_not_found)
    else (insert_pipeline_version now v (greatest (versions_of v.pipeline_id db.versions) + 1) db
        >>= λ r. done (r.0, log entries r.1))

abbrev pub activate : ℕ → PipelineRow → PipelineRow
activate version_id p = record p { active_version_id = some version_id }

-- ActivatePipelineVersion
unfoldable pub activate_pipeline_version : ℕ → ℕ → List Entry → Db → Answer (VersionRow × Db)
activate_pipeline_version pipeline_id number entries db =
    get_pipeline_version pipeline_id number db >>= λ v.
    if is_valid v.validation_status
    then done (
      v,
      log entries (record db {
        pipelines = update_where (is_pipeline pipeline_id) (activate v.id) db.pipelines;
      }),
    )
    else failed (store_error err_conflict)

-- JOIN customers c ON c.id = p.customer_id AND c.status = 'active'
abbrev pub is_owner : PipelineRow → Customer → Bool
is_owner p c = (c.id == p.customer_id) && is_active c.status

-- JOIN pipeline_versions v ON v.id = p.active_version_id
abbrev pub version_at : List VersionRow → Option ℕ → Option VersionRow
version_at versions none = none
version_at versions (some id) = find? (λ (v : VersionRow). v.id == id) versions

abbrev pub row_of : PipelineRow → Customer → VersionRow → ActivePipeline
row_of p c v = record {
  pipeline_id = p.id;
  pipeline_name = p.name;
  customer_id = p.customer_id;
  customer_slug = c.slug;
  client_id = c.client_id;
  graph = v.graph;
}

abbrev pub joined : PipelineRow → Option Customer → Option VersionRow → Option ActivePipeline
joined p none v = none
joined p (some c) none = none
joined p (some c) (some v) = some (row_of p c v)

-- The row of ListActivePipelines for a pipeline
unfoldable pub active_row : Db → PipelineRow → Option ActivePipeline
active_row db p =
    joined p (find? (is_owner p) db.base.customers) (version_at db.versions p.active_version_id)

abbrev pub in_scope : TargetClass → Option ℕ → PipelineRow → Bool
in_scope class none p = same_class p.target_class class
in_scope class (some customer) p = same_class p.target_class class && (p.customer_id == customer)

abbrev pub keep {ℓ} : {A : Type ℓ} → Option A → List A → List A
keep none rest = rest
keep (some a) rest = a ∷ rest

abbrev pub active_rows : Db → List PipelineRow → List ActivePipeline
active_rows db [] = []
active_rows db (p ∷ ps) = keep (active_row db p) (active_rows db ps)

-- ListActivePipelines
unfoldable pub list_active_pipelines : TargetClass → Option ℕ → Db → List ActivePipeline
list_active_pipelines class customer_id db =
    active_rows db (filter (in_scope class customer_id) db.pipelines)

-- ListPipelines: those of one customer, or of all customers that are not deleted
abbrev pub is_listed : Option ℕ → Store.Db → PipelineRow → Bool
is_listed none base p = any (is_live p.customer_id) base.customers
is_listed (some customer) base p =
    any (is_live p.customer_id) base.customers && (p.customer_id == customer)

unfoldable pub list_pipelines : Option ℕ → Db → List PipelineRow
list_pipelines customer db = filter (is_listed customer db.base) db.pipelines

-- pipelineFrom, which joins the customer, and LatestVersion of a row
abbrev pub owner_of : PipelineRow → Db → Option Customer
owner_of p db = find? (λ (c : Customer). c.id == p.customer_id) db.base.customers

abbrev pub greatest_of : List VersionRow → Option ℕ
greatest_of [] = none
greatest_of (v ∷ vs) = some (greatest (v ∷ vs))

abbrev pub latest_version : ℕ → Db → Option ℕ
latest_version pipeline_id db = greatest_of (versions_of pipeline_id db.versions)
