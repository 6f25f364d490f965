-- ===== src/Pipelines/Service/Storable.antt =====
-- What a version that service.go stores has passed.
use otel_fleet.Prelude.{
  ◌≡◌, refl, ◌∙◌, subst, sym, ap, inl, inr, ℕ, Text, text_eq, nat_eq, true, Bool-cases, Option,
  none, List, [], ◌∷◌, ◌++◌,
}
use otel_fleet.Store.{Customer, get_customer}
use otel_fleet.Store
use otel_fleet.Tenants.Service.{trim_space}
use otel_fleet.Pipelines.Graph.{Graph}
use otel_fleet.Pipelines.Secrets.{
  Attempt, ok, failed_at, Prepared, stored, refused, encrypt_graph_secrets, decrypt_graph_secrets,
  redact_graph_secrets,
}
use otel_fleet.Pipelines.Render.{RenderPipeline, Config, Rendered, config, duplicate}
use otel_fleet.Pipelines.Validation.{Issue, validate_structural}
use otel_fleet.Pipelines.Validator.{
  Validator, Validated, fragment_of, full_of, first_stage, second_stage, validate,
}
use otel_fleet.Pipelines.Versions.{
  TargetClass, valid, VersionRow, NewPipelineVersion, Db, version_row,
}
use otel_fleet.Pipelines.Service.{
  Service, Returned, returned, not_valid, error, of_attempt, of_result, active_render_pipelines,
}
use otel_fleet.Pipelines.Service.Prepare.{
  Drawn, customer_scope, without_issues, accepted, candidate_of, payload, prepare,
}
use otel_fleet.Pipelines.Service.Operations.{Created, or_forwarding, create}
use otel_fleet.Pipelines.Service.Effects.{then_do-returned, of_answer-returned, returned_inj}
use otel_fleet.Pipelines.Versions.Results.{create_pipeline-result}

-- A graph passed the stages of the validation of its class beside the others.
pub record Passes (v : Validator) (class : TargetClass) (candidate : RenderPipeline)
    (others : List RenderPipeline) : Type 0 where
  pub full : Config
  pub well_formed : validate_structural v.components v.validate_config candidate.graph ≡ []
  pub renders : full_of class (others ++ candidate ∷ []) ≡ config full

second_stage-accepted :
    (v : Validator) (fragment : Text) (full : Rendered)
    → (second_stage v fragment full).is_accepted ≡ true
    → (c : Config) × (full ≡ config c)
second_stage-accepted v fragment (config c) e = (c, refl)
second_stage-accepted v fragment (duplicate key) e = cc

first_stage-accepted :
    (v : Validator) (class : TargetClass) (candidate : RenderPipeline)
    (others : List RenderPipeline) (issues : List Issue)
    → (first_stage v class candidate others issues).is_accepted ≡ true
    → (issues ≡ []) × (c : Config) × (full_of class (others ++ candidate ∷ []) ≡ config c)
first_stage-accepted v class candidate others [] e =
    let (c, k) = second_stage-accepted v _ _ e in (refl, c, k)
first_stage-accepted v class candidate others (i ∷ issues) e = cc

validate-Passes :
    (v : Validator) (class : TargetClass) (candidate : RenderPipeline)
    (others : List RenderPipeline)
    → (validate v class candidate others).is_accepted ≡ true
    → Passes v class candidate others
unfolding validate
validate-Passes v class candidate others e =
    let (h, c, k) = first_stage-accepted v class candidate others _ e in
    record { full = c; well_formed = h; renders = k }

accepted-returned : (r r' : Validated) → accepted r ≡ returned r' → r.is_accepted ≡ true
accepted-returned r r' e = elim (Bool-cases r.is_accepted) [ inl q ↦ q | inr q ↦ cc (rw q at e) ]

without_issues-returned : (e : Prepared) (g : Graph) → without_issues e ≡ returned g → e ≡ stored g
without_issues-returned (stored h) g e = cc
without_issues-returned (refused issues) g e = cc

of_attempt-returned : {A : Type 0} (a : Attempt A) (x : A) → of_attempt a ≡ returned x → a ≡ ok x
of_attempt-returned (ok y) x e = cc
of_attempt-returned (failed_at p y) x e = cc

-- Where the payload of a version comes from: the graph is the one that was sent, encrypted, it passed
-- the validation in plain, and the text is rendered from the masked graph.
pub record Storable (s : Service) (class : TargetClass) (c : Customer) (name : Text)
    (exclude : Option ℕ) (g : Graph) (prev : Option Graph) (nonces : ℕ → Option Text) (db : Db)
    (new : NewPipelineVersion) : Type 0 where
  pub plain : Graph
  pub others : List RenderPipeline
  pub encrypted :
      encrypt_graph_secrets s.cipher nonces s.validator.components g prev ≡ ok (stored new.graph)
  pub decrypted : decrypt_graph_secrets s.cipher s.validator.components new.graph ≡ ok plain
  pub beside : active_render_pipelines s class (customer_scope class c.id) exclude db ≡ ok others
  pub passed : Passes s.validator class (candidate_of s c name plain) others
  pub status : new.validation_status ≡ valid
  pub masked :
      new.rendered_yaml
      ≡ s.validator.print (
          fragment_of class (record (candidate_of s c name plain) {
            graph = redact_graph_secrets s.validator.components new.graph;
          }))
  pub hashed : new.config_hash ≡ s.sha256 new.rendered_yaml

prepare-Storable :
    (s : Service) (actor : Option ℕ) (c : Customer) (name : Text) (class : TargetClass)
    (exclude : Option ℕ) (g : Graph) (prev : Option Graph) (d : Drawn) (db : Db)
    (new : ℕ → NewPipelineVersion) (res : Validated) (id : ℕ)
    → prepare s actor c name class exclude g prev d db ≡ returned (new, res)
    → Storable s class c name exclude g prev d.nonces db (new id)
unfolding prepare
prepare-Storable s actor c name class exclude g prev d db new res id e =
    let (p, enc, e1) = then_do-returned _ _ (new, res) e in
    let (kept, clean, e2) = then_do-returned _ _ (new, res) e1 in
    let (plain, dec, e3) = then_do-returned _ _ (new, res) e2 in
    let (others, act, e4) = then_do-returned _ _ (new, res) e3 in
    let (r, acc, e5) = then_do-returned _ _ (new, res) e4 in
    let same : payload s class (candidate_of s c name plain) kept r d.version_id actor id ≡ new id =
      ap (λ (x : Returned ((ℕ → NewPipelineVersion) × Validated)). first_of x id) e5 in
    subst (Storable s class c name exclude g prev d.nonces db) same (record {
      plain = plain;
      others = others;
      encrypted = of_attempt-returned _ p enc ∙ ap ok (without_issues-returned p kept clean);
      decrypted = of_attempt-returned _ plain dec;
      beside = of_attempt-returned _ others act;
      passed =
          validate-Passes s.validator class (candidate_of s c name plain) others
            (accepted-returned _ r acc);
      status = refl;
      masked = refl;
      hashed = refl;
    })
  where
    first_of : Returned ((ℕ → NewPipelineVersion) × Validated) → ℕ → NewPipelineVersion
    first_of (returned x) i = x.0 i
    first_of (not_valid v) i = new i
    first_of (error x) i = new i

-- Only what is valid is stored: if Create succeeds, the customer exists, and the new version, whose
-- number is 1, is added to the table with the graph that was sent, its secrets encrypted, as valid.
-- Decrypted, this graph has no structural issue, and the configuration of its class is rendered for it
-- beside the pipelines that are active; the text that is kept for the version, and its hash, are those
-- of the graph with its secrets masked.
pub create-Storable :
    (s : Service) (now : ℕ) (actor : Option ℕ) (customer : ℕ) (raw : Text)
    (class : Option TargetClass) (g : Graph) (d : Drawn) (db : Db) (c : Created)
    → create s now actor customer raw class g d db ≡ returned c
    → (owner : Customer) × (new : NewPipelineVersion) × (get_customer customer db.base
        ≡ Store.ok owner)
      × Storable s (or_forwarding class) owner (trim_space raw) none g none d.nonces db new
      × (c.version ≡ version_row now new 1)
      × (c.db.versions ≡ db.versions ++ c.version ∷ [])
unfolding create
create-Storable s now actor customer raw class g d db c e =
    let (_, _, e1) = then_do-returned _ _ c e in
    let (owner, found, e2) = then_do-returned _ _ c e1 in
    let (_, _, e3) = then_do-returned _ _ c e2 in
    let (_, _, e4) = then_do-returned _ _ c e3 in
    let (p, prepared, e5) = then_do-returned _ _ c e4 in
    let (r, made, e6) = then_do-returned _ _ c e5 in
    let (_, row) = create_pipeline-result now _ _ _ db r (of_answer-returned _ r made) in
    let same = returned_inj _ c e6 in
    let version : c.version ≡ version_row now (p.0 d.pipeline_id) 1 =
      ap (λ (x : Created). x.version) (sym same) ∙ ap (λ (x : VersionRow × Db). x.0) row in
    (
      owner,
      p.0 d.pipeline_id,
      of_result-returned _ owner found,
      prepare-Storable s actor owner (trim_space raw) (or_forwarding class) none g none d db p.0 p.1
          d.pipeline_id prepared,
      version,
      ap (λ (x : Created). x.db.versions) (sym same)
          ∙ ap (λ (x : VersionRow × Db). x.1.versions) row
          ∙ ap (λ (v : VersionRow). db.versions ++ v ∷ []) (sym version),
    )
  where
    of_result-returned :
        (r : Store.Result Customer) (x : Customer) → of_result r ≡ returned x → r ≡ Store.ok x
    of_result-returned (Store.ok y) x k = cc
    of_result-returned (Store.err y) x k = cc
