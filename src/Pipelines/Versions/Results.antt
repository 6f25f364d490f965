-- ===== src/Pipelines/Versions/Results.antt =====
-- What the operations of pg_pipelines.go leave in the tables when they succeed.
use otel_fleet.Prelude.{
  ◌≡◌, ap, refl, ◌∙◌, sym, inl, inr, ℕ, text_eq, nat_eq, ◌==◌, true, not, Bool-cases, List, [], ◌∷◌,
  ◌++◌, any, filter,
}
use otel_fleet.Store.{Entry, is_live, update_where}
use otel_fleet.Pipelines.Versions.{
  VersionRow, NewPipeline, log, version_row, ◌>>=◌, NewPipelineVersion, Db, Answer, done, failed,
  is_valid, is_pipeline, same_name, is_numbered, pipeline_row, activate, insert_pipeline,
  insert_pipeline_version, create_pipeline, get_pipeline_version, create_pipeline_version,
  activate_pipeline_version, delete_pipeline,
}

done_inj {ℓ} : {A : Type ℓ} (a b : A) → done a ≡ done b → a ≡ b
done_inj a b e = cc

pub answered {ℓ κ} :
    {A : Type ℓ} {B : Type κ} (a : Answer A) (f : A → Answer B) (b : B)
    → a >>= f ≡ done b
    → (x : A) × (a ≡ done x) × (f x ≡ done b)
answered (done x) f b e = (x, refl, e)
answered (failed x) f b e = cc

insert_version-result :
    (now : ℕ) (v : NewPipelineVersion) (number : ℕ) (db : Db) (r : VersionRow × Db)
    → insert_pipeline_version now v number db ≡ done r
    → r ≡ (
      version_row now v number,
      record db { versions = db.versions ++ version_row now v number ∷ [] },
    )
unfolding insert_pipeline_version
insert_version-result now v number db r e =
    elim (Bool-cases (any (λ (r : VersionRow). r.id == v.id) db.versions)) [
      | inl q ↦ cc (rw q at e)
      | inr q ↦ elim (Bool-cases (any (is_pipeline v.pipeline_id) db.pipelines)) [
        | inr p ↦ cc (rw (q, p) at e)
        | inl p ↦ elim (Bool-cases (any (is_numbered v.pipeline_id number) db.versions)) [
          | inl n ↦ cc (rw (q, p, n) at e)
          | inr n ↦ sym (done_inj _ r (rw (q, p, n) at e))
        ]
      ]
    ]

insert_pipeline-result :
    (now : ℕ) (p : NewPipeline) (db db' : Db)
    → insert_pipeline now p db ≡ done db'
    → db' ≡ record db { pipelines = db.pipelines ++ pipeline_row now p ∷ [] }
unfolding insert_pipeline
insert_pipeline-result now p db db' e = elim (Bool-cases (any (is_pipeline p.id) db.pipelines)) [
  | inl q ↦ cc (rw q at e)
  | inr q ↦ elim (Bool-cases (any (same_name p) db.pipelines)) [
    | inl n ↦ cc (rw (q, n) at e)
    | inr n ↦ sym (done_inj _ db' (rw (q, n) at e))
  ]
]

abbrev pub created : ℕ → NewPipeline → NewPipelineVersion → List Entry → Db → VersionRow × Db
created now p v es db = (
  version_row now v 1,
  log es (record db {
    pipelines = db.pipelines ++ pipeline_row now p ∷ [];
    versions = db.versions ++ version_row now v 1 ∷ [];
  }),
)

pub create_pipeline-result :
    (now : ℕ) (p : NewPipeline) (v : NewPipelineVersion) (es : List Entry) (db : Db)
    (r : VersionRow × Db)
    → create_pipeline now p v es db ≡ done r
    → (any (is_live p.customer_id) db.base.customers ≡ true) × (r ≡ created now p v es db)
unfolding create_pipeline
create_pipeline-result now p v es db r e =
    elim (Bool-cases (any (is_live p.customer_id) db.base.customers)) [
      | inr q ↦ cc (rw q at e)
      | inl q ↦
          let (db', e1, e2) = answered (insert_pipeline now p db) _ r (rw q at e) in
          let (r', e3, e4) = answered (insert_pipeline_version now v 1 db') _ r e2 in
          (
            q,
            sym (done_inj (r'.0, log es r'.1) r e4)
                ∙ ap (λ (x : VersionRow × Db). (x.0, log es x.1))
                    (insert_version-result now v 1 db' r' e3)
                ∙ ap
                    (λ (x : Db). (
                      version_row now v 1,
                      log es (record x { versions = x.versions ++ version_row now v 1 ∷ [] }),
                    ))
                    (insert_pipeline-result now p db db' e1),
          )
    ]

pub create_version-pipelines :
    (now : ℕ) (v : NewPipelineVersion) (es : List Entry) (db : Db) (r : VersionRow × Db)
    → create_pipeline_version now v es db ≡ done r
    → r.1.pipelines ≡ db.pipelines
unfolding create_pipeline_version
create_version-pipelines now v es db r e =
    elim (Bool-cases (any (is_pipeline v.pipeline_id) db.pipelines)) [
      | inr q ↦ cc (rw q at e)
      | inl q ↦
          let (r', e1, e2) = answered (insert_pipeline_version now v _ db) _ r (rw q at e) in
          after r' e2
          ∙ ap (λ (x : VersionRow × Db). x.1.pipelines) (insert_version-result now v _ db r' e1)
    ]
  where
    after :
        (r' : VersionRow × Db) → done (r'.0, log es r'.1) ≡ done r → r.1.pipelines ≡ r'.1.pipelines
    after r' k = cc

pub activate-pipelines :
    (id number : ℕ) (es : List Entry) (db : Db) (r : VersionRow × Db)
    → activate_pipeline_version id number es db ≡ done r
    → r.1.pipelines ≡ update_where (is_pipeline id) (activate r.0.id) db.pipelines
unfolding activate_pipeline_version
activate-pipelines id number es db r e =
    let (v, e1, e2) = answered (get_pipeline_version id number db) _ r e in
    elim (Bool-cases (is_valid v.validation_status)) [
      | inl q ↦ after v (rw q at e2)
      | inr q ↦ cc (rw q at e2)
    ]
  where
    after :
        (v : VersionRow)
        → done (
          v,
          log es (record db {
            pipelines = update_where (is_pipeline id) (activate v.id) db.pipelines;
          }),
        )
          ≡ done r
        → r.1.pipelines ≡ update_where (is_pipeline id) (activate r.0.id) db.pipelines
    after v k = cc

pub delete-pipelines :
    (id : ℕ) (es : List Entry) (db db' : Db)
    → delete_pipeline id es db ≡ done db'
    → db'.pipelines ≡ filter (λ p. not (is_pipeline id p)) db.pipelines
unfolding delete_pipeline
delete-pipelines id es db db' e = elim (Bool-cases (any (is_pipeline id) db.pipelines)) [
  | inr q ↦ cc (rw q at e)
  | inl q ↦
      let e' : done (
            log es (record db {
              pipelines = filter (λ p. not (is_pipeline id p)) db.pipelines;
              versions = filter (λ v. not (v.pipeline_id == id)) db.versions;
            }))
          ≡ done db' =
        rw q at e in
      cc
]
