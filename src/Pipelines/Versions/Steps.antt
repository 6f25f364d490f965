-- ===== src/Pipelines/Versions/Steps.antt =====
-- The operations on the tables of the pipelines, one after the other (internal/store/pg_pipelines.go).
use otel_fleet.Prelude.{
  ◌≡◌, sym, ap, inl, inr, ℕ, suc, nat_eq, ◌==◌, nat_beq_iff, Bool, true, Bool-cases, Option-cases,
  List, [], ◌∷◌, ◌++◌, any, find?, length, All, All-append, arith,
}
use otel_fleet.Store.{Entry, is_live}
use otel_fleet.Store.Ops.{Op, apply}
use otel_fleet.Pipelines.Versions.{
  is_valid, PipelineRow, VersionRow, NewPipeline, NewPipelineVersion, Db, Answer, ◌>>=◌, done,
  failed, log, is_pipeline, is_numbered, same_name, versions_of, pipeline_row, version_row,
  insert_pipeline, insert_pipeline_version, create_pipeline, create_pipeline_version,
  delete_pipeline, activate_pipeline_version, get_pipeline_version,
}
use otel_fleet.Pipelines.Versions.Invariant.{
  ActiveIsValid, HasPipeline, IsSound, All-more, greatest-versions_of, NumberedFromOne-snoc,
  versions_of-unowned,
}
use otel_fleet.Pipelines.Versions.Changes.{
  is_valid-eq, find?-In, activated, HasPipeline-activate, deleted-active, deleted-numbered,
  deleted-owned, Distinct-snoc, Distinct-filter, of_other,
}

-- A command with the clock of the database; the last is one on the tables of the customers. The
-- version that comes with a new pipeline is its own, as the service makes it.
pub data Command : Type 0 where
  creating : ℕ → NewPipeline → NewPipelineVersion → List Entry → Command
  versioning : ℕ → NewPipelineVersion → List Entry → Command
  activating : ℕ → ℕ → List Entry → Command
  deleting : ℕ → List Entry → Command
  elsewhere : Op → Command

abbrev pub commit {ℓ} : {A : Type ℓ} → Db → Answer (A × Db) → Db
commit db (failed e) = db
commit db (done r) = r.1

abbrev pub commit_only : Db → Answer Db → Db
commit_only db (failed e) = db
commit_only db (done db') = db'

unfoldable pub run : Command → Db → Db
run (creating now p v es) db =
    commit db (create_pipeline now p (record v { pipeline_id = p.id }) es db)
run (versioning now v es) db = commit db (create_pipeline_version now v es db)
run (activating id number es) db = commit db (activate_pipeline_version id number es db)
run (deleting id es) db = commit_only db (delete_pipeline id es db)
run (elsewhere op) db = record db { base = apply op db.base }

unfoldable pub run_all : List Command → Db → Db
run_all [] db = db
run_all (c ∷ cs) db = run_all cs (run c db)

any-append : {A : Type 0} (t : A → Bool) (l m : List A) → any t l ≡ true → any t (l ++ m) ≡ true
any-append t [] m h = cc
any-append t (x ∷ l) m h = ground (arith, any-append t l m)

HasPipeline-more :
    (ps more : List PipelineRow) (vs : List VersionRow)
    → All (HasPipeline ps) vs
    → All (HasPipeline (ps ++ more)) vs
HasPipeline-more ps more [] h = tt
HasPipeline-more ps more (v ∷ vs) h =
    (any-append (is_pipeline v.pipeline_id) ps more h.0, HasPipeline-more ps more vs h.1)

-- If the operation succeeds, the tables are sound.
abbrev Keeps {ℓ} : {A : Type ℓ} → Answer (A × Db) → Type 0
Keeps (failed e) = Unit
Keeps (done r) = IsSound r.1

commit-IsSound {ℓ} :
    {A : Type ℓ} (db : Db) (a : Answer (A × Db)) → IsSound db → Keeps a → IsSound (commit db a)
commit-IsSound db (failed e) s k = s
commit-IsSound db (done r) s k = k

log-IsSound : (es : List Entry) (db : Db) → IsSound db → IsSound (log es db)
log-IsSound es db s = record {
  active_valid = s.active_valid;
  numbered = s.numbered;
  owned = s.owned;
  distinct = s.distinct;
}

logged-Keeps :
    (es : List Entry) (a : Answer (VersionRow × Db))
    → Keeps a
    → Keeps (a >>= λ r. done (r.0, log es r.1))
logged-Keeps es (failed e) k = tt
logged-Keeps es (done r) k = log-IsSound es r.1 k

-- A version more, with the number after the last.
insert-Keeps :
    (db : Db) (now : ℕ) (v : NewPipelineVersion) (number : ℕ)
    → IsSound db
    → number ≡ suc (length (versions_of v.pipeline_id db.versions))
    → Keeps (insert_pipeline_version now v number db)
unfolding insert_pipeline_version
insert-Keeps db now v number s next =
    elim (Bool-cases (any (λ (r : VersionRow). r.id == v.id) db.versions)) [
      | inl q ↦ rw q tt
      | inr q ↦ elim (Bool-cases (any (is_pipeline v.pipeline_id) db.pipelines)) [
        | inr p ↦ rw (q, p) tt
        | inl p ↦ elim (Bool-cases (any (is_numbered v.pipeline_id number) db.versions)) [
          | inl n ↦ rw (q, p, n) tt
          | inr n ↦
              rw (q, p, n)
                (record {
                  active_valid = All-more db.versions _ db.pipelines s.active_valid;
                  numbered =
                      NumberedFromOne-snoc db.versions (version_row now v number) s.numbered next;
                  owned = All-append (HasPipeline db.pipelines) db.versions _ s.owned (p, tt);
                  distinct = Distinct-snoc db.versions (version_row now v number) s.distinct q;
                })
        ]
      ]
    ]

create_version-IsSound :
    (now : ℕ) (v : NewPipelineVersion) (es : List Entry) (db : Db)
    → IsSound db
    → IsSound (commit db (create_pipeline_version now v es db))
unfolding create_pipeline_version
create_version-IsSound now v es db s =
    elim (Bool-cases (any (is_pipeline v.pipeline_id) db.pipelines)) [
      | inr q ↦ rw q s
      | inl q ↦ rw q (
          commit-IsSound db _ s (
            logged-Keeps es _ (
              insert-Keeps db now v _ s
                (omega (arith, greatest-versions_of db.versions v.pipeline_id s.numbered)))))
    ]

insert_pipeline-IsSound :
    (now : ℕ) (p : NewPipeline) (db : Db)
    → IsSound db
    → IsSound (record db { pipelines = db.pipelines ++ pipeline_row now p ∷ [] })
insert_pipeline-IsSound now p db s = record {
  active_valid = All-append (ActiveIsValid db.versions) db.pipelines _ s.active_valid (tt, tt);
  numbered = s.numbered;
  owned = HasPipeline-more db.pipelines _ db.versions s.owned;
  distinct = s.distinct;
}

create-Keeps :
    (now : ℕ) (p : NewPipeline) (v : NewPipelineVersion) (es : List Entry) (db : Db)
    → IsSound db
    → Keeps (create_pipeline now p (record v { pipeline_id = p.id }) es db)
unfolding create_pipeline insert_pipeline
create-Keeps now p v es db s = elim (Bool-cases (any (is_live p.customer_id) db.base.customers)) [
  | inr l ↦ rw l tt
  | inl l ↦ elim (Bool-cases (any (is_pipeline p.id) db.pipelines)) [
    | inl q ↦ rw (l, q) tt
    | inr q ↦ elim (Bool-cases (any (same_name p) db.pipelines)) [
      | inl n ↦ rw (l, q, n) tt
      | inr n ↦
          rw (l, q, n)
            (logged-Keeps es _ (
              insert-Keeps (record db { pipelines = db.pipelines ++ pipeline_row now p ∷ [] }) now
                (record v { pipeline_id = p.id }) 1 (insert_pipeline-IsSound now p db s)
                (ap (λ l. suc (length l))
                  (sym (versions_of-unowned db.pipelines db.versions p.id s.owned q)))))
    ]
  ]
]

activate-Keeps :
    (id number : ℕ) (es : List Entry) (db : Db)
    → IsSound db
    → Keeps (activate_pipeline_version id number es db)
unfolding activate_pipeline_version get_pipeline_version
activate-Keeps id number es db s = elim (Option-cases (find? (is_numbered id number) db.versions)) [
  | inl e ↦ rw (e, get_pipeline_version) tt
  | inr (v, e) ↦ elim (Bool-cases (is_valid v.validation_status)) [
    | inr b ↦ rw (e, get_pipeline_version, b) tt
    | inl b ↦
        let (here, t) = find?-In (is_numbered id number) db.versions v e in
        let its : v.pipeline_id ≡ id = ground (arith, nat_beq_iff v.pipeline_id id) in
        let good = is_valid-eq v.validation_status b in
        rw (e, get_pipeline_version, b)
          (record {
            active_valid = activated db.versions id v here its good db.pipelines s.active_valid;
            numbered = s.numbered;
            owned = HasPipeline-activate id v.id db.pipelines db.versions s.owned;
            distinct = s.distinct;
          })
  ]
]

delete-IsSound :
    (id : ℕ) (es : List Entry) (db : Db)
    → IsSound db
    → IsSound (commit_only db (delete_pipeline id es db))
unfolding delete_pipeline
delete-IsSound id es db s = elim (Bool-cases (any (is_pipeline id) db.pipelines)) [
  | inr q ↦ rw q s
  | inl q ↦ rw q (record {
    active_valid = deleted-active id db.versions db.pipelines s.active_valid;
    numbered = deleted-numbered id db.versions s.numbered;
    owned = deleted-owned id db.pipelines db.versions s.owned;
    distinct = Distinct-filter (of_other id) db.versions s.distinct;
  })
]

run-IsSound : (c : Command) (db : Db) → IsSound db → IsSound (run c db)
unfolding run
run-IsSound (creating now p v es) db s = commit-IsSound db _ s (create-Keeps now p v es db s)
run-IsSound (versioning now v es) db s = create_version-IsSound now v es db s
run-IsSound (activating id number es) db s =
    commit-IsSound db _ s (activate-Keeps id number es db s)
run-IsSound (deleting id es) db s = delete-IsSound id es db s
run-IsSound (elsewhere op) db s = record {
  active_valid = s.active_valid;
  numbered = s.numbered;
  owned = s.owned;
  distinct = s.distinct;
}

-- Whatever commands ran on sound tables, as empty ones are: the active version of every pipeline is a
-- version of that pipeline and valid, the versions of every pipeline are numbered 1, 2, 3 and so on in
-- the order of their creation, every version has its pipeline, and no two versions have the same id.
pub run_all-IsSound : (cs : List Command) (db : Db) → IsSound db → IsSound (run_all cs db)
unfolding run_all
run_all-IsSound [] db s = s
run_all-IsSound (c ∷ cs) db s = run_all-IsSound cs (run c db) (run-IsSound c db s)
