-- ===== src/Pipelines/Service/Slugs.antt =====
-- The slugs of a customer's pipelines under the operations of service.go, one after the other.
use otel_fleet.Prelude.{
  ◌≡◌, ◌≢◌, refl, ◌∙◌, subst, sym, ap, inl, inr, ℕ, Text, text_eq, nat_eq, not, Bool-cases, Option,
  List, [], ◌∷◌, All,
}
use otel_fleet.Store.{update_where}
use otel_fleet.Tenants.Service.{trim_space}
use otel_fleet.Pipelines.Graph.{Graph}
use otel_fleet.Pipelines.Naming.{pipeline_slug}
use otel_fleet.Pipelines.Versions.{
  VersionRow, TargetClass, PipelineRow, Db, is_pipeline, activate, list_pipelines,
}
use otel_fleet.Pipelines.Service.{Service, Returned, returned, not_valid, error}
use otel_fleet.Pipelines.Service.Prepare.{Drawn}
use otel_fleet.Pipelines.Service.Operations.{
  Created, Rollout, create, create_version, activate_version, delete,
}
use otel_fleet.Pipelines.Pairs.{Pairwise, Pairwise-filter, Pairwise-snoc}
use otel_fleet.Store.Ops.{Op, apply}
use otel_fleet.Pipelines.Service.Effects.{
  then_do-returned, of_answer-returned, returned_inj, slug_free-All, listed-own,
}
use otel_fleet.Pipelines.Versions.Results.{
  create_pipeline-result, create_version-pipelines, activate-pipelines, delete-pipelines,
}

-- Two pipelines of one customer have different slugs.
abbrev pub Apart : (ℕ → ℕ) → PipelineRow → PipelineRow → Type 0
Apart lower p q =
    p.customer_id ≡ q.customer_id → pipeline_slug lower p.name ≢ pipeline_slug lower q.name

abbrev pub SlugsApart : (ℕ → ℕ) → Db → Type 0
SlugsApart lower db = Pairwise (Apart lower) db.pipelines

-- A call with its arguments; the last is one of the customer service.
pub data Change : Type 0 where
  creating : ℕ → Option ℕ → ℕ → Text → Option TargetClass → Graph → Drawn → Change
  versioning : ℕ → Option ℕ → ℕ → Graph → Drawn → Change
  activating : Option ℕ → ℕ → ℕ → Change
  deleting : Option ℕ → ℕ → Change
  elsewhere : Op → Change

-- The tables after a call.
abbrev pub after {ℓ} : {A : Type ℓ} → (A → Db) → Db → Returned A → Db
after f db (returned a) = f a
after f db (not_valid v) = db
after f db (error e) = db

unfoldable pub carry_out : Service → Change → Db → Db
carry_out s (creating now actor customer raw class g d) db =
    after (λ (c : Created). c.db) db (create s now actor customer raw class g d db)
carry_out s (versioning now actor id g d) db =
    after (λ (c : Created). c.db) db (create_version s now actor id g d db)
carry_out s (activating actor id number) db =
    after (λ (r : Db × Rollout). r.0) db (activate_version s actor id number db)
carry_out s (deleting actor id) db =
    after (λ (r : Db × Option Rollout). r.0) db (delete s actor id db)
carry_out s (elsewhere op) db = record db { base = apply op db.base }

unfoldable pub carry_out_all : Service → List Change → Db → Db
carry_out_all s [] db = db
carry_out_all s (c ∷ cs) db = carry_out_all s cs (carry_out s c db)

after-keeps {ℓ} :
    {A : Type ℓ} (P : Db → Type 0) (f : A → Db) (db : Db) (r : Returned A)
    → P db
    → ((a : A) → r ≡ returned a → P (f a))
    → P (after f db r)
after-keeps P f db (returned a) h k = k a refl
after-keeps P f db (not_valid v) h k = h
after-keeps P f db (error e) h k = h

Pairwise-at :
    (lower : ℕ → ℕ) (ps qs : List PipelineRow)
    → ps ≡ qs
    → Pairwise (Apart lower) qs
    → Pairwise (Apart lower) ps
Pairwise-at lower ps qs e h = subst (Pairwise (Apart lower)) (sym e) h

update-All :
    (lower : ℕ → ℕ) (p : PipelineRow) (id version_id : ℕ) (ps : List PipelineRow)
    → All (Apart lower p) ps
    → All (Apart lower p) (update_where (is_pipeline id) (activate version_id) ps)
unfolding update_where
update-All lower p id version_id [] h = tt
update-All lower p id version_id (q ∷ ps) h = elim (Bool-cases (is_pipeline id q)) [
  | inl t ↦ rw t (h.0, update-All lower p id version_id ps h.1)
  | inr t ↦ rw t (h.0, update-All lower p id version_id ps h.1)
]

update-Pairwise :
    (lower : ℕ → ℕ) (id version_id : ℕ) (ps : List PipelineRow)
    → Pairwise (Apart lower) ps
    → Pairwise (Apart lower) (update_where (is_pipeline id) (activate version_id) ps)
unfolding update_where
update-Pairwise lower id version_id [] h = tt
update-Pairwise lower id version_id (p ∷ ps) h = elim (Bool-cases (is_pipeline id p)) [
  | inl t ↦
      rw t (update-All lower p id version_id ps h.0, update-Pairwise lower id version_id ps h.1)
  | inr t ↦
      rw t (update-All lower p id version_id ps h.0, update-Pairwise lower id version_id ps h.1)
]

module _ (s : Service) (db : Db) (h : SlugsApart s.lower db) where
  create-SlugsApart :
      (now : ℕ) (actor : Option ℕ) (customer : ℕ) (raw : Text) (class : Option TargetClass)
      (g : Graph) (d : Drawn) (c : Created)
      → create s now actor customer raw class g d db ≡ returned c
      → SlugsApart s.lower c.db
  unfolding create list_pipelines
  create-SlugsApart now actor customer raw class g d c e =
      let (_, _, e1) = then_do-returned _ _ c e in
      let (_, _, e2) = then_do-returned _ _ c e1 in
      let (_, _, e3) = then_do-returned _ _ c e2 in
      let (u, free, e4) = then_do-returned _ _ c e3 in
      let (_, _, e5) = then_do-returned _ _ c e4 in
      let (r, made, e6) = then_do-returned _ _ c e5 in
      let (live, row) = create_pipeline-result _ _ _ _ db r (of_answer-returned _ r made) in
      let own =
        listed-own _ customer db.base db.pipelines live
          (slug_free-All s.lower (trim_space raw) _ u free) in
      let same : c.db.pipelines ≡ r.1.pipelines =
        ap (λ (x : Created). x.db.pipelines) (sym (returned_inj _ c e6)) in
      Pairwise-at s.lower _ _ (same ∙ ap (λ (x : VersionRow × Db). x.1.pipelines) row)
        (Pairwise-snoc (Apart s.lower) db.pipelines _ h own)

  create_version-SlugsApart :
      (now : ℕ) (actor : Option ℕ) (id : ℕ) (g : Graph) (d : Drawn) (c : Created)
      → create_version s now actor id g d db ≡ returned c
      → SlugsApart s.lower c.db
  unfolding create_version
  create_version-SlugsApart now actor id g d c e =
      let (_, _, e1) = then_do-returned _ _ c e in
      let (_, _, e2) = then_do-returned _ _ c e1 in
      let (_, _, e3) = then_do-returned _ _ c e2 in
      let (_, _, e4) = then_do-returned _ _ c e3 in
      let (r, made, e5) = then_do-returned _ _ c e4 in
      let same : c.db.pipelines ≡ r.1.pipelines =
        ap (λ (x : Created). x.db.pipelines) (sym (returned_inj _ c e5)) in
      Pairwise-at s.lower _ _
        (same ∙ create_version-pipelines _ _ _ db r (of_answer-returned _ r made)) h

  activate-SlugsApart :
      (actor : Option ℕ) (id number : ℕ) (r : Db × Rollout)
      → activate_version s actor id number db ≡ returned r
      → SlugsApart s.lower r.0
  unfolding activate_version
  activate-SlugsApart actor id number r e =
      let (q, made, e1) = then_do-returned _ _ r e in
      let (_, _, e2) = then_do-returned _ _ r e1 in
      let same : r.0.pipelines ≡ q.1.pipelines =
        ap (λ (x : Db × Rollout). x.0.pipelines) (sym (returned_inj _ r e2)) in
      Pairwise-at s.lower _ _
        (same ∙ activate-pipelines id number _ db q (of_answer-returned _ q made))
        (update-Pairwise s.lower id q.0.id db.pipelines h)

  delete-SlugsApart :
      (actor : Option ℕ) (id : ℕ) (r : Db × Option Rollout)
      → delete s actor id db ≡ returned r
      → SlugsApart s.lower r.0
  unfolding delete
  delete-SlugsApart actor id r e =
      let (_, _, e1) = then_do-returned _ _ r e in
      let (db', made, e2) = then_do-returned _ _ r e1 in
      let same : r.0.pipelines ≡ db'.pipelines =
        ap (λ (x : Db × Option Rollout). x.0.pipelines) (sym (returned_inj _ r e2)) in
      Pairwise-at s.lower _ _ (same ∙ delete-pipelines id _ db db' (of_answer-returned _ db' made))
        (Pairwise-filter (Apart s.lower) (λ p. not (is_pipeline id p)) db.pipelines h)

carry_out-SlugsApart :
    (s : Service) (c : Change) (db : Db)
    → SlugsApart s.lower db
    → SlugsApart s.lower (carry_out s c db)
unfolding carry_out
carry_out-SlugsApart s (creating now actor customer raw class g d) db h =
    after-keeps (SlugsApart s.lower) (λ (c : Created). c.db) db _ h
      (create-SlugsApart s db h now actor customer raw class g d)
carry_out-SlugsApart s (versioning now actor id g d) db h =
    after-keeps (SlugsApart s.lower) (λ (c : Created). c.db) db _ h
      (create_version-SlugsApart s db h now actor id g d)
carry_out-SlugsApart s (activating actor id number) db h =
    after-keeps (SlugsApart s.lower) (λ (r : Db × Rollout). r.0) db _ h
      (activate-SlugsApart s db h actor id number)
carry_out-SlugsApart s (deleting actor id) db h =
    after-keeps (SlugsApart s.lower) (λ (r : Db × Option Rollout). r.0) db _ h
      (delete-SlugsApart s db h actor id)
carry_out-SlugsApart s (elsewhere op) db h = h

pub carry_out_all-SlugsApart :
    (s : Service) (cs : List Change) (db : Db)
    → SlugsApart s.lower db
    → SlugsApart s.lower (carry_out_all s cs db)
unfolding carry_out_all
carry_out_all-SlugsApart s [] db h = h
carry_out_all-SlugsApart s (c ∷ cs) db h =
    carry_out_all-SlugsApart s cs (carry_out s c db) (carry_out-SlugsApart s c db h)
