-- ===== src/Pipelines/Versions/Active.antt =====
-- What the renderer gets of the tables: ListActivePipelines (internal/store/pg_pipelines.go).
use otel_fleet.Prelude.{
  ◌≡◌, ◌⊎◌, refl, ◌∙◌, sym, ap, subst, inl, inr, ℕ, nat_eq, ◌==◌, nat_beq_iff, Bool, true,
  Bool-cases, Option, none, some, List, [], ◌∷◌, filter, find?, All, if◌then◌else◌, arith,
}
use otel_fleet.Store.{Customer, is_active, update_where, Entry, write_audit, err_conflict}
use otel_fleet.Pipelines.Render.Blocks.{In}
use otel_fleet.Pipelines.Versions.{
  TargetClass, valid, PipelineRow, VersionRow, ActivePipeline, Db, done, failed, store_error, log,
  in_scope, keep, is_owner, version_at, row_of, joined, active_row, active_rows,
  list_active_pipelines, activate_pipeline_version, get_pipeline_version, is_numbered, is_valid,
  is_pipeline, activate,
}
use otel_fleet.Pipelines.Versions.Invariant.{Among, ActiveIsValid, IsSound}
use otel_fleet.Pipelines.Versions.Changes.{find?-In, In-filter, Distinct-find?}

some_inj : {A : Type 0} (a b : A) → some a ≡ some b → a ≡ b
some_inj a b h = cc

-- Where a row of the renderer comes from.
pub record Backed (db : Db) (class : TargetClass) (scope : Option ℕ) (a : ActivePipeline)
    : Type 0 where
  pub pipeline : PipelineRow
  pub version : VersionRow
  pub customer : Customer
  pub has_pipeline : In pipeline db.pipelines
  pub has_version : In version db.versions
  pub has_customer : In customer db.base.customers
  pub scoped : in_scope class scope pipeline ≡ true
  pub customer_active : is_active customer.status ≡ true
  pub customer_owns : customer.id ≡ pipeline.customer_id
  pub version_valid : version.validation_status ≡ valid
  pub version_of : version.pipeline_id ≡ pipeline.id
  pub version_active : pipeline.active_version_id ≡ some version.id
  pub row : a ≡ row_of pipeline customer version

pub All-at : {A : Type 0} (P : A → Type 0) (l : List A) (x : A) → All P l → In x l → P x
All-at P [] x h i = absurd i
All-at P (y ∷ l) x h (inl e) = subst P (sym e) h.0
All-at P (y ∷ l) x h (inr i) = All-at P l x h.1 i

pub filter-In :
    {A : Type 0} (t : A → Bool) (l : List A) (x : A) → In x (filter t l) → In x l × (t x ≡ true)
filter-In t [] x i = absurd i
filter-In t (y ∷ l) x i = elim (Bool-cases (t y)) [
  | inl q ↦ of_head (rw q at i) q (filter-In t l x)
  | inr q ↦ let (j, k) = filter-In t l x (rw q at i) in (inr j, k)
]
  where
    of_head :
        In x (y ∷ filter t l)
        → t y ≡ true
        → (In x (filter t l) → In x l × (t x ≡ true))
        → In x (y ∷ l) × (t x ≡ true)
    of_head (inl e) q rest = (inl e, subst (λ z. t z ≡ true) (sym e) q)
    of_head (inr j) q rest = let (k, h) = rest j in (inr k, h)

pub joined-some :
    (p : PipelineRow) (o : Option Customer) (w : Option VersionRow) (a : ActivePipeline)
    → joined p o w ≡ some a
    → (c : Customer) × (v : VersionRow) × (o ≡ some c) × (w ≡ some v) × (a ≡ row_of p c v)
joined-some p none w a e = cc
joined-some p (some c) none a e = cc
joined-some p (some c) (some v) a e = (c, v, refl, refl, sym (cc e))

version_at-some :
    (vs : List VersionRow) (o : Option ℕ) (v : VersionRow)
    → version_at vs o ≡ some v
    → (id : ℕ) × (o ≡ some id) × (find? (λ (r : VersionRow). r.id == id) vs ≡ some v)
version_at-some vs none v e = cc
version_at-some vs (some id) v e = (id, refl, e)

keep-In :
    (o : Option ActivePipeline) (rest : List ActivePipeline) (a : ActivePipeline)
    → In a (keep o rest)
    → (o ≡ some a) ⊎ In a rest
keep-In none rest a i = inr i
keep-In (some b) rest a (inl e) = inl (ap some (sym e))
keep-In (some b) rest a (inr i) = inr i

active_rows-In :
    (db : Db) (ps : List PipelineRow) (a : ActivePipeline)
    → In a (active_rows db ps)
    → (p : PipelineRow) × In p ps × (active_row db p ≡ some a)
active_rows-In db [] a i = absurd i
active_rows-In db (p ∷ ps) a i = from (keep-In (active_row db p) _ a i) (active_rows-In db ps a)
  where
    from :
        (active_row db p ≡ some a) ⊎ In a (active_rows db ps)
        → (In a (active_rows db ps) → (q : PipelineRow) × In q ps × (active_row db q ≡ some a))
        → (q : PipelineRow) × In q (p ∷ ps) × (active_row db q ≡ some a)
    from (inl e) rest = (p, inl refl, e)
    from (inr j) rest = let (q, k, e) = rest j in (q, inr k, e)

-- Only what is active is rendered: in sound tables, every row that the renderer gets is that of a
-- pipeline of the class (and customer) that was asked for, whose customer is active, with the graph of
-- the pipeline's active version, which is one of its own and valid.
pub list_active_pipelines-Backed :
    (db : Db) (class : TargetClass) (scope : Option ℕ) (a : ActivePipeline)
    → IsSound db
    → In a (list_active_pipelines class scope db)
    → Backed db class scope a
unfolding list_active_pipelines active_row
list_active_pipelines-Backed db class scope a s i =
    let (p, j, e) = active_rows-In db (filter (in_scope class scope) db.pipelines) a i in
    let (k, scoped) = filter-In (in_scope class scope) db.pipelines p j in
    let (c, v, f, g, row) = joined-some p _ _ a e in
    let (id, h, found) = version_at-some db.versions p.active_version_id v g in
    let (c_in, owner) = find?-In (is_owner p) db.base.customers c f in
    let (v_in, same_id) = find?-In (λ (r : VersionRow). r.id == id) db.versions v found in
    let among : Among db.versions p.id (some id) =
      subst (Among db.versions p.id) h
        (All-at (ActiveIsValid db.versions) db.pipelines p s.active_valid k) in
    let again : find? (λ (r : VersionRow). r.id == id) db.versions ≡ some among.0 =
      subst (λ (n : ℕ). find? (λ (r : VersionRow). r.id == n) db.versions ≡ some among.0) among.2
        (Distinct-find? db.versions among.0 s.distinct among.1) in
    let e' : among.0 ≡ v = some_inj _ _ (sym again ∙ found) in
    record {
      pipeline = p;
      version = v;
      customer = c;
      has_pipeline = k;
      has_version = v_in;
      has_customer = c_in;
      scoped = scoped;
      customer_active = ground arith;
      customer_owns = ground (arith, nat_beq_iff c.id p.customer_id);
      version_valid = subst (λ w. w.validation_status ≡ valid) e' among.4;
      version_of = subst (λ w. w.pipeline_id ≡ p.id) e' among.3;
      version_active = h ∙ ap some (sym ((nat_beq_iff v.id id).0 same_id));
      row = row;
    }

In-update_where :
    (t : PipelineRow → Bool) (f : PipelineRow → PipelineRow) (l : List PipelineRow)
    (p : PipelineRow)
    → In p l
    → t p ≡ true
    → In (f p) (update_where t f l)
unfolding update_where
In-update_where t f [] p i h = i
In-update_where t f (q ∷ l) p (inl e) h =
    inl (subst (λ z. f p ≡ (if t z then f z else z)) e (rw h refl))
In-update_where t f (q ∷ l) p (inr i) h = inr (In-update_where t f l p i h)

In-keep :
    (o : Option ActivePipeline) (rest : List ActivePipeline) (a : ActivePipeline)
    → In a rest
    → In a (keep o rest)
In-keep none rest a i = i
In-keep (some b) rest a i = inr i

In-active_rows :
    (db : Db) (ps : List PipelineRow) (p : PipelineRow) (a : ActivePipeline)
    → In p ps
    → active_row db p ≡ some a
    → In a (active_rows db ps)
In-active_rows db [] p a i e = absurd i
In-active_rows db (q ∷ ps) p a (inl z) e =
    subst (λ w. In a (keep w (active_rows db ps))) (sym e ∙ ap (active_row db) z) (inl refl)
In-active_rows db (q ∷ ps) p a (inr i) e =
    In-keep (active_row db q) _ a (In-active_rows db ps p a i e)

in_scope-activate :
    (class : TargetClass) (scope : Option ℕ) (p : PipelineRow) (version_id : ℕ)
    → in_scope class scope (activate version_id p) ≡ in_scope class scope p
in_scope-activate class none p version_id = refl
in_scope-activate class (some customer) p version_id = refl

-- Activation, of a first version or back to an older one: a version of the pipeline that is valid
-- becomes the active one, and the renderer gets its graph for the pipeline, if the customer is active
-- and the pipeline is of the class (and customer) that is asked for.
pub activate-rendered :
    (id number : ℕ) (es : List Entry) (db : Db) (class : TargetClass) (scope : Option ℕ)
    (p : PipelineRow) (c : Customer) (v : VersionRow)
    → IsSound db
    → In p db.pipelines
    → p.id ≡ id
    → in_scope class scope p ≡ true
    → find? (is_owner p) db.base.customers ≡ some c
    → find? (is_numbered id number) db.versions ≡ some v
    → v.validation_status ≡ valid
    → (db' : Db) × (activate_pipeline_version id number es db ≡ done (v, db'))
      × In (row_of p c v) (list_active_pipelines class scope db')
unfolding activate_pipeline_version get_pipeline_version list_active_pipelines active_row
    write_audit
activate-rendered id number es db class scope p c v s i e scoped owner found good =
    let ps' = update_where (is_pipeline id) (activate v.id) db.pipelines in
    let db' : Db = log es (record db { pipelines = ps' }) in
    let (v_in, _) = find?-In (is_numbered id number) db.versions v found in
    let here : In (activate v.id p) ps' =
      In-update_where (is_pipeline id) (activate v.id) db.pipelines p i
        ((nat_beq_iff p.id id).1 e) in
    let read : active_row db' (activate v.id p) ≡ some (row_of p c v) =
      ap (λ o. joined (activate v.id p) o (version_at db.versions (some v.id))) owner
      ∙ ap (joined (activate v.id p) (some c)) (Distinct-find? db.versions v s.distinct v_in) in
    (
      db',
      rw (found, get_pipeline_version)
          (ap (λ w. if w then done (v, db') else failed (store_error err_conflict))
            (ap is_valid good)),
      In-active_rows db' (filter (in_scope class scope) ps') (activate v.id p) _
          (In-filter (in_scope class scope) ps' (activate v.id p) here
            (in_scope-activate class scope p v.id ∙ scoped))
          read,
    )
