-- ===== src/Pipelines/Versions/Changes.antt =====
-- Lemmas on activation and deletion (internal/store/pg_pipelines.go).
use otel_fleet.Prelude.{
  ◌≡◌, refl, ◌∙◌, sym, ap, subst, inl, inr, ℕ, nat_eq, ◌==◌, nat_beq_iff, beq_self, Bool, true,
  false, not, Bool-cases, Option, none, some, List, [], ◌∷◌, ◌++◌, any, filter, find?, length, map,
  All, arith,
}
use otel_fleet.Store.{update_where}
use otel_fleet.Pipelines.Render.Blocks.{In}
use otel_fleet.Pipelines.Versions.{
  ValidationStatus, valid, invalid, is_valid, PipelineRow, VersionRow, is_pipeline, is_of,
  versions_of, activate,
}
use otel_fleet.Pipelines.Versions.Invariant.{
  Among, ActiveIsValid, NumberedFromOne, HasPipeline, Distinct, one_to,
}

pub is_valid-eq : (s : ValidationStatus) → is_valid s ≡ true → s ≡ valid
is_valid-eq valid h = refl
is_valid-eq invalid h = cc

pub find?-In :
    {A : Type 0} (t : A → Bool) (l : List A) (x : A) → find? t l ≡ some x → In x l × (t x ≡ true)
find?-In t [] x h = cc
find?-In t (y ∷ l) x h = elim (Bool-cases (t y)) [
  | inl q ↦
      let z : some y ≡ some x = rw q at h in
      let e : y ≡ x = cc z in (inl (sym e), subst (λ w. t w ≡ true) e q)
  | inr q ↦ let (i, k) = find?-In t l x (rw q at h) in (inr i, k)
]

pub In-filter :
    {A : Type 0} (t : A → Bool) (l : List A) (x : A) → In x l → t x ≡ true → In x (filter t l)
In-filter t [] x i h = i
In-filter t (y ∷ l) x (inl e) h = rw (subst (λ w. t w ≡ true) e h) (inl e)
In-filter t (y ∷ l) x (inr i) h = elim (Bool-cases (t y)) [
  | inl q ↦ rw q (inr (In-filter t l x i h))
  | inr q ↦ rw q (In-filter t l x i h)
]

pub Distinct-snoc :
    (vs : List VersionRow) (v : VersionRow)
    → Distinct vs
    → any (λ (r : VersionRow). r.id == v.id) vs ≡ false
    → Distinct (vs ++ v ∷ [])
Distinct-snoc [] v d h = (refl, tt)
Distinct-snoc (w ∷ vs) v d h =
    (any-snoc w.id vs v d.0 (ground arith), Distinct-snoc vs v d.1 (ground arith))
  where
    any-snoc :
        (i : ℕ) (vs : List VersionRow) (v : VersionRow)
        → any (λ (r : VersionRow). r.id == i) vs ≡ false
        → (v.id == i) ≡ false
        → any (λ (r : VersionRow). r.id == i) (vs ++ v ∷ []) ≡ false
    any-snoc i [] v h k = ground arith
    any-snoc i (w ∷ vs) v h k = ground (arith, any-snoc i vs v)

any-filter :
    {A : Type 0} (t u : A → Bool) (l : List A) → any t l ≡ false → any t (filter u l) ≡ false
any-filter t u [] h = refl
any-filter t u (x ∷ l) h = elim (Bool-cases (u x)) [
  | inl q ↦ rw q (ground (arith, any-filter t u l))
  | inr q ↦ rw q (any-filter t u l (ground arith))
]

pub Distinct-filter :
    (u : VersionRow → Bool) (vs : List VersionRow) → Distinct vs → Distinct (filter u vs)
Distinct-filter u [] d = tt
Distinct-filter u (v ∷ vs) d = elim (Bool-cases (u v)) [
  | inl q ↦ rw q (any-filter (λ (r : VersionRow). r.id == v.id) u vs d.0, Distinct-filter u vs d.1)
  | inr q ↦ rw q (Distinct-filter u vs d.1)
]

-- A version is found by its id.
pub Distinct-find? :
    (vs : List VersionRow) (v : VersionRow)
    → Distinct vs
    → In v vs
    → find? (λ (r : VersionRow). r.id == v.id) vs ≡ some v
Distinct-find? [] v d i = absurd i
Distinct-find? (w ∷ vs) v d (inl e) =
    subst (λ z. find? (λ (r : VersionRow). r.id == z.id) (w ∷ vs) ≡ some z) (sym e)
      (rw (beq_self w.id))
Distinct-find? (w ∷ vs) v d (inr i) = rw (not_first w.id vs v d.0 i) (Distinct-find? vs v d.1 i)
  where
    not_first :
        (n : ℕ) (vs : List VersionRow) (v : VersionRow)
        → any (λ (r : VersionRow). r.id == n) vs ≡ false
        → In v vs
        → (n == v.id) ≡ false
    not_first n [] v h i = absurd i
    not_first n (x ∷ vs) v h (inl e) = subst (λ z. (n == z.id) ≡ false) (sym e) (ground arith)
    not_first n (x ∷ vs) v h (inr i) = not_first n vs v (ground arith) i

-- Activation of a valid version of the pipeline.
module _ (versions : List VersionRow) (id : ℕ) (v : VersionRow) (here : In v versions)
    (its : v.pipeline_id ≡ id) (good : v.validation_status ≡ valid) where
  pub activated :
      (ps : List PipelineRow)
      → All (ActiveIsValid versions) ps
      → All (ActiveIsValid versions) (update_where (is_pipeline id) (activate v.id) ps)
  unfolding update_where
  activated [] h = tt
  activated (p ∷ ps) h = elim (Bool-cases (is_pipeline id p)) [
    | inl q ↦ rw q ((v, here, refl, its ∙ sym ((nat_beq_iff p.id id).0 q), good), activated ps h.1)
    | inr q ↦ rw q (h.0, activated ps h.1)
  ]

any-activate :
    (id version_id i : ℕ) (ps : List PipelineRow)
    → any (is_pipeline i) (update_where (is_pipeline id) (activate version_id) ps)
      ≡ any (is_pipeline i) ps
unfolding update_where
any-activate id version_id i [] = refl
any-activate id version_id i (p ∷ ps) = elim (Bool-cases (is_pipeline id p)) [
  | inl q ↦ rw (q, any-activate id version_id i ps)
  | inr q ↦ rw (q, any-activate id version_id i ps)
]

pub HasPipeline-activate :
    (id version_id : ℕ) (ps : List PipelineRow) (vs : List VersionRow)
    → All (HasPipeline ps) vs
    → All (HasPipeline (update_where (is_pipeline id) (activate version_id) ps)) vs
HasPipeline-activate id version_id ps [] h = tt
HasPipeline-activate id version_id ps (v ∷ vs) h = (
  any-activate id version_id v.pipeline_id ps ∙ h.0,
  HasPipeline-activate id version_id ps vs h.1,
)

-- Deletion of a pipeline with its versions.
module _ (id : ℕ) where
  abbrev pub other : PipelineRow → Bool
  other p = not (is_pipeline id p)

  abbrev pub of_other : VersionRow → Bool
  of_other v = not (is_of id v)

  Among-deleted :
      (versions : List VersionRow) (pipeline_id : ℕ) (active : Option ℕ)
      → (pipeline_id == id) ≡ false
      → Among versions pipeline_id active
      → Among (filter of_other versions) pipeline_id active
  Among-deleted versions pipeline_id none ne h = tt
  Among-deleted versions pipeline_id (some a) ne (v, i, e, f, g) =
      (v, In-filter of_other versions v i (ap not (ap (λ (n : ℕ). n == id) f ∙ ne)), e, f, g)

  pub deleted-active :
      (versions : List VersionRow) (ps : List PipelineRow)
      → All (ActiveIsValid versions) ps
      → All (ActiveIsValid (filter of_other versions)) (filter other ps)
  deleted-active versions [] h = tt
  deleted-active versions (p ∷ ps) h = elim (Bool-cases (is_pipeline id p)) [
    | inl q ↦ rw q (deleted-active versions ps h.1)
    | inr q ↦
        rw q (Among-deleted versions p.id p.active_version_id q h.0, deleted-active versions ps h.1)
  ]

  versions_of-deleted :
      (vs : List VersionRow) (i : ℕ)
      → (i == id) ≡ false
      → versions_of i (filter of_other vs) ≡ versions_of i vs
  versions_of-deleted [] i ne = refl
  versions_of-deleted (v ∷ vs) i ne = elim (Bool-cases (is_of id v)) [
    | inl q ↦ let z : is_of i v ≡ false = ground arith in rw (q, z) (versions_of-deleted vs i ne)
    | inr q ↦ rw (q, versions_of-deleted vs i ne)
  ]

  versions_of-gone : (vs : List VersionRow) → versions_of id (filter of_other vs) ≡ []
  versions_of-gone [] = refl
  versions_of-gone (v ∷ vs) = elim (Bool-cases (is_of id v)) [
    | inl q ↦ rw q (versions_of-gone vs)
    | inr q ↦ rw (q, q) (versions_of-gone vs)
  ]

  pub deleted-numbered :
      (vs : List VersionRow) → NumberedFromOne vs → NumberedFromOne (filter of_other vs)
  deleted-numbered vs h i = elim (Bool-cases (i == id)) [
    | inl q ↦
        subst (λ r. map (λ (w : VersionRow). w.version) r ≡ one_to (length r))
          (sym (
            ap (λ (n : ℕ). versions_of n (filter of_other vs)) ((nat_beq_iff i id).0 q)
            ∙ versions_of-gone vs))
          refl
    | inr q ↦
        subst (λ r. map (λ (w : VersionRow). w.version) r ≡ one_to (length r))
          (sym (versions_of-deleted vs i q)) (h i)
  ]

  any-deleted :
      (ps : List PipelineRow) (i : ℕ)
      → (i == id) ≡ false
      → any (is_pipeline i) (filter other ps) ≡ any (is_pipeline i) ps
  any-deleted [] i ne = refl
  any-deleted (p ∷ ps) i ne = elim (Bool-cases (is_pipeline id p)) [
    | inl q ↦ let z : is_pipeline i p ≡ false = ground arith in rw (q, z) (any-deleted ps i ne)
    | inr q ↦ rw (q, any-deleted ps i ne)
  ]

  pub deleted-owned :
      (ps : List PipelineRow) (vs : List VersionRow)
      → All (HasPipeline ps) vs
      → All (HasPipeline (filter other ps)) (filter of_other vs)
  deleted-owned ps [] h = tt
  deleted-owned ps (v ∷ vs) h = elim (Bool-cases (is_of id v)) [
    | inl q ↦ rw q (deleted-owned ps vs h.1)
    | inr q ↦ rw q (any-deleted ps v.pipeline_id q ∙ h.0, deleted-owned ps vs h.1)
  ]
