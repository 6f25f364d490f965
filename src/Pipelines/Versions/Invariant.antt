-- ===== src/Pipelines/Versions/Invariant.antt =====
-- What holds of the tables of the pipelines, and the changes that keep it
-- (internal/store/pg_pipelines.go).
use otel_fleet.Prelude.{
  ◌≡◌, refl, ◌∙◌, sym, ap, subst, inl, inr, ℕ, zero, suc, max, nat_eq, ◌==◌, nat_beq_iff, Bool,
  true, false, Bool-cases, Option, none, some, List, [], ◌∷◌, ◌++◌, map, any, filter, length, All,
  arith, length-append,
}
use mathlib.Core.List.{append-nil}
use otel_fleet.Pipelines.Render.Blocks.{In}
use otel_fleet.Pipelines.Versions.{
  valid, PipelineRow, VersionRow, Db, is_pipeline, is_of, greatest, versions_of,
}

-- The version is one of the pipeline's, and valid.
abbrev pub Among : List VersionRow → ℕ → Option ℕ → Type 0
Among versions pipeline_id none = Unit
Among versions pipeline_id (some id) =
    (v : VersionRow) × In v versions
    × (v.id ≡ id)
    × (v.pipeline_id ≡ pipeline_id)
    × (v.validation_status ≡ valid)

abbrev pub ActiveIsValid : List VersionRow → PipelineRow → Type 0
ActiveIsValid versions p = Among versions p.id p.active_version_id

-- 1, 2, ..., n
abbrev pub one_to : ℕ → List ℕ
one_to zero = []
one_to (suc n) = one_to n ++ suc n ∷ []

abbrev pub numbers_of : ℕ → List VersionRow → List ℕ
numbers_of pipeline_id versions =
    map (λ (v : VersionRow). v.version) (versions_of pipeline_id versions)

-- The versions of a pipeline are numbered from 1, in the order of their creation, without a gap.
abbrev pub NumberedFromOne : List VersionRow → Type 0
NumberedFromOne versions =
    (pipeline_id : ℕ)
    → numbers_of pipeline_id versions ≡ one_to (length (versions_of pipeline_id versions))

abbrev pub HasPipeline : List PipelineRow → VersionRow → Type 0
HasPipeline pipelines v = any (is_pipeline v.pipeline_id) pipelines ≡ true

-- No two versions have the same id.
abbrev pub Distinct : List VersionRow → Type 0
Distinct [] = Unit
Distinct (v ∷ vs) = (any (λ (r : VersionRow). r.id == v.id) vs ≡ false) × Distinct vs

pub record IsSound (db : Db) : Type 0 where
  pub active_valid : All (ActiveIsValid db.versions) db.pipelines
  pub numbered : NumberedFromOne db.versions
  pub owned : All (HasPipeline db.pipelines) db.versions
  pub distinct : Distinct db.versions

pub In-left : {A : Type 0} (x : A) (l m : List A) → In x l → In x (l ++ m)
In-left x [] m i = absurd i
In-left x (y ∷ l) m (inl e) = inl e
In-left x (y ∷ l) m (inr i) = inr (In-left x l m i)

Among-more :
    (versions more : List VersionRow) (pipeline_id : ℕ) (active : Option ℕ)
    → Among versions pipeline_id active
    → Among (versions ++ more) pipeline_id active
Among-more versions more pipeline_id none h = tt
Among-more versions more pipeline_id (some id) (v, i, a, b, c) =
    (v, In-left v versions more i, a, b, c)

-- A version more takes no active version away.
pub All-more :
    (versions more : List VersionRow) (ps : List PipelineRow)
    → All (ActiveIsValid versions) ps
    → All (ActiveIsValid (versions ++ more)) ps
All-more versions more [] h = tt
All-more versions more (p ∷ ps) h =
    (Among-more versions more p.id p.active_version_id h.0, All-more versions more ps h.1)

filter-append :
    {A : Type 0} (t : A → Bool) (l m : List A) → filter t (l ++ m) ≡ filter t l ++ filter t m
filter-append t [] m = refl
filter-append t (x ∷ l) m = elim (Bool-cases (t x)) [
  | inl q ↦ rw (q, filter-append t l m)
  | inr q ↦ rw (q, filter-append t l m)
]

greatest_of : List ℕ → ℕ
greatest_of [] = 0
greatest_of (n ∷ l) = max n (greatest_of l)

greatest-map :
    (vs : List VersionRow) → greatest vs ≡ greatest_of (map (λ (v : VersionRow). v.version) vs)
unfolding greatest_of
greatest-map [] = refl
greatest-map (v ∷ vs) = ap (max v.version) (greatest-map vs)

greatest_of-append : (l : List ℕ) (n : ℕ) → greatest_of (l ++ n ∷ []) ≡ max (greatest_of l) n
unfolding greatest_of
greatest_of-append [] n = omega arith
greatest_of-append (m ∷ l) n = omega (arith, greatest_of-append l n)

greatest_of-one_to : (n : ℕ) → greatest_of (one_to n) ≡ n
unfolding greatest_of
greatest_of-one_to zero = refl
greatest_of-one_to (suc n) =
    greatest_of-append (one_to n) (suc n) ∙ omega (arith, greatest_of-one_to n)

-- The greatest number is how many versions there are.
pub greatest-versions_of :
    (vs : List VersionRow) (pipeline_id : ℕ)
    → NumberedFromOne vs
    → greatest (versions_of pipeline_id vs) ≡ length (versions_of pipeline_id vs)
greatest-versions_of vs pipeline_id h =
    greatest-map (versions_of pipeline_id vs)
    ∙ ap greatest_of (h pipeline_id)
    ∙ greatest_of-one_to _

numbers-append :
    (l : List VersionRow) (v : VersionRow)
    → map (λ (w : VersionRow). w.version) (l ++ v ∷ [])
      ≡ map (λ (w : VersionRow). w.version) l ++ v.version ∷ []
numbers-append [] v = refl
numbers-append (w ∷ l) v = ap (λ r. w.version ∷ r) (numbers-append l v)

length-snoc : (l : List VersionRow) (v : VersionRow) → length (l ++ v ∷ []) ≡ suc (length l)
length-snoc l v = omega (arith, length-append l (v ∷ []))

-- The next number keeps the numbering.
pub NumberedFromOne-snoc :
    (vs : List VersionRow) (v : VersionRow)
    → NumberedFromOne vs
    → v.version ≡ suc (length (versions_of v.pipeline_id vs))
    → NumberedFromOne (vs ++ v ∷ [])
NumberedFromOne-snoc vs v h e q = elim (Bool-cases (is_of q v)) [
  | inl s ↦
      let l = versions_of q vs in
      let split : versions_of q (vs ++ v ∷ []) ≡ l ++ v ∷ [] =
        filter-append (is_of q) vs (v ∷ []) ∙ rw s in
      let number : v.version ≡ suc (length l) =
        e ∙ ap (λ (i : ℕ). suc (length (versions_of i vs))) ((nat_beq_iff v.pipeline_id q).0 s) in
      subst (λ r. map (λ (w : VersionRow). w.version) r ≡ one_to (length r)) (sym split)
        (numbers-append l v
          ∙ ap (λ (r : List ℕ). r ++ v.version ∷ []) (h q)
          ∙ ap (λ (n : ℕ). one_to (length l) ++ n ∷ []) number
          ∙ ap one_to (sym (length-snoc l v)))
  | inr s ↦
      let same : versions_of q (vs ++ v ∷ []) ≡ versions_of q vs =
        filter-append (is_of q) vs (v ∷ []) ∙ rw s (append-nil (versions_of q vs)) in
      subst (λ r. map (λ (w : VersionRow). w.version) r ≡ one_to (length r)) (sym same) (h q)
]

-- No version belongs to a pipeline that does not exist.
pub versions_of-unowned :
    (ps : List PipelineRow) (vs : List VersionRow) (id : ℕ)
    → All (HasPipeline ps) vs
    → any (is_pipeline id) ps ≡ false
    → versions_of id vs ≡ []
versions_of-unowned ps [] id h e = refl
versions_of-unowned ps (v ∷ vs) id h e = elim (Bool-cases (is_of id v)) [
  | inl s ↦
      let z : any (is_pipeline id) ps ≡ true =
        sym (ap (λ (i : ℕ). any (is_pipeline i) ps) ((nat_beq_iff v.pipeline_id id).0 s)) ∙ h.0 in
      cc
  | inr s ↦ rw s (versions_of-unowned ps vs id h.1 e)
]
