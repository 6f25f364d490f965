-- ===== src/Pipelines/Service/Effects.antt =====
-- How a sequence of steps of service.go returns, and what its checks find.
use otel_fleet.Prelude.{
  ◌≡◌, ◌≢◌, refl, subst, sym, inl, inr, ℕ, Text, text_eq, nat_eq, ◌==◌, apart, true, false,
  Bool-cases, some, List, [], ◌∷◌, any, filter, All, arith, nat_beq_iff,
}
use otel_fleet.Store.{is_live}
use otel_fleet.Store
use otel_fleet.Pipelines.Naming.{pipeline_slug}
use otel_fleet.Pipelines.Versions.{PipelineRow, Answer, done, failed, is_listed}
use otel_fleet.Pipelines.Service.{Returned, returned, not_valid, error, then_do, of_answer}
use otel_fleet.Pipelines.Service.Operations.{slug_free}

-- How a sequence of steps that returned came there.
pub then_do-returned {ℓ κ} :
    {A : Type ℓ} {B : Type κ} (r : Returned A) (f : A → Returned B) (b : B)
    → then_do r f ≡ returned b
    → (a : A) × (r ≡ returned a) × (f a ≡ returned b)
unfolding then_do
then_do-returned (returned a) f b e = (a, refl, e)
then_do-returned (not_valid v) f b e = cc
then_do-returned (error x) f b e = cc

pub returned_inj {ℓ} : {A : Type ℓ} (a b : A) → returned a ≡ returned b → a ≡ b
returned_inj a b e = cc

pub of_answer-returned {ℓ} :
    {A : Type ℓ} (r : Answer A) (a : A) → of_answer r ≡ returned a → r ≡ done a
of_answer-returned (done x) a e = cc
of_answer-returned (failed x) a e = cc

pub slug_free-All :
    (lower : ℕ → ℕ) (name : Text) (ps : List PipelineRow) (u : Unit {0})
    → slug_free lower name ps ≡ returned u
    → All (λ p. pipeline_slug lower p.name ≢ pipeline_slug lower name) ps
unfolding slug_free
slug_free-All lower name [] u e = tt
slug_free-All lower name (p ∷ ps) u e =
    elim (Bool-cases (pipeline_slug lower p.name == pipeline_slug lower name)) [
      | inl q ↦ cc (rw q at e)
      | inr q ↦ (apart _ _ q, slug_free-All lower name ps u (rw q at e))
    ]

-- What holds of the listed pipelines of a live customer holds of all that are its own.
pub listed-own :
    (P : PipelineRow → Type 0) (customer : ℕ) (base : Store.Db) (ps : List PipelineRow)
    → any (is_live customer) base.customers ≡ true
    → All P (filter (is_listed (some customer) base) ps)
    → All (λ p. p.customer_id ≡ customer → P p) ps
listed-own P customer base [] live h = tt
listed-own P customer base (p ∷ ps) live h = elim (Bool-cases (is_listed (some customer) base p)) [
  | inl q ↦
      let h' : All P (p ∷ filter (is_listed (some customer) base) ps) = rw q at h in
      (λ _. h'.0, listed-own P customer base ps live h'.1)
  | inr q ↦ (
    λ (e : p.customer_id ≡ customer).
        absurd
          (not_listed e (subst (λ (c : ℕ). any (is_live c) base.customers ≡ true) (sym e) live) q),
    listed-own P customer base ps live (rw q at h),
  )
]
  where
    not_listed :
        p.customer_id ≡ customer
        → any (is_live p.customer_id) base.customers ≡ true
        → is_listed (some customer) base p ≡ false
        → ⊥
    not_listed e l q = ground (arith, nat_beq_iff p.customer_id customer)
