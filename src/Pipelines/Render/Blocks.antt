-- ===== src/Pipelines/Render/Blocks.antt =====
-- The entries of service.pipelines in a rendered configuration, found again by their ids
-- (internal/pipelines/render.go).
use otel_fleet.Prelude.{
  ◌≡◌, ◌≢◌, ◌⊎◌, refl, ◌∙◌, sym, ap, inl, inr, Text, text_eq, ◌==◌, beq_self, beq_ne, apart, true,
  false, Bool-cases, text_beq→eq, subst, none, some, List, [], ◌∷◌, ◌++◌, any, elem, All, arith,
}
use otel_fleet.Pipelines.Graph.{has_signal}
use otel_fleet.Pipelines.Naming.{collector_pipeline_id}
use otel_fleet.Pipelines.Naming.Apart.{Lacks, cut_once}
use otel_fleet.Pipelines.Render.{
  RenderPipeline, CollectorPipeline, key_of, duplicate_key, block_of, entry_of, flat_map,
}

abbrev pub In : {A : Type 0} → A → List A → Type 0
In x [] = ⊥
In x (y ∷ ys) = (x ≡ y) ⊎ In x ys

module _ {V : Type 0} where
  pub entry_of-left :
      (l m : List (Text × V)) (k : Text) (v : V)
      → entry_of l k ≡ some v
      → entry_of (l ++ m) k ≡ some v
  entry_of-left [] m k v h = cc
  entry_of-left ((j, w) ∷ l) m k v h = elim (Bool-cases (j == k)) [
    | inl q ↦ rw q (rw q at h)
    | inr q ↦ rw q (entry_of-left l m k v (rw q at h))
  ]

  pub entry_of-right :
      (l m : List (Text × V)) (k : Text) → entry_of l k ≡ none → entry_of (l ++ m) k ≡ entry_of m k
  entry_of-right [] m k h = refl
  entry_of-right ((j, w) ∷ l) m k h = elim (Bool-cases (j == k)) [
    | inl q ↦ let z : some w ≡ none = rw q at h in cc
    | inr q ↦ rw q (entry_of-right l m k (rw q at h))
  ]

abbrev pub Slashless : Text → Type 0
Slashless s = Lacks b'/' s

abbrev pub id_of : Text → RenderPipeline → Text
id_of sig p = collector_pipeline_id sig p.customer_slug p.pipeline_slug

pub id_of_inj :
    (sig sig' : Text) (p q : RenderPipeline)
    → Slashless sig
    → Slashless sig'
    → id_of sig p ≡ id_of sig' q
    → (sig ≡ sig') × (key_of p ≡ key_of q)
unfolding collector_pipeline_id
id_of_inj sig sig' p q h k e = cut_once b'/' sig sig' (key_of p) (key_of q) h k e

pub duplicate_key-split :
    (q : RenderPipeline) (ps : List RenderPipeline)
    → duplicate_key (q ∷ ps) ≡ none
    → (any (λ r. key_of r == key_of q) ps ≡ false) × (duplicate_key ps ≡ none)
unfolding duplicate_key
duplicate_key-split q ps d = elim (Bool-cases (any (λ r. key_of r == key_of q) ps)) [
  | inl u ↦ let z : some (key_of q) ≡ none = rw u at d in cc
  | inr u ↦ (u, rw u at d)
]

not_any :
    (p q : RenderPipeline) (ps : List RenderPipeline)
    → any (λ r. key_of r == key_of q) ps ≡ false
    → In p ps
    → key_of p ≢ key_of q
not_any p q [] u i = absurd i
not_any p q (r ∷ ps) u (inl z) =
    λ e. apart (key_of r) (key_of q) (ground arith) (ap key_of (sym z) ∙ e)
not_any p q (r ∷ ps) u (inr i) = not_any p q ps (ground arith) i

module _ (make : Text → RenderPipeline → CollectorPipeline) (sig : Text) (p : RenderPipeline)
    (plain : Slashless sig) where
  block_other :
      (sigs : List Text) (q : RenderPipeline)
      → All Slashless sigs
      → key_of p ≢ key_of q
      → entry_of (block_of make sigs q) (id_of sig p) ≡ none
  block_other [] q h ne = refl
  block_other (s ∷ sigs) q h ne = elim (Bool-cases (has_signal q.graph s)) [
    | inl c ↦
        rw (c, beq_ne (id_of s q) (id_of sig p) (λ e. ne (sym (id_of_inj s sig q p h.0 plain e).1)))
          (block_other sigs q h.1 ne)
    | inr c ↦ rw c (block_other sigs q h.1 ne)
  ]

  block_self :
      (sigs : List Text)
      → All Slashless sigs
      → elem sig sigs ≡ true
      → has_signal p.graph sig ≡ true
      → entry_of (block_of make sigs p) (id_of sig p) ≡ some (make sig p)
  block_self [] h e c = cc
  block_self (s ∷ sigs) h e c = elim (Bool-cases (s == sig)) [
    | inl q ↦ let z : s ≡ sig = text_beq→eq s sig q in rw z (rw (c, beq_self (id_of sig p)))
    | inr q ↦
        let rest = block_self sigs h.1 (rw q at e) c in
        elim (Bool-cases (has_signal p.graph s)) [
          | inl d ↦
              rw
                (
                  d,
                  beq_ne (id_of s p) (id_of sig p)
                      (λ z. apart s sig q (id_of_inj s sig p p h.0 plain z).0),
                )
                rest
          | inr d ↦ rw d rest
        ]
  ]

  -- Where no key occurs twice, the entry of p for the signal is found under its id.
  pub blocks_lem :
      (sigs : List Text) (ps : List RenderPipeline)
      → All Slashless sigs
      → elem sig sigs ≡ true
      → has_signal p.graph sig ≡ true
      → duplicate_key ps ≡ none
      → In p ps
      → entry_of (flat_map (block_of make sigs) ps) (id_of sig p) ≡ some (make sig p)
  blocks_lem sigs [] h e c d i = absurd i
  blocks_lem sigs (q ∷ ps) h e c d (inl z) =
      subst
        (λ r. entry_of (flat_map (block_of make sigs) (r ∷ ps)) (id_of sig p) ≡ some (make sig p)) z
        (entry_of-left (block_of make sigs p) _ _ _ (block_self sigs h e c))
  blocks_lem sigs (q ∷ ps) h e c d (inr i) =
      let (u, v) = duplicate_key-split q ps d in
      rw
        (entry_of-right (block_of make sigs q) (flat_map (block_of make sigs) ps) (id_of sig p)
          (block_other sigs q h (not_any p q ps u i)))
        (blocks_lem sigs ps h e c v i)
