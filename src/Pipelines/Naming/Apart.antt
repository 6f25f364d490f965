-- ===== src/Pipelines/Naming/Apart.antt =====
-- Lemmas on the component ids of different pipelines (internal/pipelines).
use mathlib.Core.List.{append_assoc}
use otel_fleet.Prelude.{
  ◌≡◌, ◌≢◌, ◌∙◌, refl, sym, ℕ, Text, codes, text_eq, nat_eq, true, [], ◌∷◌, ◌++◌, arith,
}
use otel_fleet.Tenants.Slug.{valid_slug, ends_well, is_slug_char}
use otel_fleet.Pipelines.Graph.{Node}
use otel_fleet.Pipelines.Naming.{pipeline_key, node_suffix, component_id, component_type}

-- The byte does not stand in the text.
abbrev pub Lacks : ℕ → Text → Type 0
Lacks b [] = Unit
Lacks b (c ∷ s) = (c ≢ b) × Lacks b s

module _ (b : ℕ) where
  -- Texts are cut at the first such byte in one way.
  pub cut_once :
      (x y s t : Text) → Lacks b x → Lacks b y → x ++ b ∷ s ≡ y ++ b ∷ t → (x ≡ y) × (s ≡ t)
  cut_once [] [] s t h k e = (refl, cc e)
  cut_once [] (d ∷ y) s t h k e = absurd (k.0 (cc e))
  cut_once (c ∷ x) [] s t h k e = absurd (h.0 (cc e))
  cut_once (c ∷ x) (d ∷ y) s t h k e =
      let (p, q) = cut_once x y s t h.1 k.1 (cc e) in (cc (e, p), q)

slug_char-ne : (c : ℕ) → is_slug_char c ≡ true → c ≢ b'_'
slug_char-ne c h = ground arith

ends_well-Lacks : (s : Text) → ends_well s ≡ true → Lacks b'_' s
unfolding ends_well
ends_well-Lacks [] h = tt
ends_well-Lacks (c ∷ []) h = (ground arith, tt)
ends_well-Lacks (c ∷ d ∷ s) h =
    (slug_char-ne c (ground arith), ends_well-Lacks (d ∷ s) (ground arith))

pub valid_slug-Lacks : (s : Text) → valid_slug s ≡ true → Lacks b'_' s
unfolding valid_slug
valid_slug-Lacks s h = ends_well-Lacks s (ground arith)

-- The customer and the pipeline can be told from the key.
pub pipeline_key_inj :
    (c c' p p' : Text)
    → valid_slug c ≡ true
    → valid_slug c' ≡ true
    → pipeline_key c p ≡ pipeline_key c' p'
    → (c ≡ c') × (p ≡ p')
unfolding pipeline_key
pipeline_key_inj c c' p p' h k e =
    let (x, y) =
      cut_once b'_' c c' (b'_' ∷ p) (b'_' ∷ p') (valid_slug-Lacks c h) (valid_slug-Lacks c' k) e in
    (x, cc y)

component_type_lem : (t s : Text) → Lacks b'/' t → component_type (t ++ b'/' ∷ s) ≡ t
unfolding component_type
component_type_lem [] s h = refl
component_type_lem (c ∷ t) s h = ground (arith, h.0, component_type_lem t s h.1)

-- Where the slugs are valid and the types hold no slash, an id leads back to the type, the
-- customer, the pipeline and the suffix of the node that it is made of: components of different
-- customers or pipelines never share an id, and the type in front is found again.
pub component_id_inj :
    (n n' : Node) (i i' : ℕ) (c c' p p' : Text)
    → Lacks b'/' n.type
    → Lacks b'/' n'.type
    → valid_slug c ≡ true
    → valid_slug c' ≡ true
    → valid_slug p ≡ true
    → valid_slug p' ≡ true
    → component_id n i c p ≡ component_id n' i' c' p'
    → (n.type ≡ n'.type)
      × (c ≡ c')
      × (p ≡ p')
      × (node_suffix n.name i ≡ node_suffix n'.name i')
      × (component_type (component_id n i c p) ≡ n.type)
unfolding component_id pipeline_key
component_id_inj n n' i i' c c' p p' t t' h h' k k' e =
    let s = node_suffix n.name i in
    let s' = node_suffix n'.name i' in
    let (types, rests) = cut_once b'/' n.type n'.type _ _ t t' e in
    let spread : (a q r : Text) → (a ++ (codes "__" ++ q)) ++ r ≡ a ++ b'_' ∷ b'_' ∷ (q ++ r) =
      λ a q r. append_assoc a (codes "__" ++ q) r in
    let rests' = sym (spread c p (codes "__" ++ s)) ∙ rests ∙ spread c' p' (codes "__" ++ s') in
    let (customers, tails) =
      cut_once b'_' c c' _ _ (valid_slug-Lacks c h) (valid_slug-Lacks c' h') rests' in
    let (slugs, ends) =
      cut_once b'_' p p' (b'_' ∷ s) (b'_' ∷ s') (valid_slug-Lacks p k) (valid_slug-Lacks p' k')
        (cc tails) in
    (types, customers, slugs, cc ends, component_type_lem n.type _ t)
