-- ===== src/Pipelines/Render/Keys.antt =====
-- Pipelines with distinct keys are rendered.
use otel_fleet.Prelude.{
  ◌≡◌, ◌≢◌, refl, sym, inl, inr, text_eq, ◌==◌, beq_ne, false, Bool-cases, none, List, [], ◌∷◌, any,
  All,
}
use otel_fleet.Pipelines.Render.{
  RenderPipeline, Config, config, key_of, before, insert, sort, duplicate_key, render_with,
}
use mathlib.Core.List.{Perm}
use mathlib.Core.List.Perm
use otel_fleet.Pipelines.Pairs.{Pairwise}

abbrev pub KeysApart : RenderPipeline → RenderPipeline → Type 0
KeysApart p q = key_of p ≢ key_of q

pub insert-All :
    (P : RenderPipeline → Type 0) (q : RenderPipeline) (ps : List RenderPipeline)
    → P q
    → All P ps
    → All P (insert q ps)
insert-All P q [] h k = (h, tt)
insert-All P q (p ∷ ps) h k = elim (Bool-cases (before p q)) [
  | inl t ↦ rw t (k.0, insert-All P q ps h k.1)
  | inr t ↦ rw t (h, k)
]

pub insert-Pairwise :
    (q : RenderPipeline) (ps : List RenderPipeline)
    → All (KeysApart q) ps
    → Pairwise KeysApart ps
    → Pairwise KeysApart (insert q ps)
insert-Pairwise q [] h k = (tt, tt)
insert-Pairwise q (p ∷ ps) h k = elim (Bool-cases (before p q)) [
  | inl t ↦
      rw t (insert-All (KeysApart p) q ps (λ e. h.0 (sym e)) k.0, insert-Pairwise q ps h.1 k.1)
  | inr t ↦ rw t (h, k)
]

pub sort-All : (P : RenderPipeline → Type 0) (ps : List RenderPipeline) → All P ps → All P (sort ps)
unfolding sort
sort-All P [] h = tt
sort-All P (p ∷ ps) h = insert-All P p (sort ps) h.0 (sort-All P ps h.1)

pub sort-Pairwise :
    (ps : List RenderPipeline) → Pairwise KeysApart ps → Pairwise KeysApart (sort ps)
unfolding sort
sort-Pairwise [] h = tt
sort-Pairwise (p ∷ ps) h =
    insert-Pairwise p (sort ps) (sort-All (KeysApart p) ps h.0) (sort-Pairwise ps h.1)

no_other :
    (p : RenderPipeline) (ps : List RenderPipeline)
    → All (KeysApart p) ps
    → any (λ q. key_of q == key_of p) ps ≡ false
no_other p [] h = refl
no_other p (q ∷ ps) h = rw (beq_ne (key_of q) (key_of p) (λ e. h.0 (sym e))) (no_other p ps h.1)

pub duplicate_key-none :
    (ps : List RenderPipeline) → Pairwise KeysApart ps → duplicate_key ps ≡ none
unfolding duplicate_key
duplicate_key-none [] h = refl
duplicate_key-none (p ∷ ps) h = rw (no_other p ps h.0) (duplicate_key-none ps h.1)

pub render_with-config :
    (make : List RenderPipeline → Config) (ps : List RenderPipeline)
    → Pairwise KeysApart ps
    → render_with make ps ≡ config (make (sort ps))
unfolding render_with
render_with-config make ps h =
    rw (duplicate_key-none (sort ps) (sort-Pairwise ps h), render_with) refl

insert-Perm : (p : RenderPipeline) (ps : List RenderPipeline) → Perm (insert p ps) (p ∷ ps)
insert-Perm p [] = Perm.refl (p ∷ [])
insert-Perm p (q ∷ ps) = elim (Bool-cases (before q p)) [
  | inl t ↦ rw t (Perm.trans (Perm.cons q (insert-Perm p ps)) (Perm.swap p q ps))
  | inr t ↦ rw t (Perm.refl (p ∷ q ∷ ps))
]

-- The sort only reorders.
pub sort-Perm : (ps : List RenderPipeline) → Perm (sort ps) ps
unfolding sort
sort-Perm [] = Perm.refl []
sort-Perm (p ∷ ps) = Perm.trans (insert-Perm p (sort ps)) (Perm.cons p (sort-Perm ps))
