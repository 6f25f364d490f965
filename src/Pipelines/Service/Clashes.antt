-- ===== src/Pipelines/Service/Clashes.antt =====
-- Whether the configuration can be rendered: the keys of the active pipelines (internal/pipelines).
use otel_fleet.Prelude.{
  ◌≡◌, ◌≢◌, refl, ◌∙◌, subst, sym, ap, inl, inr, ℕ, Text, text_eq, not, Option, none, some, List,
  [], ◌∷◌, filter, All, arith, nat_beq_iff,
}
use otel_fleet.Store.{Customer}
use otel_fleet.Pipelines.Naming.{pipeline_key, pipeline_slug}
use otel_fleet.Pipelines.Naming.Apart.{Lacks, cut_once}
use otel_fleet.Pipelines.Secrets.{Attempt, ok, failed_at, ◌>>=◌, decrypt_graph_secrets}
use otel_fleet.Pipelines.Render.{
  RenderPipeline, config, key_of, sort, forwarding_config, render_forwarding_config,
}
use otel_fleet.Pipelines.Render.Keys.{KeysApart, render_with-config}
use otel_fleet.Pipelines.Render.Blocks.{In}
use otel_fleet.Pipelines.Versions.{
  TargetClass, forwarding, PipelineRow, ActivePipeline, Db, keep, active_rows, active_row, is_owner,
  in_scope, list_active_pipelines,
}
use otel_fleet.Pipelines.Versions.Changes.{find?-In}
use otel_fleet.Pipelines.Versions.Active.{joined-some, All-at}
use otel_fleet.Pipelines.Service.{
  Service, to_render, all_to_render, attempt_cons, is_excluded, active_render_pipelines,
  render_current,
}
use otel_fleet.Pipelines.Pairs.{Pairwise, Pairwise-filter}
use otel_fleet.Pipelines.Service.Slugs.{
  Apart, SlugsApart, Change, carry_out_all, carry_out_all-SlugsApart,
}

abbrev row_key : Service → ActivePipeline → Text
row_key s a = pipeline_key a.customer_slug (pipeline_slug s.lower a.pipeline_name)

attempted :
    {A B : Type 0} (a : Attempt A) (f : A → Attempt B) (b : B)
    → a >>= f ≡ ok b
    → (x : A) × (a ≡ ok x) × (f x ≡ ok b)
attempted (ok x) f b e = (x, refl, e)
attempted (failed_at p x) f b e = cc

ok_inj : {A : Type 0} (a b : A) → ok a ≡ ok b → a ≡ b
ok_inj a b e = cc

cons-ok :
    {A : Type 0} (a : Attempt A) (rest : Attempt (List A)) (l : List A)
    → attempt_cons a rest ≡ ok l
    → (x : A) × (xs : List A) × (a ≡ ok x) × (rest ≡ ok xs) × (l ≡ x ∷ xs)
cons-ok (ok x) (ok xs) l e = (x, xs, refl, refl, sym (ok_inj _ l e))
cons-ok (ok x) (failed_at p y) l e = cc
cons-ok (failed_at p y) rest l e = cc

to_render-key :
    (s : Service) (a : ActivePipeline) (p : RenderPipeline)
    → to_render s a ≡ ok p
    → key_of p ≡ row_key s a
to_render-key s a p e =
    let (g, _, k) =
      attempted (decrypt_graph_secrets s.cipher s.validator.components a.graph) _ p e in
    ap key_of (sym (ok_inj _ p k))

render-All :
    (s : Service) (P : Text → Type 0) (rows : List ActivePipeline) (inputs : List RenderPipeline)
    → all_to_render s rows ≡ ok inputs
    → All (λ a. P (row_key s a)) rows
    → All (λ p. P (key_of p)) inputs
unfolding all_to_render
render-All s P [] inputs e h = subst (All (λ p. P (key_of p))) (ok_inj [] inputs e) tt
render-All s P (a ∷ rows) inputs e h =
    let (x, xs, e1, e2, e3) = cons-ok (to_render s a) (all_to_render s rows) inputs e in
    subst (All (λ p. P (key_of p))) (sym e3)
      (subst P (sym (to_render-key s a x e1)) h.0, render-All s P rows xs e2 h.1)

render-Pairwise :
    (s : Service) (rows : List ActivePipeline) (inputs : List RenderPipeline)
    → all_to_render s rows ≡ ok inputs
    → Pairwise (λ a b. row_key s a ≢ row_key s b) rows
    → Pairwise KeysApart inputs
unfolding all_to_render
render-Pairwise s [] inputs e h = subst (Pairwise KeysApart) (ok_inj [] inputs e) tt
render-Pairwise s (a ∷ rows) inputs e h =
    let (x, xs, e1, e2, e3) = cons-ok (to_render s a) (all_to_render s rows) inputs e in
    subst (Pairwise KeysApart) (sym e3) (
      subst (λ k. All (λ p. k ≢ key_of p) xs) (sym (to_render-key s a x e1))
          (render-All s (λ k. row_key s a ≢ k) rows xs e2 h.0),
      render-Pairwise s rows xs e2 h.1,
    )

-- What the constraints of the table of customers promise: slugs are unique and without underscores.
abbrev pub CustomersApart : List Customer → Type 0
CustomersApart cs =
    All (λ (c : Customer). Lacks b'_' c.slug) cs
    × Pairwise (λ (c c' : Customer). c.slug ≢ c'.slug) cs

same_customer :
    (cs : List Customer) (c c' : Customer)
    → Pairwise (λ (c c' : Customer). c.slug ≢ c'.slug) cs
    → In c cs
    → In c' cs
    → c.slug ≡ c'.slug
    → c ≡ c'
same_customer [] c c' h i j e = absurd i
same_customer (d ∷ cs) c c' h (inl i) (inl j) e = i ∙ sym j
same_customer (d ∷ cs) c c' h (inl i) (inr j) e = absurd (
    All-at (λ (x : Customer). d.slug ≢ x.slug) cs c' h.0 j
      (ap (λ (x : Customer). x.slug) (sym i) ∙ e))
same_customer (d ∷ cs) c c' h (inr i) (inl j) e = absurd (
    All-at (λ (x : Customer). d.slug ≢ x.slug) cs c h.0 i
      (ap (λ (x : Customer). x.slug) (sym j) ∙ sym e))
same_customer (d ∷ cs) c c' h (inr i) (inr j) e = same_customer cs c c' h.1 i j e

-- The customer of a row.
owner_of_row :
    (db : Db) (p : PipelineRow) (a : ActivePipeline)
    → active_row db p ≡ some a
    → (c : Customer) × In c db.base.customers
      × (c.id ≡ p.customer_id)
      × (a.customer_slug ≡ c.slug)
      × (a.pipeline_name ≡ p.name)
unfolding active_row
owner_of_row db p a e =
    let (c, v, f, g, row) = joined-some p _ _ a e in
    let (c_in, owner) = find?-In (is_owner p) db.base.customers c f in
    (
      c,
      c_in,
      ground (arith, nat_beq_iff c.id p.customer_id),
      ap (λ (x : ActivePipeline). x.customer_slug) row,
      ap (λ (x : ActivePipeline). x.pipeline_name) row,
    )

row_keys_differ :
    (s : Service) (db : Db) (p q : PipelineRow) (a b : ActivePipeline)
    → CustomersApart db.base.customers
    → Apart s.lower p q
    → active_row db p ≡ some a
    → active_row db q ≡ some b
    → row_key s a ≢ row_key s b
unfolding pipeline_key
row_keys_differ s db p q a b u v e f = λ k.
    let (c, c_in, c_id, c_slug, c_name) = owner_of_row db p a e in
    let (d, d_in, d_id, d_slug, d_name) = owner_of_row db q b f in
    let plain = All-at (λ (x : Customer). Lacks b'_' x.slug) db.base.customers in
    let (x, y) =
      cut_once b'_' a.customer_slug b.customer_slug _ _
        (subst (Lacks b'_') (sym c_slug) (plain c u.0 c_in))
        (subst (Lacks b'_') (sym d_slug) (plain d u.0 d_in)) k in
    let same = same_customer db.base.customers c d u.1 c_in d_in (sym c_slug ∙ x ∙ d_slug) in
    v (sym c_id ∙ ap (λ (z : Customer). z.id) same ∙ d_id)
      (ap (pipeline_slug s.lower) (sym c_name) ∙ cc y ∙ ap (pipeline_slug s.lower) d_name)

rows-All :
    (s : Service) (db : Db) (p : PipelineRow) (a : ActivePipeline) (ps : List PipelineRow)
    → CustomersApart db.base.customers
    → active_row db p ≡ some a
    → All (Apart s.lower p) ps
    → All (λ b. row_key s a ≢ row_key s b) (active_rows db ps)
rows-All s db p a [] u e h = tt
rows-All s db p a (q ∷ ps) u e h = kept (active_row db q) refl (rows-All s db p a ps u e h.1)
  where
    kept :
        (o : Option ActivePipeline)
        → active_row db q ≡ o
        → All (λ b. row_key s a ≢ row_key s b) (active_rows db ps)
        → All (λ b. row_key s a ≢ row_key s b) (keep o (active_rows db ps))
    kept none f rest = rest
    kept (some b) f rest = (row_keys_differ s db p q a b u h.0 e f, rest)

rows-Pairwise :
    (s : Service) (db : Db) (ps : List PipelineRow)
    → CustomersApart db.base.customers
    → Pairwise (Apart s.lower) ps
    → Pairwise (λ a b. row_key s a ≢ row_key s b) (active_rows db ps)
rows-Pairwise s db [] u h = tt
rows-Pairwise s db (p ∷ ps) u h = kept (active_row db p) refl (rows-Pairwise s db ps u h.1)
  where
    kept :
        (o : Option ActivePipeline)
        → active_row db p ≡ o
        → Pairwise (λ a b. row_key s a ≢ row_key s b) (active_rows db ps)
        → Pairwise (λ a b. row_key s a ≢ row_key s b) (keep o (active_rows db ps))
    kept none f rest = rest
    kept (some a) f rest = (rows-All s db p a ps u f h.0, rest)

input_keys_differ :
    (s : Service) (db : Db) (class : TargetClass) (scope exclude : Option ℕ)
    (inputs : List RenderPipeline)
    → CustomersApart db.base.customers
    → SlugsApart s.lower db
    → active_render_pipelines s class scope exclude db ≡ ok inputs
    → Pairwise KeysApart inputs
unfolding active_render_pipelines list_active_pipelines
input_keys_differ s db class scope exclude inputs u h e = render-Pairwise s _ inputs e (
    Pairwise-filter _ (λ a. not (is_excluded exclude a)) _
      (rows-Pairwise s db (filter (in_scope class scope) db.pipelines) u
        (Pairwise-filter (Apart s.lower) (in_scope class scope) db.pipelines h)))

-- The configuration stays renderable: if the pipelines of each customer have distinct slugs at first,
-- then after any sequence of calls of the service and of the customer service, one after the other,
-- whatever they return, RenderCurrent does not run into a duplicate key but gives the configuration of
-- the active pipelines, provided that the customers in the tables have distinct slugs without an
-- underscore and that the stored secrets can be decrypted.
pub carry_out_all-renders :
    (s : Service) (changes : List Change) (db : Db) (inputs : List RenderPipeline)
    → SlugsApart s.lower db
    → CustomersApart (carry_out_all s changes db).base.customers
    → active_render_pipelines s forwarding none none (carry_out_all s changes db) ≡ ok inputs
    → render_current s (carry_out_all s changes db) ≡ ok (config (forwarding_config (sort inputs)))
unfolding render_current
carry_out_all-renders s changes db inputs h u e =
    ap (λ (r : Attempt (List RenderPipeline)). r >>= λ ps. ok (render_forwarding_config ps)) e
    ∙ ap ok (
        render_with-config forwarding_config inputs (
          input_keys_differ s (carry_out_all s changes db) forwarding none none inputs u
            (carry_out_all-SlugsApart s changes db h) e))
