-- ===== src/Pipelines/Secrets/Meets.antt =====
-- Two walks one after the other, as encryption and decryption are: what the second makes of the
-- result of the first (internal/pipelines/secrets.go).
use otel_fleet.Prelude.{
  ◌≡◌, refl, ◌∙◌, sym, ap, subst, ℕ, suc, Text, true, Bool-cases, inl, inr, Option, Option-cases,
  none, some, [], ◌∷◌,
}
use otel_fleet.Pipelines.Graph.{
  Value, null, bool, num, str, arr, obj, Items, nil, cons, Fields, end, field,
}
use otel_fleet.Pipelines.Secrets.{
  ok, is_password, sub_schema, items_schema, field_path, item_path, Callback, transform,
  transform_items, transform_fields,
}
use otel_fleet.Pipelines.Secrets.Marked.{
  secrets, secrets_of_items, secrets_of_fields, Each, Each-split, at_secrets, at_items, at_fields,
  transform_marked, at_secrets_marked,
}

transform-none :
    {S : Type 0} (fn : Callback S) (v : Value) (path : Text) (st : S)
    → transform fn v none path st ≡ ok (v, st)
unfolding transform
transform-none fn null path st = refl
transform-none fn (bool b) path st = refl
transform-none fn (num n) path st = refl
transform-none fn (str s) path st = refl
transform-none fn (arr xs) path st = refl
transform-none fn (obj fs) path st = refl

at_secrets-none :
    (f : Text → Value → Value) (v : Value) (path : Text) → at_secrets f v none path ≡ v
unfolding at_secrets
at_secrets-none f null path = refl
at_secrets-none f (bool b) path = refl
at_secrets-none f (num n) path = refl
at_secrets-none f (str s) path = refl
at_secrets-none f (arr xs) path = refl
at_secrets-none f (obj fs) path = refl

secrets_marked :
    (x : Value) (m : Fields) (path : Text)
    → is_password m ≡ true
    → secrets x (some m) path ≡ (path, x) ∷ []
unfolding secrets
secrets_marked null m path q = rw q
secrets_marked (bool b) m path q = rw q
secrets_marked (num n) m path q = rw q
secrets_marked (str s) m path q = rw q
secrets_marked (arr xs) m path q = rw q
secrets_marked (obj fs) m path q = rw q

-- From a state in N the first walk succeeds and ends in such a state, if the callback does; then the
-- second one makes of each marked field what f makes of it.
module _ {S T : Type 0} (fn : Callback S) (gn : Callback T) (f : Text → Value → Value)
    (P : Text → Value → Type 0) (N : S → Type 0)
    (meets : (p : Text) (x : Value) (st : S) (t : T)
      → P p x
      → N st
      → (r : Value × S) × (fn p x st ≡ ok r) × N r.1 × (gn p r.0 t ≡ ok (f p x, t))) where
  abbrev Met : Value → Option Fields → Text → S → T → Type 0
  Met v schema path st t =
      (r : Value × S) × (transform fn v schema path st ≡ ok r)
      × N r.1
      × (transform gn r.0 schema path t ≡ ok (at_secrets f v schema path, t))

  marked :
      (v : Value) (m : Fields) (path : Text) (st : S) (t : T)
      → is_password m ≡ true
      → Each P (secrets v (some m) path)
      → N st
      → Met v (some m) path st t
  marked v m path st t q k n =
      let k' : Each P ((path, v) ∷ []) = subst (Each P) (secrets_marked v m path q) k in
      let (r, a, b, c) = meets path v st t k'.0 n in
      (
        r,
        transform_marked fn v m path st q ∙ a,
        b,
        transform_marked gn r.0 m path t q
            ∙ c
            ∙ ap (λ x. ok (x, t)) (sym (at_secrets_marked f v m path q)),
      )

  mutual
    unfolding transform at_secrets secrets

    pub transform_meets :
        (v : Value) (schema : Option Fields) (path : Text) (st : S) (t : T)
        → Each P (secrets v schema path)
        → N st
        → Met v schema path st t
    transform_meets v none path st t k n = (
      (v, st),
      transform-none fn v path st,
      n,
      transform-none gn v path t ∙ ap (λ x. ok (x, t)) (sym (at_secrets-none f v path)),
    )
    transform_meets null (some m) path st t k n = elim (Bool-cases (is_password m)) [
      | inl q ↦ marked null m path st t q k n
      | inr q ↦ ((null, st), rw q, n, rw q)
    ]
    transform_meets (bool b) (some m) path st t k n = elim (Bool-cases (is_password m)) [
      | inl q ↦ marked (bool b) m path st t q k n
      | inr q ↦ ((bool b, st), rw q, n, rw q)
    ]
    transform_meets (num i) (some m) path st t k n = elim (Bool-cases (is_password m)) [
      | inl q ↦ marked (num i) m path st t q k n
      | inr q ↦ ((num i, st), rw q, n, rw q)
    ]
    transform_meets (str s) (some m) path st t k n = elim (Bool-cases (is_password m)) [
      | inl q ↦ marked (str s) m path st t q k n
      | inr q ↦ ((str s, st), rw q, n, rw q)
    ]
    transform_meets (arr xs) (some m) path st t k n = elim (Bool-cases (is_password m)) [
      | inl q ↦ marked (arr xs) m path st t q k n
      | inr q ↦ elim (Option-cases (items_schema m)) [
        | inl o ↦ ((arr xs, st), rw (q, o), n, rw (q, o))
        | inr (s, o) ↦
            let (w, a, n', l) = transform_items_meets xs (some s) path 0 st t (rw (q, o) at k) n in
            ((arr w.0, w.1), rw (q, o, a), n', rw (q, o, l))
      ]
    ]
    transform_meets (obj fs) (some m) path st t k n = elim (Bool-cases (is_password m)) [
      | inl q ↦ marked (obj fs) m path st t q k n
      | inr q ↦
          let (w, a, n', l) = transform_fields_meets fs m path st t (rw q at k) n in
          ((obj w.0, w.1), rw (q, a), n', rw (q, l))
    ]

    pub transform_items_meets :
        (xs : Items) (schema : Option Fields) (path : Text) (i : ℕ) (st : S) (t : T)
        → Each P (secrets_of_items xs schema path i)
        → N st
        → (r : Items × S) × (transform_items fn xs schema path i st ≡ ok r)
          × N r.1
          × (transform_items gn r.0 schema path i t ≡ ok (at_items f xs schema path i, t))
    transform_items_meets nil schema path i st t k n = ((nil, st), refl, n, refl)
    transform_items_meets (cons x xs) schema path i st t k n =
        let (k', k'') = Each-split P (secrets x schema (item_path path i)) _ k in
        let (w, a, n', l) = transform_meets x schema (item_path path i) st t k' n in
        let (w', a', n'', l') = transform_items_meets xs schema path (suc i) w.1 t k'' n' in
        ((cons w.0 w'.0, w'.1), rw (a, a'), n'', rw (l, l'))

    pub transform_fields_meets :
        (fs : Fields) (schema : Fields) (path : Text) (st : S) (t : T)
        → Each P (secrets_of_fields fs schema path)
        → N st
        → (r : Fields × S) × (transform_fields fn fs schema path st ≡ ok r)
          × N r.1
          × (transform_fields gn r.0 schema path t ≡ ok (at_fields f fs schema path, t))
    transform_fields_meets end schema path st t k n = ((end, st), refl, n, refl)
    transform_fields_meets (field j x fs) schema path st t k n =
        let sub = sub_schema schema j in
        let (k', k'') = Each-split P (secrets x sub (field_path path j)) _ k in
        let (w, a, n', l) = transform_meets x sub (field_path path j) st t k' n in
        let (w', a', n'', l') = transform_fields_meets fs schema path w.1 t k'' n' in
        ((field j w.0 w'.0, w'.1), rw (a, a'), n'', rw (l, l'))
