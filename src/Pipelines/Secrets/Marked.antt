-- ===== src/Pipelines/Secrets/Marked.antt =====
-- What transformSecrets does to a value in general: the fields that a schema marks, and the value
-- with another one at each of them (internal/pipelines/secrets.go).
use otel_fleet.Prelude.{
  ◌≡◌, refl, ap, ℕ, suc, Text, true, Bool-cases, Option-cases, inl, inr, Option, none, some, List,
  [], ◌∷◌, ◌++◌,
}
use otel_fleet.Pipelines.Graph.{
  Value, null, bool, num, str, arr, obj, Items, nil, cons, Fields, end, field,
}
use otel_fleet.Pipelines.Secrets.{
  Attempt, ok, is_password, sub_schema, items_schema, field_path, item_path, visit, below_items,
  map_result, Callback, transform, transform_items, transform_fields,
}

-- The value with f at each marked field.
unfoldable mutual
  pub at_secrets : (Text → Value → Value) → Value → Option Fields → Text → Value
  at_secrets f null schema path = visit schema null (f path null) λ _. null
  at_secrets f (bool b) schema path = visit schema (bool b) (f path (bool b)) λ _. bool b
  at_secrets f (num n) schema path = visit schema (num n) (f path (num n)) λ _. num n
  at_secrets f (str s) schema path = visit schema (str s) (f path (str s)) λ _. str s
  at_secrets f (arr xs) schema path =
      visit schema (arr xs) (f path (arr xs))
        λ m. below_items (items_schema m) (arr xs) λ items. arr (at_items f xs items path 0)
  at_secrets f (obj fs) schema path =
      visit schema (obj fs) (f path (obj fs)) λ m. obj (at_fields f fs m path)

  pub at_items : (Text → Value → Value) → Items → Option Fields → Text → ℕ → Items
  at_items f nil schema path i = nil
  at_items f (cons x xs) schema path i =
      cons (at_secrets f x schema (item_path path i)) (at_items f xs schema path (suc i))

  pub at_fields : (Text → Value → Value) → Fields → Fields → Text → Fields
  at_fields f end schema path = end
  at_fields f (field k x fs) schema path =
      field k (at_secrets f x (sub_schema schema k) (field_path path k))
        (at_fields f fs schema path)

-- The marked fields with their paths, in the order of the walk.
unfoldable mutual
  pub secrets : Value → Option Fields → Text → List (Text × Value)
  secrets null schema path = visit schema [] ((path, null) ∷ []) λ _. []
  secrets (bool b) schema path = visit schema [] ((path, bool b) ∷ []) λ _. []
  secrets (num n) schema path = visit schema [] ((path, num n) ∷ []) λ _. []
  secrets (str s) schema path = visit schema [] ((path, str s) ∷ []) λ _. []
  secrets (arr xs) schema path =
      visit schema [] ((path, arr xs) ∷ [])
        λ m. below_items (items_schema m) [] λ items. secrets_of_items xs items path 0
  secrets (obj fs) schema path =
      visit schema [] ((path, obj fs) ∷ []) λ m. secrets_of_fields fs m path

  pub secrets_of_items : Items → Option Fields → Text → ℕ → List (Text × Value)
  secrets_of_items nil schema path i = []
  secrets_of_items (cons x xs) schema path i =
      secrets x schema (item_path path i) ++ secrets_of_items xs schema path (suc i)

  pub secrets_of_fields : Fields → Fields → Text → List (Text × Value)
  secrets_of_fields end schema path = []
  secrets_of_fields (field k x fs) schema path =
      secrets x (sub_schema schema k) (field_path path k) ++ secrets_of_fields fs schema path

-- P holds of each of the fields.
abbrev pub Each : (Text → Value → Type 0) → List (Text × Value) → Type 0
Each P [] = Unit
Each P ((p, x) ∷ l) = P p x × Each P l

pub Each-split :
    (P : Text → Value → Type 0) (l m : List (Text × Value)) → Each P (l ++ m) → Each P l × Each P m
Each-split P [] m e = (tt, e)
Each-split P ((p, x) ∷ l) m e = let (h, k) = Each-split P l m e.1 in ((e.0, h), k)

pub Each-always :
    (P : Text → Value → Type 0)
    → ((p : Text) (x : Value) → P p x)
    → (l : List (Text × Value)) → Each P l
Each-always P h [] = tt
Each-always P h ((p, x) ∷ l) = (h p x, Each-always P h l)

-- A callback that is f, and keeps the state, wherever P holds.
module _ {S : Type 0} (fn : Callback S) (f : Text → Value → Value) (P : Text → Value → Type 0)
    (acts : (path : Text) (x : Value) (st : S) → P path x → fn path x st ≡ ok (f path x, st)) where
  -- A value, by what is done below it.
  visit_at :
      (v : Value) (schema : Option Fields) (path : Text) (st : S)
      (below : Fields → List (Text × Value)) (go : Fields → Attempt (Value × S))
      (to : Fields → Value)
      → ((m : Fields) → Each P (below m) → go m ≡ ok (to m, st))
      → Each P (visit schema [] ((path, v) ∷ []) below)
      → visit schema (ok (v, st)) (fn path v st) go ≡ ok (visit schema v (f path v) to, st)
  visit_at v none path st below go to h e = refl
  visit_at v (some m) path st below go to h e = elim (Bool-cases (is_password m)) [
    | inl q ↦ rw q (acts path v st (rw q at e).0)
    | inr q ↦ rw q (h m (rw q at e))
  ]

  arr_at :
      (o : Option Fields) (xs : Items) (st : S) (below : Option Fields → List (Text × Value))
      (go : Option Fields → Attempt (Items × S)) (to : Option Fields → Items)
      → ((m : Option Fields) → Each P (below m) → go m ≡ ok (to m, st))
      → Each P (below_items o [] below)
      → below_items o (ok (arr xs, st)) (λ m. map_result arr (go m))
        ≡ ok (below_items o (arr xs) (λ m. arr (to m)), st)
  arr_at none xs st below go to h e = refl
  arr_at (some m) xs st below go to h e = rw (h (some m) e)

  mutual
    unfolding transform at_secrets secrets

    pub transform_at :
        (v : Value) (schema : Option Fields) (path : Text) (st : S)
        → Each P (secrets v schema path)
        → transform fn v schema path st ≡ ok (at_secrets f v schema path, st)
    transform_at null schema path st e = visit_at null schema path st _ _ _ (λ _ _. refl) e
    transform_at (bool b) schema path st e = visit_at (bool b) schema path st _ _ _ (λ _ _. refl) e
    transform_at (num n) schema path st e = visit_at (num n) schema path st _ _ _ (λ _ _. refl) e
    transform_at (str s) schema path st e = visit_at (str s) schema path st _ _ _ (λ _ _. refl) e
    transform_at (arr xs) schema path st e =
        visit_at (arr xs) schema path st _ _ _
          (λ m k.
            arr_at (items_schema m) xs st _ _ _ (λ o q. transform_items_at xs o path 0 st q) k)
          e
    transform_at (obj fs) schema path st e =
        visit_at (obj fs) schema path st _ _ _
          (λ m k. ap (map_result obj) (transform_fields_at fs m path st k)) e

    pub transform_items_at :
        (xs : Items) (schema : Option Fields) (path : Text) (i : ℕ) (st : S)
        → Each P (secrets_of_items xs schema path i)
        → transform_items fn xs schema path i st ≡ ok (at_items f xs schema path i, st)
    transform_items_at nil schema path i st e = refl
    transform_items_at (cons x xs) schema path i st e =
        let (h, k) = Each-split P (secrets x schema (item_path path i)) _ e in
        rw (
          transform_at x schema (item_path path i) st h,
          transform_items_at xs schema path (suc i) st k,
        )

    pub transform_fields_at :
        (fs : Fields) (schema : Fields) (path : Text) (st : S)
        → Each P (secrets_of_fields fs schema path)
        → transform_fields fn fs schema path st ≡ ok (at_fields f fs schema path, st)
    transform_fields_at end schema path st e = refl
    transform_fields_at (field k x fs) schema path st e =
        let (h, l) = Each-split P (secrets x (sub_schema schema k) (field_path path k)) _ e in
        rw (
          transform_at x (sub_schema schema k) (field_path path k) st h,
          transform_fields_at fs schema path st l,
        )

-- At a marked field nothing is walked.
pub transform_marked :
    {S : Type 0} (fn : Callback S) (x : Value) (m : Fields) (path : Text) (st : S)
    → is_password m ≡ true
    → transform fn x (some m) path st ≡ fn path x st
unfolding transform
transform_marked fn null m path st q = rw q
transform_marked fn (bool b) m path st q = rw q
transform_marked fn (num n) m path st q = rw q
transform_marked fn (str s) m path st q = rw q
transform_marked fn (arr xs) m path st q = rw q
transform_marked fn (obj fs) m path st q = rw q

pub at_secrets_marked :
    (f : Text → Value → Value) (x : Value) (m : Fields) (path : Text)
    → is_password m ≡ true
    → at_secrets f x (some m) path ≡ f path x
unfolding at_secrets
at_secrets_marked f null m path q = rw q
at_secrets_marked f (bool b) m path q = rw q
at_secrets_marked f (num n) m path q = rw q
at_secrets_marked f (str s) m path q = rw q
at_secrets_marked f (arr xs) m path q = rw q
at_secrets_marked f (obj fs) m path q = rw q

module _ (h f : Text → Value → Value) where
  abbrev Both : Text → Value → Value
  Both p x = h p (f p x)

  leaf_twice :
      (v : Value) (m : Fields) (path : Text)
      → (at_secrets h v (some m) path ≡ visit (some m) v (h path v) λ _. v)
      → at_secrets h (visit (some m) v (f path v) λ _. v) (some m) path
        ≡ (visit (some m) v (Both path v) λ _. v)
  leaf_twice v m path e = elim (Bool-cases (is_password m)) [
    | inl q ↦ rw q (at_secrets_marked h (f path v) m path q)
    | inr q ↦ rw q (rw q at e)
  ]

  mutual
    unfolding at_secrets

    pub at_secrets_twice :
        (v : Value) (schema : Option Fields) (path : Text)
        → at_secrets h (at_secrets f v schema path) schema path ≡ at_secrets Both v schema path
    at_secrets_twice null none path = refl
    at_secrets_twice (bool b) none path = refl
    at_secrets_twice (num n) none path = refl
    at_secrets_twice (str s) none path = refl
    at_secrets_twice (arr xs) none path = refl
    at_secrets_twice (obj fs) none path = refl
    at_secrets_twice null (some m) path = leaf_twice null m path refl
    at_secrets_twice (bool b) (some m) path = leaf_twice (bool b) m path refl
    at_secrets_twice (num n) (some m) path = leaf_twice (num n) m path refl
    at_secrets_twice (str s) (some m) path = leaf_twice (str s) m path refl
    at_secrets_twice (arr xs) (some m) path = elim (Bool-cases (is_password m)) [
      | inl q ↦ rw q (at_secrets_marked h (f path (arr xs)) m path q)
      | inr q ↦ elim (Option-cases (items_schema m)) [
        | inl e ↦ rw (q, e, q, e)
        | inr (o, e) ↦ rw (q, e, q, e, at_items_twice xs (some o) path 0)
      ]
    ]
    at_secrets_twice (obj fs) (some m) path = elim (Bool-cases (is_password m)) [
      | inl q ↦ rw q (at_secrets_marked h (f path (obj fs)) m path q)
      | inr q ↦ rw (q, q, at_fields_twice fs m path)
    ]

    pub at_items_twice :
        (xs : Items) (schema : Option Fields) (path : Text) (i : ℕ)
        → at_items h (at_items f xs schema path i) schema path i ≡ at_items Both xs schema path i
    at_items_twice nil schema path i = refl
    at_items_twice (cons x xs) schema path i =
        rw (at_secrets_twice x schema (item_path path i), at_items_twice xs schema path (suc i))

    pub at_fields_twice :
        (fs : Fields) (schema : Fields) (path : Text)
        → at_fields h (at_fields f fs schema path) schema path ≡ at_fields Both fs schema path
    at_fields_twice end schema path = refl
    at_fields_twice (field k x fs) schema path = rw (
      at_secrets_twice x (sub_schema schema k) (field_path path k),
      at_fields_twice fs schema path,
    )
