-- ===== src/Pipelines/Secrets/Index.antt =====
-- The table of the secrets by path that EncryptGraphSecrets makes of the previous version
-- (internal/pipelines/secrets.go).
use otel_fleet.Prelude.{
  ◌≡◌, ◌≢◌, refl, ◌∙◌, ap, ℕ, suc, Text, text_eq, beq_self, beq_ne, Bool-cases, inl, inr, Option,
  none, some, List, [], ◌∷◌, ◌++◌, Map, put,
}
use otel_fleet.Pipelines.Graph.{
  Value, null, bool, num, str, arr, obj, Items, nil, cons, Fields, end, field,
}
use otel_fleet.Pipelines.Secrets.{
  Attempt, ok, is_password, sub_schema, items_schema, field_path, item_path, visit, below_items,
  map_result, transform, transform_items, transform_fields, index_secret,
}
use otel_fleet.Pipelines.Secrets.Marked.{secrets, secrets_of_items, secrets_of_fields, Each}

abbrev Table : Type 0
Table = Map Text Value

abbrev pub puts : Table → List (Text × Value) → Table
puts m [] = m
puts m ((p, x) ∷ l) = puts (put m p x) l

pub puts-append : (m : Table) (l k : List (Text × Value)) → puts m (l ++ k) ≡ puts (puts m l) k
puts-append m [] k = refl
puts-append m ((p, x) ∷ l) k = puts-append (put m p x) l k

-- No two of the fields have the same path.
abbrev pub Apart : List (Text × Value) → Type 0
Apart [] = Unit
Apart ((p, x) ∷ l) = Each (λ q _. q ≢ p) l × Apart l

puts-other :
    (m : Table) (l : List (Text × Value)) (p : Text) → Each (λ q _. q ≢ p) l → puts m l p ≡ m p
puts-other m [] p e = refl
puts-other m ((q, x) ∷ l) p e = puts-other (put m q x) l p e.1 ∙ (rw (beq_ne q p e.0))

-- Each is found under its path.
pub puts-Each :
    (m : Table) (l : List (Text × Value)) → Apart l → Each (λ p x. puts m l p ≡ some x) l
puts-Each m [] a = tt
puts-Each m ((p, x) ∷ l) a =
    (puts-other (put m p x) l p a.0 ∙ (rw (beq_self p)), puts-Each (put m p x) l a.1)

visit_index :
    (v : Value) (schema : Option Fields) (path : Text) (m : Table)
    (below : Fields → List (Text × Value)) (go : Fields → Attempt (Value × Table))
    → ((s : Fields) → go s ≡ ok (v, puts m (below s)))
    → visit schema (ok (v, m)) (index_secret path v m) go
      ≡ ok (v, puts m (visit schema [] ((path, v) ∷ []) below))
unfolding index_secret
visit_index v none path m below go h = refl
visit_index v (some s) path m below go h = elim (Bool-cases (is_password s)) [
  | inl q ↦ rw q
  | inr q ↦ rw q (h s)
]

arr_index :
    (o : Option Fields) (xs : Items) (m : Table) (below : Option Fields → List (Text × Value))
    (go : Option Fields → Attempt (Items × Table))
    → ((s : Option Fields) → go s ≡ ok (xs, puts m (below s)))
    → below_items o (ok (arr xs, m)) (λ s. map_result arr (go s))
      ≡ ok (arr xs, puts m (below_items o [] below))
arr_index none xs m below go h = refl
arr_index (some s) xs m below go h = rw (h (some s))

-- The walk leaves the value as it is, and puts its marked fields in the table.
mutual
  unfolding transform secrets

  pub transform_index :
      (v : Value) (schema : Option Fields) (path : Text) (m : Table)
      → transform index_secret v schema path m ≡ ok (v, puts m (secrets v schema path))
  transform_index null schema path m = visit_index null schema path m _ _ (λ _. refl)
  transform_index (bool b) schema path m = visit_index (bool b) schema path m _ _ (λ _. refl)
  transform_index (num n) schema path m = visit_index (num n) schema path m _ _ (λ _. refl)
  transform_index (str s) schema path m = visit_index (str s) schema path m _ _ (λ _. refl)
  transform_index (arr xs) schema path m =
      visit_index (arr xs) schema path m _ _
        (λ s. arr_index (items_schema s) xs m _ _ (λ o. transform_items_index xs o path 0 m))
  transform_index (obj fs) schema path m =
      visit_index (obj fs) schema path m _ _
        (λ s. ap (map_result obj) (transform_fields_index fs s path m))

  pub transform_items_index :
      (xs : Items) (schema : Option Fields) (path : Text) (i : ℕ) (m : Table)
      → transform_items index_secret xs schema path i m
        ≡ ok (xs, puts m (secrets_of_items xs schema path i))
  transform_items_index nil schema path i m = refl
  transform_items_index (cons x xs) schema path i m = rw (
    transform_index x schema (item_path path i) m,
    transform_items_index xs schema path (suc i) (puts m (secrets x schema (item_path path i))),
    puts-append m (secrets x schema (item_path path i)),
  )

  pub transform_fields_index :
      (fs : Fields) (schema : Fields) (path : Text) (m : Table)
      → transform_fields index_secret fs schema path m
        ≡ ok (fs, puts m (secrets_of_fields fs schema path))
  transform_fields_index end schema path m = refl
  transform_fields_index (field k x fs) schema path m =
      let here = secrets x (sub_schema schema k) (field_path path k) in
      rw (
        transform_index x (sub_schema schema k) (field_path path k) m,
        transform_fields_index fs schema path (puts m here),
        puts-append m here,
      )
