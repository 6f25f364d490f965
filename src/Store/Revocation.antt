-- ===== src/Store/Revocation.antt =====
-- Lemmas on RevokeAPIKey and the commands that may follow it (internal/store/pg.go).
use otel_fleet.Prelude.{
  ◌≡◌, ◌≢◌, inl, inr, refl, subst, ℕ, nat_eq, text_eq, nat_beq_iff, ◌==◌, Bool, true, false, ◌&&◌,
  List, [], ◌∷◌, any, find?, filter, Text, All, All-append, Map, arith, Bool-cases, Option-cases,
}
use otel_fleet.Store
use otel_fleet.Store.{AuthKey, join_customers, auth_key, active_keys_by_prefix}
use otel_fleet.Store.{
  Db, Customer, ApiKey, NewApiKey, NewCustomer, Entry, CustomerUpdate, Result, is_live,
  is_unrevoked, is_open_key_of, is_key_of, api_key_row, mark_revoked, touch, insert_customer,
  insert_api_key, with_audit, add_first_key, join_key, write_audit, create_customer, get_customer,
  update_customer, soft_delete_customer, create_api_key, revoke_api_key, touch_api_keys,
  update_where,
}
use otel_fleet.Store.Rows.{
  any-append, any-update_where, any-map, All-update_where, update_where-All, All-map,
}
use otel_fleet.Store.Ops.{Op, commit, commit_only, apply, apply_all}

module _ (customer id : ℕ) where
  abbrev pub IsCutRow : ApiKey → Type 0
  IsCutRow k = (is_key_of customer id k && is_unrevoked k) ≡ false

  abbrev has_id : ApiKey → Bool
  has_id k = k.id == id

  -- The key has a row, which is revoked.
  pub record IsCut (db : Db) : Type 0 where
    pub known : any (λ (k : ApiKey). k.id == id) db.api_keys ≡ true
    pub cut : All IsCutRow db.api_keys

  -- Only the keys matter.
  same_keys : (db db' : Db) → db'.api_keys ≡ db.api_keys → IsCut db → IsCut db'
  same_keys db db' e g = record { known = rw e g.known; cut = rw e g.cut }

  insert_key-IsCut :
      (now : ℕ) (k : NewApiKey) (db : Db) → IsCut db → IsCut (commit db (insert_api_key now k db))
  unfolding insert_api_key
  insert_key-IsCut now k db g = elim (Bool-cases (any (λ (x : ApiKey). x.id == k.id) db.api_keys)) [
    | inl p ↦ rw p g
    | inr p ↦
        let ne : k.id ≢ id = λ e. cc (rw e at p, g.known) in
        elim (Bool-cases (any (λ (c : Customer). c.id == k.customer_id) db.customers)) [
          | inl q ↦
              rw (p, q)
                (record {
                  known =
                      ground
                        (arith, any-append has_id db.api_keys (api_key_row now k ∷ []), g.known);
                  cut =
                      All-append IsCutRow db.api_keys (api_key_row now k ∷ []) g.cut
                        (ground (arith, nat_beq_iff k.id id), tt);
                })
          | inr q ↦ rw (p, q) g
        ]
  ]

  audit-IsCut :
      {A : Type 0} (es : List Entry) (db : Db) (r : Result (A × Db))
      → IsCut db
      → IsCut (commit db r)
      → IsCut (commit db (with_audit es r))
  unfolding with_audit write_audit
  audit-IsCut es db (Store.err e) g h = g
  audit-IsCut es db (Store.ok (a, db')) g h = same_keys db' _ refl h

  insert_customer_keys :
      (now : ℕ) (c : NewCustomer) (db : Db)
      → (commit db (insert_customer now c db)).api_keys ≡ db.api_keys
  unfolding insert_customer
  insert_customer_keys now c db = ground arith

  first_key-IsCut :
      (now : ℕ) (k : NewApiKey) (db : Db) (r : Result (Customer × Db))
      → IsCut db
      → IsCut (commit db r)
      → IsCut (commit db (add_first_key now k r))
  unfolding add_first_key
  first_key-IsCut now k db (Store.err e) g h = g
  first_key-IsCut now k db (Store.ok (c, db')) g h =
      step (insert_api_key now k db') (insert_key-IsCut now k db' h)
    where
      step : (r : Result (ApiKey × Db)) → IsCut (commit db' r) → IsCut (commit db (join_key c r))
      step (Store.err e) s = g
      step (Store.ok (key, d)) s = s

  create-IsCut :
      (now : ℕ) (c : NewCustomer) (k : NewApiKey) (es : List Entry) (db : Db)
      → IsCut db
      → IsCut (commit db (create_customer now c k es db))
  unfolding create_customer
  create-IsCut now c k es db g = audit-IsCut es db _ g (
      first_key-IsCut now k db (insert_customer now c db) g
        (same_keys db _ (insert_customer_keys now c db) g))

  update_keys :
      (now id' : ℕ) (u : CustomerUpdate) (es : List Entry) (db : Db)
      → (commit db (update_customer now id' u es db)).api_keys ≡ db.api_keys
  unfolding update_customer write_audit
  update_keys now id' u es db = elim (Option-cases (find? (is_live id') db.customers)) [
    | inl n ↦ rw (commit, update_customer, n)
    | inr (c, s) ↦ rw (commit, update_customer, s)
  ]

  -- Both updates of the keys only revoke.
  revoking-IsCut :
      (now : ℕ) (test : ApiKey → Bool) (db db' : Db)
      → db'.api_keys ≡ update_where test (mark_revoked now) db.api_keys
      → IsCut db
      → IsCut db'
  revoking-IsCut now test db db' e g = record {
    known = rw (e, any-update_where has_id test (mark_revoked now) db.api_keys (λ x. refl)) g.known;
    cut = rw e (
        All-update_where IsCutRow test (mark_revoked now) db.api_keys (λ x _ _. ground arith)
          g.cut);
  }

  delete-IsCut :
      (now id' : ℕ) (es : List Entry) (db : Db)
      → IsCut db
      → IsCut (commit_only db (soft_delete_customer now id' es db))
  unfolding soft_delete_customer write_audit
  delete-IsCut now id' es db g = elim (Bool-cases (any (is_live id') db.customers)) [
    | inl p ↦ rw p (revoking-IsCut now (is_open_key_of id') db _ refl g)
    | inr p ↦ rw p g
  ]

  revoke-IsCut :
      (now c key : ℕ) (es : List Entry) (db : Db)
      → IsCut db
      → IsCut (commit_only db (revoke_api_key now c key es db))
  unfolding revoke_api_key write_audit
  revoke-IsCut now c key es db g = elim (Bool-cases (any (is_key_of c key) db.api_keys)) [
    | inl p ↦ rw p (revoking-IsCut now (λ k. is_key_of c key k && is_unrevoked k) db _ refl g)
    | inr p ↦ rw p g
  ]

  create_key-IsCut :
      (now : ℕ) (k : NewApiKey) (es : List Entry) (db : Db)
      → IsCut db
      → IsCut (commit db (create_api_key now k es db))
  unfolding create_api_key
  create_key-IsCut now k es db g =
      step (get_customer k.customer_id db) (audit-IsCut es db _ g (insert_key-IsCut now k db g))
    where
      step :
          (r : Result Customer)
          → IsCut (commit db (with_audit es (insert_api_key now k db)))
          → IsCut (
              commit db (elim r [
                | Store.err e ↦ Store.err e
                | Store.ok c ↦ with_audit es (insert_api_key now k db)
              ]))
      step (Store.err e) s = g
      step (Store.ok c) s = s

  touch_row : (usages : Map ℕ ℕ) (k : ApiKey) → IsCutRow k → IsCutRow (touch usages k)
  touch_row usages k h = elim (Option-cases (usages k.id)) [
    | inl n ↦ simp (touch, n) h
    | inr (t, s) ↦ simp (touch, s) h
  ]

  touch_id : (usages : Map ℕ ℕ) (k : ApiKey) → has_id (touch usages k) ≡ has_id k
  touch_id usages k = elim (Option-cases (usages k.id)) [
    | inl n ↦ simp (touch, n)
    | inr (t, s) ↦ simp (touch, s)
  ]

  apply-IsCut : (o : Op) (db : Db) → IsCut db → IsCut (apply o db)
  unfolding apply touch_api_keys
  apply-IsCut (Op.creating_customer now c k es) db g =
      create-IsCut now c (record k { customer_id = c.id }) es db g
  apply-IsCut (Op.updating_customer now id' u es) db g =
      same_keys db _ (update_keys now id' u es db) g
  apply-IsCut (Op.deleting_customer now id' es) db g = delete-IsCut now id' es db g
  apply-IsCut (Op.creating_api_key now k es) db g = create_key-IsCut now k es db g
  apply-IsCut (Op.revoking_api_key now c key es) db g = revoke-IsCut now c key es db g
  apply-IsCut (Op.touching_api_keys usages) db g = record {
    known = rw (any-map has_id (touch usages) db.api_keys (touch_id usages)) g.known;
    cut = All-map IsCutRow (touch usages) db.api_keys (touch_row usages) g.cut;
  }

  pub apply_all-IsCut : (os : List Op) (db : Db) → IsCut db → IsCut (apply_all os db)
  unfolding apply_all
  apply_all-IsCut [] db g = g
  apply_all-IsCut (o ∷ os) db g = apply_all-IsCut os (apply o db) (apply-IsCut o db g)

  has_key : (ks : List ApiKey) → any (is_key_of customer id) ks ≡ true → any has_id ks ≡ true
  has_key [] h = h
  has_key (k ∷ ks) h = ground (arith, has_key ks)

  revoked-IsCut :
      (now : ℕ) (es : List Entry) (db db' : Db)
      → revoke_api_key now customer id es db ≡ Store.ok db'
      → IsCut db'
  unfolding revoke_api_key write_audit
  revoked-IsCut now es db db' h = elim (Bool-cases (any (is_key_of customer id) db.api_keys)) [
    | inl p ↦
        let test : ApiKey → Bool = λ k. is_key_of customer id k && is_unrevoked k in
        let done : IsCut (
            write_audit es
              (record db { api_keys = update_where test (mark_revoked now) db.api_keys })) =
          record {
            known =
                rw (any-update_where has_id test (mark_revoked now) db.api_keys (λ x. refl))
                  (has_key db.api_keys p);
            cut =
                update_where-All IsCutRow test (mark_revoked now) db.api_keys (λ x _. ground arith)
                  (λ x e. e);
          } in
        subst IsCut (cc (rw p at h)) done
    | inr p ↦ cc (rw p at h)
  ]

  abbrev pub IsOther : AuthKey → Type 0
  IsOther a = ((a.key_id == id) && a.customer_id == customer) ≡ false

  join-All :
      (cs : List Customer) (prefix : Text) (ks : List ApiKey)
      → All IsCutRow ks
      → All IsOther (
          join_customers cs
            (filter (λ (k : ApiKey). (k.key_prefix == prefix) && is_unrevoked k) ks))
  unfolding join_customers auth_key
  join-All cs prefix [] h = tt
  join-All cs prefix (k ∷ ks) h =
      let rest = join-All cs prefix ks h.1 in
      elim (Bool-cases ((k.key_prefix == prefix) && is_unrevoked k)) [
        | inl p ↦ elim (Option-cases (find? (λ (c : Customer). c.id == k.customer_id) cs)) [
          | inl n ↦ rw (p, join_customers, auth_key, n) rest
          | inr (c, s) ↦ rw (p, join_customers, auth_key, s) (ground (arith, h.0), rest)
        ]
        | inr p ↦ rw p rest
      ]

  -- Once a key is revoked, no lookup by a prefix offers it again, whatever is done to the tables
  -- later.
  pub revoked_never_offered :
      (now : ℕ) (es : List Entry) (db db' : Db) (os : List Op) (prefix : Text)
      → revoke_api_key now customer id es db ≡ Store.ok db'
      → All IsOther (active_keys_by_prefix prefix (apply_all os db'))
  unfolding active_keys_by_prefix
  revoked_never_offered now es db db' os prefix h =
      let later = apply_all os db' in
      join-All later.customers prefix later.api_keys
        (apply_all-IsCut os db' (revoked-IsCut now es db db' h)).cut
