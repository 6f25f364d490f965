-- ===== src/Store/Deletion.antt =====
-- Lemmas on the deletion of customers and the revocation of keys along later commands
-- (internal/store/pg.go).
use otel_fleet.Prelude.{
  ◌≡◌, ◌≢◌, inl, inr, refl, sym, subst, ◌∙◌, ℕ, nat_eq, text_eq, nat_beq_iff, ◌==◌, true, false,
  ◌&&◌, List, [], ◌∷◌, any, find?, All, All-append, Map, arith, Bool-cases, Option-cases,
}
use otel_fleet.Store
use otel_fleet.Store.{
  Db, Customer, ApiKey, NewApiKey, NewCustomer, Entry, CustomerUpdate, Result, is_live, is_deleted,
  is_unrevoked, is_open_key_of, is_key_of, customer_row, api_key_row, updated, mark_deleted,
  mark_revoked, touch, insert_customer, insert_api_key, with_audit, add_first_key, join_key,
  write_audit, create_customer, get_customer, update_customer, soft_delete_customer, create_api_key,
  revoke_api_key, touch_api_keys, update_where,
}
use otel_fleet.Store.Rows.{
  any-append, find?-none, any-update_where, All-update_where, update_where-All, All-map,
}
use otel_fleet.Store.Ops.{Op, commit, commit_only, apply, apply_all}

module _ (id : ℕ) where
  abbrev pub IsGoneRow : Customer → Type 0
  IsGoneRow c = is_live id c ≡ false

  abbrev pub IsShutKey : ApiKey → Type 0
  IsShutKey k = is_open_key_of id k ≡ false

  -- The customer has a row, which is marked as deleted, and every key of it is revoked.
  pub record IsGone (db : Db) : Type 0 where
    pub known : any (λ (c : Customer). c.id == id) db.customers ≡ true
    pub gone : All IsGoneRow db.customers
    pub shut : All IsShutKey db.api_keys

  gone_get : (db : Db) → IsGone db → get_customer id db ≡ Store.err Store.err_not_found
  unfolding get_customer
  gone_get db g = rw (get_customer, find?-none (is_live id) db.customers g.gone)

  write-IsGone : (es : List Entry) (db : Db) → IsGone db → IsGone (write_audit es db)
  unfolding write_audit
  write-IsGone es db g = record { known = g.known; gone = g.gone; shut = g.shut }

  insert_key-IsGone :
      (now : ℕ) (k : NewApiKey) (db : Db)
      → k.customer_id ≢ id
      → IsGone db
      → IsGone (commit db (insert_api_key now k db))
  unfolding insert_api_key
  insert_key-IsGone now k db ne g =
      elim (Bool-cases (any (λ (x : ApiKey). x.id == k.id) db.api_keys)) [
        | inl p ↦ rw p g
        | inr p ↦ elim (Bool-cases (any (λ (c : Customer). c.id == k.customer_id) db.customers)) [
          | inl q ↦
              rw (p, q)
                (record {
                  known = g.known;
                  gone = g.gone;
                  shut =
                      All-append IsShutKey db.api_keys (api_key_row now k ∷ []) g.shut
                        (ground (arith, nat_beq_iff k.customer_id id), tt);
                })
          | inr q ↦ rw (p, q) g
        ]
      ]

  insert_customer-IsGone :
      (now : ℕ) (c : NewCustomer) (db : Db)
      → IsGone db
      → IsGone (commit db (insert_customer now c db))
        × (c.id ≡ id → insert_customer now c db ≡ Store.err Store.rejected)
  unfolding insert_customer
  insert_customer-IsGone now c db g =
      elim (Bool-cases (any (λ (x : Customer). x.id == c.id) db.customers)) [
        | inl p ↦ rw p (g, λ e. refl)
        | inr p ↦
            let ne : c.id ≢ id = λ e. cc (rw e at p, g.known) in
            elim (Bool-cases (any (λ (x : Customer). x.slug == c.slug) db.customers)) [
              | inl q ↦ rw (p, q) (g, λ e. absurd (ne e))
              | inr q ↦
                  elim (Bool-cases
                    (any (λ (x : Customer). x.client_id == c.client_id) db.customers)) [
                      | inl r ↦ rw (p, q, r) (g, λ e. absurd (ne e))
                      | inr r ↦
                          rw (p, q, r)
                            (
                              record {
                                known = ground (
                                  arith,
                                  any-append (λ (x : Customer). x.id == id) db.customers
                                      (customer_row now c ∷ []),
                                  g.known,
                                );
                                gone =
                                    All-append IsGoneRow db.customers (customer_row now c ∷ [])
                                      g.gone (ground (arith, nat_beq_iff c.id id), tt);
                                shut = g.shut;
                              },
                              λ e. absurd (ne e),
                            )
                    ]
            ]
      ]

  audit-IsGone :
      {A : Type 0} (es : List Entry) (db : Db) (r : Result (A × Db))
      → IsGone db
      → IsGone (commit db r)
      → IsGone (commit db (with_audit es r))
  unfolding with_audit
  audit-IsGone es db (Store.err e) g h = g
  audit-IsGone es db (Store.ok (a, db')) g h = write-IsGone es db' h

  first_key-IsGone :
      (now : ℕ) (k : NewApiKey) (db : Db) (r : Result (Customer × Db))
      → k.customer_id ≢ id
      → IsGone db
      → IsGone (commit db r)
      → IsGone (commit db (add_first_key now k r))
  unfolding add_first_key
  first_key-IsGone now k db (Store.err e) ne g h = g
  first_key-IsGone now k db (Store.ok (c, db')) ne g h =
      step (insert_api_key now k db') (insert_key-IsGone now k db' ne h)
    where
      step : (r : Result (ApiKey × Db)) → IsGone (commit db' r) → IsGone (commit db (join_key c r))
      step (Store.err e) s = g
      step (Store.ok (key, d)) s = s

  create-IsGone :
      (now : ℕ) (c : NewCustomer) (k : NewApiKey) (es : List Entry) (db : Db)
      → k.customer_id ≡ c.id
      → IsGone db
      → IsGone (commit db (create_customer now c k es db))
  unfolding create_customer add_first_key with_audit
  create-IsGone now c k es db own g =
      let i = insert_customer-IsGone now c db g in
      elim (Bool-cases (c.id == id)) [
        | inl p ↦ rw (i.1 ((nat_beq_iff c.id id).0 p)) g
        | inr p ↦ audit-IsGone es db _ g (
            first_key-IsGone now k db (insert_customer now c db)
              (λ e. cc (p, own, (nat_beq_iff c.id id).1 (sym own ∙ e))) g i.0)
      ]

  update_row :
      (now id' : ℕ) (u : CustomerUpdate) (c : Customer)
      → IsGoneRow c
      → is_live id' c ≡ true
      → IsGoneRow (updated now u c)
  update_row now id' u c g l = ground (arith, nat_beq_iff c.id id, nat_beq_iff c.id id')

  update-IsGone :
      (now id' : ℕ) (u : CustomerUpdate) (es : List Entry) (db : Db)
      → IsGone db
      → IsGone (commit db (update_customer now id' u es db))
  unfolding update_customer
  update-IsGone now id' u es db g = elim (Option-cases (find? (is_live id') db.customers)) [
    | inl n ↦ rw (commit, update_customer, n) g
    | inr (c, s) ↦
        rw (commit, update_customer, s)
          (write-IsGone es _ (record {
            known =
                rw
                  (any-update_where (λ (x : Customer). x.id == id) (is_live id') (updated now u)
                    db.customers (λ x. refl))
                  g.known;
            gone =
                All-update_where IsGoneRow (is_live id') (updated now u) db.customers
                  (update_row now id' u) g.gone;
            shut = g.shut;
          }))
  ]

  delete-IsGone :
      (now id' : ℕ) (es : List Entry) (db : Db)
      → IsGone db
      → IsGone (commit_only db (soft_delete_customer now id' es db))
  unfolding soft_delete_customer
  delete-IsGone now id' es db g = elim (Bool-cases (any (is_live id') db.customers)) [
    | inl p ↦ rw p (
        write-IsGone es _ (record {
          known =
              rw
                (any-update_where (λ (x : Customer). x.id == id) (is_live id') (mark_deleted now)
                  db.customers (λ x. refl))
                g.known;
          gone =
              All-update_where IsGoneRow (is_live id') (mark_deleted now) db.customers
                (λ x _ _. ground arith) g.gone;
          shut =
              All-update_where IsShutKey (is_open_key_of id') (mark_revoked now) db.api_keys
                (λ x _ _. ground arith) g.shut;
        }))
    | inr p ↦ rw p g
  ]

  create_key-IsGone :
      (now : ℕ) (k : NewApiKey) (es : List Entry) (db : Db)
      → IsGone db
      → IsGone (commit db (create_api_key now k es db))
  unfolding create_api_key
  create_key-IsGone now k es db g = elim (Bool-cases (k.customer_id == id)) [
    | inl p ↦ rw ((nat_beq_iff k.customer_id id).0 p, commit, create_api_key, gone_get db g) g
    | inr p ↦
        let kept =
          audit-IsGone es db (insert_api_key now k db) g
            (insert_key-IsGone now k db (λ e. cc (p, (nat_beq_iff k.customer_id id).1 e)) g) in
        step (get_customer k.customer_id db) kept
  ]
    where
      step :
          (r : Result Customer)
          → IsGone (commit db (with_audit es (insert_api_key now k db)))
          → IsGone (
              commit db (elim r [
                | Store.err e ↦ Store.err e
                | Store.ok c ↦ with_audit es (insert_api_key now k db)
              ]))
      step (Store.err e) s = g
      step (Store.ok c) s = s

  revoke-IsGone :
      (now c key : ℕ) (es : List Entry) (db : Db)
      → IsGone db
      → IsGone (commit_only db (revoke_api_key now c key es db))
  unfolding revoke_api_key
  revoke-IsGone now c key es db g = elim (Bool-cases (any (is_key_of c key) db.api_keys)) [
    | inl p ↦ rw p (
        write-IsGone es _ (record {
          known = g.known;
          gone = g.gone;
          shut =
              All-update_where IsShutKey (λ k. is_key_of c key k && is_unrevoked k)
                (mark_revoked now) db.api_keys (λ x _ _. ground arith) g.shut;
        }))
    | inr p ↦ rw p g
  ]

  touch_row : (usages : Map ℕ ℕ) (k : ApiKey) → IsShutKey k → IsShutKey (touch usages k)
  touch_row usages k h = elim (Option-cases (usages k.id)) [
    | inl n ↦ simp (touch, n) h
    | inr (t, s) ↦ simp (touch, s) h
  ]

  pub apply-IsGone : (o : Op) (db : Db) → IsGone db → IsGone (apply o db)
  unfolding apply touch_api_keys
  apply-IsGone (Op.creating_customer now c k es) db g =
      create-IsGone now c (record k { customer_id = c.id }) es db refl g
  apply-IsGone (Op.updating_customer now id' u es) db g = update-IsGone now id' u es db g
  apply-IsGone (Op.deleting_customer now id' es) db g = delete-IsGone now id' es db g
  apply-IsGone (Op.creating_api_key now k es) db g = create_key-IsGone now k es db g
  apply-IsGone (Op.revoking_api_key now c key es) db g = revoke-IsGone now c key es db g
  apply-IsGone (Op.touching_api_keys usages) db g = record {
    known = g.known;
    gone = g.gone;
    shut = All-map IsShutKey (touch usages) db.api_keys (touch_row usages) g.shut;
  }

  pub apply_all-IsGone : (os : List Op) (db : Db) → IsGone db → IsGone (apply_all os db)
  unfolding apply_all
  apply_all-IsGone [] db g = g
  apply_all-IsGone (o ∷ os) db g = apply_all-IsGone os (apply o db) (apply-IsGone o db g)

  any-live :
      (cs : List Customer)
      → any (is_live id) cs ≡ true
      → any (λ (c : Customer). c.id == id) cs ≡ true
  any-live [] h = h
  any-live (c ∷ cs) h = ground (arith, any-live cs)

  -- A deletion that succeeds leaves no live row of the customer and no open key.
  pub soft_delete_customer-IsGone :
      (now : ℕ) (es : List Entry) (db db' : Db)
      → soft_delete_customer now id es db ≡ Store.ok db'
      → IsGone db'
  unfolding soft_delete_customer write_audit
  soft_delete_customer-IsGone now es db db' h = elim (Bool-cases (any (is_live id) db.customers)) [
    | inl p ↦
        let done : IsGone (
            write_audit es (record db {
              customers = update_where (is_live id) (mark_deleted now) db.customers;
              api_keys = update_where (is_open_key_of id) (mark_revoked now) db.api_keys;
            })) =
          record {
            known =
                rw
                  (any-update_where (λ (x : Customer). x.id == id) (is_live id) (mark_deleted now)
                    db.customers (λ x. refl))
                  (any-live db.customers p);
            gone =
                update_where-All IsGoneRow (is_live id) (mark_deleted now) db.customers
                  (λ x _. ground arith) (λ x e. e);
            shut =
                update_where-All IsShutKey (is_open_key_of id) (mark_revoked now) db.api_keys
                  (λ x _. ground arith) (λ x e. e);
          } in
        subst IsGone (cc (rw p at h)) done
    | inr p ↦ cc (rw p at h)
  ]
