-- ===== src/Tenants/Service/Creation.antt =====
-- What the retry loop of CreateCustomer comes to.
use otel_fleet.Prelude.{
  ◌≡◌, sym, inl, inr, ℕ, zero, suc, ◌+◌, ◌-◌, ◌<◌, Text, text_eq, nat_eq, beq_self, ◌==◌, Bool,
  true, false, Option, none, some, [], ◌∷◌, ◌++◌, any, if◌then◌else◌, arith, Bool-cases,
}
use otel_fleet.Store
use otel_fleet.Store.{
  Db, Customer, ApiKey, NewCustomer, customer_row, api_key_row, create_customer, insert_customer,
  insert_api_key, with_audit, add_first_key, join_key, write_audit,
}
use otel_fleet.Store.Rows.{any-append}
use otel_fleet.Tenants.Keys.{GeneratedKey, generate_api_key}
use otel_fleet.Tenants.Slug.{derive_slug, valid_slug}
use otel_fleet.Tenants.Service.{
  Draw, CreatedCustomer, Outcome, done, failed, Failure, new_client_id, suffixed, first_key,
  creation_entries, insert, attempt_from, max_attempts, is_invalid_name, trim_space,
  service_create_customer,
}

abbrev pub has_slug : Text → Db → Bool
has_slug slug db = any (λ (c : Customer). c.slug == slug) db.customers

-- The slug of an attempt: the derived one, and then "-2", "-3" and so on.
abbrev pub candidate : Text → ℕ → Text
candidate base zero = base
candidate base (suc zero) = base
candidate base (suc (suc n)) = suffixed base (suc (suc n))

module _ (sha256 : Text → Text) where
  -- The bytes are read, and the ids and the client id that come of them are not in the tables.
  pub record IsFresh (db : Db) (d : Draw) : Type 0 where
    pub client_id : Text
    pub key : GeneratedKey
    pub given : new_client_id d.client_bytes ≡ some client_id
    pub minted : generate_api_key sha256 d.key_bytes ≡ some key
    pub new_customer : any (λ (c : Customer). c.id == d.customer_id) db.customers ≡ false
    pub new_client : any (λ (c : Customer). c.client_id == client_id) db.customers ≡ false
    pub new_key : any (λ (k : ApiKey). k.id == d.key_id) db.api_keys ≡ false

  module _ (now : ℕ) (actor : Option ℕ) (name region : Text) (d : Draw) (slug : Text) (db : Db)
      (f : IsFresh db d) where
    abbrev pub new_row : Customer
    new_row = customer_row now (record {
      id = d.customer_id;
      slug = slug;
      name = name;
      client_id = f.client_id;
      region = region;
    })

    abbrev pub new_key_row : ApiKey
    new_key_row = api_key_row now (first_key actor d f.key)

    -- The database with the customer, its key and the log.
    abbrev pub grown : Db
    grown = record {
      customers = db.customers ++ new_row ∷ [];
      api_keys = db.api_keys ++ new_key_row ∷ [];
      audit_log = db.audit_log ++ creation_entries actor d;
    }

    insert_taken :
        has_slug slug db ≡ true
        → insert sha256 now actor name region d f.client_id f.key slug db
          ≡ Store.err Store.err_slug_exists
    unfolding create_customer insert_customer with_audit add_first_key
    insert_taken h = rw (f.new_customer, h)

    insert_free :
        has_slug slug db ≡ false
        → insert sha256 now actor name region d f.client_id f.key slug db
          ≡ Store.ok ((new_row, new_key_row), grown)
    unfolding create_customer insert_customer insert_api_key with_audit add_first_key write_audit
    insert_free h =
        let present : any (λ (c : Customer). c.id == d.customer_id) (db.customers ++ new_row ∷ [])
            ≡ true =
          ground (
            arith,
            any-append (λ (c : Customer). c.id == d.customer_id) db.customers (new_row ∷ []),
            beq_self d.customer_id,
          ) in
        rw (f.new_customer, h, f.new_client, f.new_key, present)

  module _ (now : ℕ) (actor : Option ℕ) (name region base : Text) (draws : ℕ → Draw) (db : Db)
      (fresh : (i : ℕ) → IsFresh db (draws i)) where
    -- What the attempt makes when its slug is free.
    abbrev pub made : ℕ → Outcome CreatedCustomer
    made i =
        let f = fresh i in
        let slug = candidate base i in
        done
          (record {
            customer = new_row now actor name region (draws i) slug db f;
            key = new_key_row now actor name region (draws i) slug db f;
            secret = f.key.secret;
          })
          (grown now actor name region (draws i) slug db f)

    try_taken :
        (left a : ℕ)
        → has_slug (candidate base (suc a)) db ≡ true
        → attempt_from sha256 now actor name region base true draws
            (suc left)
            (suc a)
            (candidate base (suc a))
            db
          ≡ attempt_from sha256 now actor name region base true draws left
              (suc (suc a))
              (candidate base (suc (suc a)))
              db
    unfolding attempt_from
    try_taken left a h =
        let f = fresh (suc a) in
        let e =
          insert_taken now actor name region (draws (suc a)) (candidate base (suc a)) db f h in
        rw (attempt_from, f.given, f.minted, e)

    try_free :
        (derived : Bool) (left a : ℕ)
        → has_slug (candidate base (suc a)) db ≡ false
        → attempt_from sha256 now actor name region base derived draws
            (suc left)
            (suc a)
            (candidate base (suc a))
            db
          ≡ made (suc a)
    unfolding attempt_from
    try_free derived left a h =
        let f = fresh (suc a) in
        let e = insert_free now actor name region (draws (suc a)) (candidate base (suc a)) db f h in
        rw (attempt_from, f.given, f.minted, e)

    first_free :
        (j left a : ℕ)
        → ((i : ℕ) → i < j → has_slug (candidate base (suc (i + a))) db ≡ true)
        → has_slug (candidate base (suc (j + a))) db ≡ false
        → attempt_from sha256 now actor name region base true draws
            (j + suc left)
            (suc a)
            (candidate base (suc a))
            db
          ≡ made (suc (j + a))
    first_free zero left a taken free =
        let none_before : 0 + a ≡ a = omega arith in
        let all_left : 0 + suc left ≡ suc left = omega arith in
        rw (none_before, all_left) (try_free true left a (rw none_before at free))
    first_free (suc j) left a taken free =
        let shift : (i : ℕ) → suc i + a ≡ i + suc a = λ i. omega arith in
        let fewer : suc j + suc left ≡ suc (j + suc left) = omega arith in
        let start : 0 + a ≡ a = omega arith in
        rw (shift j, fewer, try_taken (j + suc left) a (rw start at (taken 0 (omega arith))))
          (first_free j left (suc a) (λ i h. rw (shift i) at (taken (suc i) (omega arith)))
            (rw (shift j) at free))

    -- A derived slug that is taken is varied: with ids that are new, the customer is created under
    -- the first of the ten candidates that is free, together with its first key and the log.
    pub create_takes_first_free :
        (lower : ℕ → ℕ) (raw : Text) (j : ℕ)
        → name ≡ trim_space raw
        → base ≡ derive_slug lower name
        → is_invalid_name name ≡ false
        → j < max_attempts
        → ((i : ℕ) → i < j → has_slug (candidate base (suc i)) db ≡ true)
        → has_slug (candidate base (suc j)) db ≡ false
        → service_create_customer sha256 now actor lower raw none region draws db ≡ made (suc j)
    unfolding service_create_customer
    create_takes_first_free lower raw j trimmed derived named few taken free =
        let at_start : (i : ℕ) → i + 0 ≡ i = λ i. omega arith in
        let left = max_attempts - suc j in
        let ten : j + suc left ≡ max_attempts = omega arith in
        let run = first_free j left 0 (λ i h. rw (at_start i) (taken i h)) (rw (at_start j) free) in
        rw (sym trimmed, named, sym derived) (rw (ten, at_start j) at run)

    -- A slug that is given is not varied: a customer is created under it if it is free, and
    -- nothing is if it is taken.
    pub create_given_slug :
        (lower : ℕ → ℕ) (raw : Text)
        → name ≡ trim_space raw
        → is_invalid_name name ≡ false
        → valid_slug base ≡ true
        → service_create_customer sha256 now actor lower raw (some base) region draws db
          ≡ (if has_slug base db then failed (Failure.from_store Store.err_slug_exists) else made 1)
    unfolding service_create_customer attempt_from
    create_given_slug lower raw trimmed named valid = elim (Bool-cases (has_slug base db)) [
      | inl h ↦
          let f = fresh 1 in
          let e = insert_taken now actor name region (draws 1) base db f h in
          rw (sym trimmed, named, valid, h) (rw (attempt_from, f.given, f.minted, e))
      | inr h ↦ rw (sym trimmed, named, valid, h) (try_free false 9 0 h)
    ]
