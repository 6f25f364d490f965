-- ===== src/Store.antt =====
-- The tables of the tenants in internal/store: pg.go over migrations 0001, 0005 and 0019, with the
-- rows of store.go and the log of internal/audit.
--
-- A table is the list of its rows in the order of insertion. A transaction that fails leaves the
-- database as it was, so an operation gives a new database only where it succeeds. Ids are numbers,
-- `now` is the clock of the database, and the failures of the driver are left out. `created_by` is
-- not checked against the users.
pub mod Rows
pub mod Ops
pub mod Deletion
pub mod Revocation
use otel_fleet.Prelude.{
  ℕ, max, Text, text_eq, nat_eq, ◌==◌, Bool, true, false, not, ◌&&◌, Option, none, some, List, [],
  ◌∷◌, ◌++◌, map, any, filter, find?, if◌then◌else◌, Map,
}

pub data CustomerStatus : Type 0 where
  active suspended deleted : CustomerStatus

pub record Customer : Type 0 where
  pub id : ℕ
  pub slug : Text
  pub name : Text
  pub client_id : Text
  pub status : CustomerStatus
  pub region : Text
  pub rate_limit_items_per_sec : Option ℕ
  pub retention_days : Option ℕ
  pub created_at : ℕ
  pub updated_at : ℕ

pub record ApiKey : Type 0 where
  pub id : ℕ
  pub customer_id : ℕ
  pub name : Text
  pub key_prefix : Text
  pub key_hash : Text
  pub created_by : Option ℕ
  pub created_at : ℕ
  pub expires_at : Option ℕ
  pub revoked_at : Option ℕ
  pub last_used_at : Option ℕ

pub record NewCustomer : Type 0 where
  pub id : ℕ
  pub slug : Text
  pub name : Text
  pub client_id : Text
  pub region : Text

pub record NewApiKey : Type 0 where
  pub id : ℕ
  pub customer_id : ℕ
  pub name : Text
  pub key_prefix : Text
  pub key_hash : Text
  pub created_by : Option ℕ
  pub expires_at : Option ℕ

-- OptionalInt: a column that stays as it is, or is set, to NULL where there is no value.
pub data OptionalInt : Type 0 where
  unset : OptionalInt
  set : Option ℕ → OptionalInt

pub record CustomerUpdate : Type 0 where
  pub name : Option Text
  pub status : Option CustomerStatus
  pub rate_limit_items_per_sec : OptionalInt
  pub retention_days : OptionalInt

pub record AuthKey : Type 0 where
  pub key_id : ℕ
  pub customer_id : ℕ
  pub client_id : Text
  pub key_hash : Text
  pub customer_status : CustomerStatus
  pub expires_at : Option ℕ
  pub rate_limit_items_per_sec : ℕ

-- audit.Entry without its payload.
pub record Entry : Type 0 where
  pub actor_user_id : Option ℕ
  pub action : Text
  pub entity_type : Text
  pub entity_id : ℕ
  pub customer_id : Option ℕ

pub record Db : Type 0 where
  pub customers : List Customer
  pub api_keys : List ApiKey
  pub audit_log : List Entry

-- What the callers tell apart; `rejected` is any other violation of a constraint.
pub data StoreError : Type 0 where
  err_slug_exists err_conflict err_not_found rejected : StoreError

pub data Result {ℓ} (A : Type ℓ) : Type ℓ where
  ok : A → Result A
  err : StoreError → Result A

-- audit.Write
unfoldable pub write_audit : List Entry → Db → Db
write_audit entries db = record db { audit_log = db.audit_log ++ entries }

abbrev pub is_deleted : CustomerStatus → Bool
is_deleted deleted = true
is_deleted _ = false

abbrev pub is_active : CustomerStatus → Bool
is_active active = true
is_active _ = false

-- WHERE id = $1 AND status <> 'deleted'
abbrev pub is_live : ℕ → Customer → Bool
is_live id c = (c.id == id) && not (is_deleted c.status)

abbrev pub is_unrevoked : ApiKey → Bool
is_unrevoked k = elim (k.revoked_at) [ none ↦ true | some t ↦ false ]

-- The row that an INSERT writes.
abbrev pub customer_row : ℕ → NewCustomer → Customer
customer_row now n = record {
  id = n.id;
  slug = n.slug;
  name = n.name;
  client_id = n.client_id;
  status = active;
  region = n.region;
  rate_limit_items_per_sec = none;
  retention_days = none;
  created_at = now;
  updated_at = now;
}

abbrev pub api_key_row : ℕ → NewApiKey → ApiKey
api_key_row now n = record {
  id = n.id;
  customer_id = n.customer_id;
  name = n.name;
  key_prefix = n.key_prefix;
  key_hash = n.key_hash;
  created_by = n.created_by;
  created_at = now;
  expires_at = n.expires_at;
  revoked_at = none;
  last_used_at = none;
}

unfoldable pub insert_customer : ℕ → NewCustomer → Db → Result (Customer × Db)
insert_customer now n db =
    if any (λ (c : Customer). c.id == n.id) db.customers
    then err rejected
    else if any (λ (c : Customer). c.slug == n.slug) db.customers
    then err err_slug_exists
    else if any (λ (c : Customer). c.client_id == n.client_id) db.customers
    then err err_conflict
    else ok (customer_row now n, record db { customers = db.customers ++ customer_row now n ∷ [] })

unfoldable pub insert_api_key : ℕ → NewApiKey → Db → Result (ApiKey × Db)
insert_api_key now n db =
    if any (λ (k : ApiKey). k.id == n.id) db.api_keys
    then err rejected
    else if any (λ (c : Customer). c.id == n.customer_id) db.customers
    then ok (api_key_row now n, record db { api_keys = db.api_keys ++ api_key_row now n ∷ [] })
    else err rejected

unfoldable pub with_audit {ℓ} : {A : Type ℓ} → List Entry → Result (A × Db) → Result (A × Db)
with_audit entries (err e) = err e
with_audit entries (ok (a, db)) = ok (a, write_audit entries db)

abbrev pub join_key : Customer → Result (ApiKey × Db) → Result ((Customer × ApiKey) × Db)
join_key c (err e) = err e
join_key c (ok (key, db)) = ok ((c, key), db)

-- The rest of CreateCustomer, after the customer is inserted.
unfoldable pub add_first_key :
    ℕ → NewApiKey → Result (Customer × Db) → Result ((Customer × ApiKey) × Db)
add_first_key now k (err e) = err e
add_first_key now k (ok (c, db)) = join_key c (insert_api_key now k db)

unfoldable pub create_customer :
    ℕ → NewCustomer → NewApiKey → List Entry → Db → Result ((Customer × ApiKey) × Db)
create_customer now c k entries db =
    with_audit entries (add_first_key now k (insert_customer now c db))

unfoldable pub get_customer : ℕ → Db → Result Customer
get_customer id db = elim (find? (is_live id) db.customers) [
  | none ↦ err err_not_found
  | some c ↦ ok c
]

abbrev or_else {ℓ} : {A : Type ℓ} → Option A → A → A
or_else none a = a
or_else (some b) a = b

abbrev set_int : OptionalInt → Option ℕ → Option ℕ
set_int unset a = a
set_int (set b) a = b

abbrev pub updated : ℕ → CustomerUpdate → Customer → Customer
updated now u c = record c {
  name = or_else u.name c.name;
  status = or_else u.status c.status;
  rate_limit_items_per_sec = set_int u.rate_limit_items_per_sec c.rate_limit_items_per_sec;
  retention_days = set_int u.retention_days c.retention_days;
  updated_at = now;
}

-- UPDATE ... SET ... WHERE
unfoldable pub update_where {ℓ} : {A : Type ℓ} → (A → Bool) → (A → A) → List A → List A
update_where test change [] = []
update_where test change (x ∷ xs) = (if test x then change x else x) ∷ update_where test change xs

unfoldable pub update_customer : ℕ → ℕ → CustomerUpdate → List Entry → Db → Result (Customer × Db)
update_customer now id u entries db = elim (find? (is_live id) db.customers) [
  | none ↦ err err_not_found
  | some c ↦ ok (
    updated now u c,
    write_audit entries
        (record db { customers = update_where (is_live id) (updated now u) db.customers }),
  )
]

abbrev pub mark_deleted : ℕ → Customer → Customer
mark_deleted now c = record c { status = deleted; updated_at = now }

abbrev pub mark_revoked : ℕ → ApiKey → ApiKey
mark_revoked now k = record k { revoked_at = some now }

abbrev pub is_open_key_of : ℕ → ApiKey → Bool
is_open_key_of id k = (k.customer_id == id) && is_unrevoked k

unfoldable pub soft_delete_customer : ℕ → ℕ → List Entry → Db → Result Db
soft_delete_customer now id entries db =
    if any (is_live id) db.customers
    then ok (
        write_audit entries (record db {
          customers = update_where (is_live id) (mark_deleted now) db.customers;
          api_keys = update_where (is_open_key_of id) (mark_revoked now) db.api_keys;
        }))
    else err err_not_found

unfoldable pub create_api_key : ℕ → NewApiKey → List Entry → Db → Result (ApiKey × Db)
create_api_key now k entries db = elim (get_customer k.customer_id db) [
  | err e ↦ err e
  | ok c ↦ with_audit entries (insert_api_key now k db)
]

-- WHERE id = $1 AND customer_id = $2
abbrev pub is_key_of : ℕ → ℕ → ApiKey → Bool
is_key_of customer_id id k = (k.id == id) && k.customer_id == customer_id

unfoldable pub revoke_api_key : ℕ → ℕ → ℕ → List Entry → Db → Result Db
revoke_api_key now customer_id id entries db =
    if any (is_key_of customer_id id) db.api_keys
    then ok (
        write_audit entries (record db {
          api_keys =
              update_where (λ k. is_key_of customer_id id k && is_unrevoked k) (mark_revoked now)
                db.api_keys;
        }))
    else err err_not_found

abbrev pub or_zero : Option ℕ → ℕ
or_zero none = 0
or_zero (some n) = n

-- The row of a key joined with the row of its customer, whose id is a primary key.
unfoldable pub auth_key : List Customer → ApiKey → Option AuthKey
auth_key customers k = elim (find? (λ (c : Customer). c.id == k.customer_id) customers) [
  | none ↦ none
  | some c ↦ some (record {
    key_id = k.id;
    customer_id = k.customer_id;
    client_id = c.client_id;
    key_hash = k.key_hash;
    customer_status = c.status;
    expires_at = k.expires_at;
    rate_limit_items_per_sec = or_zero c.rate_limit_items_per_sec;
  })
]

unfoldable pub join_customers : List Customer → List ApiKey → List AuthKey
join_customers customers [] = []
join_customers customers (k ∷ ks) = elim (auth_key customers k) [
  | none ↦ join_customers customers ks
  | some a ↦ a ∷ join_customers customers ks
]

unfoldable pub active_keys_by_prefix : Text → Db → List AuthKey
active_keys_by_prefix prefix db =
    join_customers db.customers
      (filter (λ (k : ApiKey). (k.key_prefix == prefix) && is_unrevoked k) db.api_keys)

-- GREATEST(COALESCE(last_used_at, 'epoch'), $2)
abbrev pub latest : Option ℕ → ℕ → Option ℕ
latest t u = some (max (or_zero t) u)

abbrev pub touch : Map ℕ ℕ → ApiKey → ApiKey
touch usages k = elim (usages k.id) [
  | none ↦ k
  | some t ↦ record k { last_used_at = latest k.last_used_at t }
]

-- The batch updates each row of the map once.
unfoldable pub touch_api_keys : Map ℕ ℕ → Db → Db
touch_api_keys usages db = record db { api_keys = map (touch usages) db.api_keys }
