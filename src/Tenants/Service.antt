-- ===== src/Tenants/Service.antt =====
-- service.go of internal/tenants: customers and their keys. A name is its runes, as in slug.go.
-- What rand.Read and uuid.New give in an attempt is a `Draw`; audit payloads are left out.
pub mod Creation
use otel_fleet.Prelude.{
  ℕ, zero, suc, ◌+◌, Text, codes, text_eq, nat_eq, ◌==◌, Bool, true, false, not, ◌&&◌, ◌||◌, Option,
  none, some, List, [], ◌∷◌, ◌++◌, leb, ltb, if◌then◌else◌, decimal,
}
use otel_fleet.Store
use otel_fleet.Store.{
  Db, Customer, ApiKey, NewCustomer, NewApiKey, Entry, StoreError, Result, create_customer,
  create_api_key, update_customer, soft_delete_customer, get_customer, revoke_api_key,
}
use otel_fleet.Tenants.Keys.{GeneratedKey, generate_api_key, hex_encode}
use otel_fleet.Tenants.Slug.{derive_slug, valid_slug}

-- unicode.IsSpace
abbrev pub is_space : ℕ → Bool
is_space c =
    (leb 9 c && leb c 13)
    || (c == 32)
    || (c == 133)
    || (c == 160)
    || (c == 5760)
    || (leb 8192 c && leb c 8202)
    || (c == 8232)
    || (c == 8233)
    || (c == 8239)
    || (c == 8287)
    || (c == 12288)

unfoldable pub trim_start : Text → Text
trim_start [] = []
trim_start (c ∷ s) = let rest = trim_start s in if is_space c then rest else c ∷ s

unfoldable pub trim_end : Text → Text
trim_end [] = []
trim_end (c ∷ s) = let rest = trim_end s in if (rest == []) && is_space c then [] else c ∷ rest

-- strings.TrimSpace
abbrev pub trim_space : Text → Text
trim_space s = trim_end (trim_start s)

-- len of the UTF-8 text
abbrev pub byte_length : Text → ℕ
byte_length [] = 0
byte_length (c ∷ s) =
    (if ltb c 128 then 1 else if ltb c 2048 then 2 else if ltb c 65536 then 3 else 4)
    + byte_length s

abbrev pub is_invalid_name : Text → Bool
is_invalid_name name = (name == []) || ltb 200 (byte_length name)

pub data Failure : Type 0 where
  err_invalid_name err_invalid_slug no_randomness no_free_slug : Failure
  from_store : StoreError → Failure

pub record Draw : Type 0 where
  pub client_bytes : Option Text
  pub key_bytes : Option Text
  pub customer_id : ℕ
  pub key_id : ℕ

-- NewClientID
unfoldable pub new_client_id : Option Text → Option Text
new_client_id none = none
new_client_id (some b) = some (codes "cust_" ++ hex_encode b)

pub record CreatedCustomer : Type 0 where
  pub customer : Customer
  pub key : ApiKey
  pub secret : Text

pub data Outcome {ℓ} (A : Type ℓ) : Type ℓ where
  done : A → Db → Outcome A
  failed : Failure → Outcome A

-- fmt.Sprintf("%s-%d", base, n)
abbrev pub suffixed : Text → ℕ → Text
suffixed base n = base ++ codes "-" ++ decimal n

abbrev pub audit_entry : Option ℕ → Text → Text → ℕ → ℕ → Entry
audit_entry actor action entity id customer = record {
  actor_user_id = actor;
  action = action;
  entity_type = entity;
  entity_id = id;
  customer_id = some customer;
}

abbrev pub max_attempts : ℕ
max_attempts = 10

abbrev pub first_key : Option ℕ → Draw → GeneratedKey → NewApiKey
first_key actor d key = record {
  id = d.key_id;
  customer_id = d.customer_id;
  name = codes "default";
  key_prefix = key.prefix;
  key_hash = key.hash;
  created_by = actor;
  expires_at = none;
}

abbrev pub creation_entries : Option ℕ → Draw → List Entry
creation_entries actor d =
    audit_entry actor (codes "customer.create") (codes "customer") d.customer_id d.customer_id
    ∷ audit_entry actor (codes "apikey.create") (codes "api_key") d.key_id d.customer_id
    ∷ []

module _ (sha256 : Text → Text) where
  -- The insert that an attempt tries.
  abbrev pub insert :
      ℕ
      → Option ℕ
      → Text
      → Text
      → Draw
      → Text
      → GeneratedKey
      → Text
      → Db
      → Result ((Customer × ApiKey) × Db)
  insert now actor name region d client_id key slug db =
      create_customer now
        (record {
          id = d.customer_id;
          slug = slug;
          name = name;
          client_id = client_id;
          region = region;
        })
        (first_key actor d key) (creation_entries actor d) db

  module _ (now : ℕ) (actor : Option ℕ) (name region base : Text) (derived : Bool)
      (draws : ℕ → Draw) where
    -- The retry loop, with the number of attempts that are left and the number of this one.
    unfoldable pub attempt_from : ℕ → ℕ → Text → Db → Outcome CreatedCustomer
    attempt_from zero attempt slug db = failed no_free_slug
    attempt_from (suc left) attempt slug db = elim (new_client_id (draws attempt).client_bytes) [
      | none ↦ failed no_randomness
      | some client_id ↦ elim (generate_api_key sha256 (draws attempt).key_bytes) [
        | none ↦ failed no_randomness
        | some key ↦ elim (insert now actor name region (draws attempt) client_id key slug db) [
          | Store.ok ((customer, row), db') ↦
              done (record { customer = customer; key = row; secret = key.secret }) db'
          | Store.err Store.err_slug_exists ↦ elim derived [
            | true ↦ attempt_from left (suc attempt) (suffixed base (suc attempt)) db
            | false ↦ failed (from_store Store.err_slug_exists)
          ]
          | Store.err Store.err_conflict ↦ attempt_from left (suc attempt) slug db
          | Store.err Store.err_not_found ↦ failed (from_store Store.err_not_found)
          | Store.err Store.rejected ↦ failed (from_store Store.rejected)
        ]
      ]
    ]

  -- CreateCustomer; a slug that is given is checked, and is not varied.
  unfoldable pub service_create_customer :
      ℕ → Option ℕ → (ℕ → ℕ) → Text → Option Text → Text → (ℕ → Draw) → Db → Outcome CreatedCustomer
  service_create_customer now actor lower raw slug region draws db =
      let name = trim_space raw in
      if is_invalid_name name then failed err_invalid_name else elim slug [
        | none ↦
            let base = derive_slug lower name in
            attempt_from now actor name region base true draws max_attempts 1 base db
        | some given ↦
            if valid_slug given
            then attempt_from now actor name region given false draws max_attempts 1 given db
            else failed err_invalid_slug
      ]

  -- CreateAPIKey
  unfoldable pub service_create_api_key :
      ℕ → Option ℕ → ℕ → Text → Option ℕ → Draw → Db → Outcome (ApiKey × Text)
  service_create_api_key now actor customer raw expires_at d db =
      let name = trim_space raw in
      if is_invalid_name name
      then failed err_invalid_name
      else elim (generate_api_key sha256 d.key_bytes) [
        | none ↦ failed no_randomness
        | some key ↦
            elim (create_api_key now
              (record {
                id = d.key_id;
                customer_id = customer;
                name = name;
                key_prefix = key.prefix;
                key_hash = key.hash;
                created_by = actor;
                expires_at = expires_at;
              })
              (audit_entry actor (codes "apikey.create") (codes "api_key") d.key_id customer ∷ [])
              db) [
                | Store.err e ↦ failed (from_store e)
                | Store.ok (row, db') ↦ done (row, key.secret) db'
              ]
      ]

-- UpdateCustomer
unfoldable pub service_update_customer :
    ℕ → Option ℕ → ℕ → Store.CustomerUpdate → Db → Outcome Customer
service_update_customer now actor id u db = elim (checked_name u.name) [
  | none ↦ failed err_invalid_name
  | some name ↦
      elim (update_customer now id (record u { name = name })
        (audit_entry actor (codes "customer.update") (codes "customer") id id ∷ []) db) [
          | Store.err e ↦ failed (from_store e)
          | Store.ok (c, db') ↦ done c db'
        ]
]
  where
    -- The name that is written, if the one that is given is valid.
    checked_name : Option Text → Option (Option Text)
    checked_name none = some none
    checked_name (some raw) =
        if is_invalid_name (trim_space raw) then none else some (some (trim_space raw))

-- DeleteCustomer, with the client id and the region whose telemetry is purged.
unfoldable pub service_delete_customer : ℕ → Option ℕ → ℕ → Db → Outcome (Text × Text)
service_delete_customer now actor id db = elim (get_customer id db) [
  | Store.err e ↦ failed (from_store e)
  | Store.ok c ↦
      elim (soft_delete_customer now id
        (audit_entry actor (codes "customer.delete") (codes "customer") id id ∷ []) db) [
          | Store.err e ↦ failed (from_store e)
          | Store.ok db' ↦ done (c.client_id, c.region) db'
        ]
]

-- RevokeAPIKey
unfoldable pub service_revoke_api_key : ℕ → Option ℕ → ℕ → ℕ → Db → Result Db
service_revoke_api_key now actor customer key db =
    revoke_api_key now customer key
      (audit_entry actor (codes "apikey.revoke") (codes "api_key") key customer ∷ []) db
