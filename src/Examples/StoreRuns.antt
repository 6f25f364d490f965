-- ===== src/Examples/StoreRuns.antt =====
-- Two customers, of whom one is deleted, and the keys of the other.
use otel_fleet.Prelude.{
  ℕ, ◌≤◌, codes, Text, text_eq, nat_eq, ◌≡◌, ◌≢◌, refl, true, none, some, [], ◌∷◌, ◌++◌, All, arith,
  empty,
}
use mathlib.Core.List.{Memᴰ}
use otel_fleet.Store
use otel_fleet.Store.{
  Db, Customer, ApiKey, NewApiKey, AuthKey, update_where, write_audit, with_audit, insert_customer,
  insert_api_key, add_first_key, create_customer, create_api_key, get_customer,
  soft_delete_customer, revoke_api_key, auth_key, join_customers, active_keys_by_prefix,
  touch_api_keys, or_zero,
}
use otel_fleet.Store.Ops.{Op, apply, apply_all}
use otel_fleet.Store.Revocation.{IsOther, revoked_never_offered}
use otel_fleet.Tenants.Keys.{
  parse_key_prefix, key_parts, split_n, mint, hex_encode, base64_encode, GeneratedKey,
}
use otel_fleet.IngestAuth.{
  Response, Outcome, new_service, acceptance, validate_api_key, look_up, judge, find_match, flush,
}
use otel_fleet.IngestAuth.Accepted.{IsAccepted, IsAccepted-backed, deleted_never_accepted}
use otel_fleet.IngestAuth.Minted.{new_auth_key, new_key_accepted}
use otel_fleet.IngestAuth.Usage.{record_all, IsLaterRow, flush_shows_uses}

abbrev sha : Text → Text
sha s = s

abbrev customer : ℕ → Text → Customer
customer id slug = record {
  id = id;
  slug = slug;
  name = slug;
  client_id = codes "cust_" ++ slug;
  status = Store.active;
  region = codes "default";
  rate_limit_items_per_sec = some 100;
  retention_days = none;
  created_at = 0;
  updated_at = 0;
}

abbrev secret : Text
secret = codes "otm_ab12cd34_s"

abbrev key : ApiKey
key = record {
  id = 7;
  customer_id = 2;
  name = codes "default";
  key_prefix = codes "otm_ab12cd34";
  key_hash = secret;
  created_by = none;
  created_at = 0;
  expires_at = some 100;
  revoked_at = none;
  last_used_at = none;
}

abbrev db : Db
db = record {
  customers = customer 1 (codes "acme") ∷ customer 2 (codes "beta") ∷ [];
  api_keys = key ∷ [];
  audit_log = [];
}

-- After the deletion of the first customer.
abbrev deleted : Db
deleted = record db {
  customers = Store.mark_deleted 50 (customer 1 (codes "acme")) ∷ customer 2 (codes "beta") ∷ [];
}

abbrev accepted : Response
accepted = record {
  valid = true;
  customer_id = some 2;
  client_id = codes "cust_beta";
  cache_ttl_seconds = 30;
  rate_limit_items_per_sec = 100;
}

IsAccepted-backed_example : IsAccepted sha secret 60 db accepted
unfolding validate_api_key look_up judge find_match parse_key_prefix key_parts split_n
    active_keys_by_prefix join_customers auth_key
IsAccepted-backed_example = IsAccepted-backed sha secret 60 61 db new_service accepted refl refl

deleted_never_accepted_example : accepted.customer_id ≢ some 1
unfolding validate_api_key look_up judge find_match parse_key_prefix key_parts split_n
    active_keys_by_prefix join_customers auth_key soft_delete_customer update_where write_audit
    apply_all apply touch_api_keys
deleted_never_accepted_example =
    deleted_never_accepted sha 1 50 60 61 secret [] db deleted (Op.touching_api_keys empty ∷ [])
      new_service accepted refl refl refl

-- A key whose owner is deleted is refused, as is one that has expired.
refusals :
    ((validate_api_key sha secret 100 101 (some db) new_service).1.requests
      ≡ Outcome.outcome_expired ∷ [])
    × ((validate_api_key sha secret 60 61
          (some (record db { customers = [] }))
          new_service).1.requests
        ≡ Outcome.outcome_invalid ∷ [])
    × ((validate_api_key sha (codes "otm_x") 60 61 (some db) new_service).1.requests
        ≡ Outcome.outcome_malformed ∷ [])
    × ((validate_api_key sha secret 60 61 none new_service).0 ≡ none)
unfolding validate_api_key look_up judge find_match parse_key_prefix key_parts split_n
    active_keys_by_prefix join_customers auth_key
refusals = (refl, refl, refl, refl)

revoked_never_offered_example : All (IsOther 2 7) (
    active_keys_by_prefix
      (codes "otm_ab12cd34")
      (record db { api_keys = Store.mark_revoked 50 key ∷ [] }))
unfolding revoke_api_key update_where write_audit apply_all
revoked_never_offered_example =
    revoked_never_offered 2 7 50 [] db (record db { api_keys = Store.mark_revoked 50 key ∷ [] }) []
      (codes "otm_ab12cd34") refl

abbrev buffer : Text
buffer = 0xab ∷ 0x12 ∷ 0xcd ∷ 0x34 ∷ codes "0123456789abcdef0123456789abcdef"

abbrev minted : GeneratedKey
minted =
    let text = codes "otm_ab12cd34_MDEyMzQ1Njc4OWFiY2RlZjAxMjM0NTY3ODlhYmNkZWY" in
    record { secret = text; prefix = codes "otm_ab12cd34"; hash = text }

abbrev new_key : NewApiKey
new_key = record {
  id = 8;
  customer_id = 2;
  name = codes "ci";
  key_prefix = minted.prefix;
  key_hash = minted.hash;
  created_by = none;
  expires_at = none;
}

-- The new key shares its prefix with a key that was there before.
new_key_accepted_example :
    (validate_api_key sha minted.secret 60 61
      (some (record db { api_keys = key ∷ Store.api_key_row 50 new_key ∷ [] }))
      new_service).0
    ≡ some (acceptance (new_auth_key new_key (customer 2 (codes "beta"))))
unfolding mint hex_encode base64_encode create_api_key insert_api_key with_audit write_audit
    get_customer
new_key_accepted_example =
    new_key_accepted sha buffer (omega arith) refl minted new_key 50 60 61 [] db
      (record db { api_keys = key ∷ Store.api_key_row 50 new_key ∷ [] })
      (Store.api_key_row 50 new_key) (customer 2 (codes "beta")) new_service refl refl refl refl
      refl refl refl (refl, tt)

flush_shows_uses_example :
    (k : ApiKey) × Memᴰ k
      (flush true (record_all ((7, 61) ∷ (7, 60) ∷ []) new_service) db).1.api_keys
    × IsLaterRow key k
    × (60 ≤ or_zero k.last_used_at)
flush_shows_uses_example =
    flush_shows_uses ((7, 61) ∷ (7, 60) ∷ []) new_service db key 60 (Memᴰ.tail (Memᴰ.head refl))
      (Memᴰ.head refl)
