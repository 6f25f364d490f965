-- ===== src/Examples/ServiceRuns.antt =====
-- Customers with one name.
use otel_fleet.Prelude.{
  ℕ, zero, suc, ◌<◌, codes, Text, text_eq, nat_eq, ◌≡◌, refl, true, none, some, [], ◌∷◌, arith,
}
use otel_fleet.Store
use otel_fleet.Store.{Db, Customer}
use otel_fleet.Tenants.Keys.{mint, hex_encode, base64_encode, GeneratedKey}
use otel_fleet.Tenants.Slug.{
  valid_slug, derive_slug, hyphenate, trim, trim_left, trim_right, drop_hyphen, cut, pad, pad_once,
  starts_well, ends_well,
}
use otel_fleet.Tenants.Service.{
  Draw, new_client_id, trim_start, trim_end, service_create_customer, failed, Failure,
}
use otel_fleet.Tenants.Service.Creation.{
  IsFresh, has_slug, candidate, made, create_takes_first_free, create_given_slug,
}

abbrev sha : Text → Text
sha s = s

abbrev lower : ℕ → ℕ
lower c = c

abbrev draws : ℕ → Draw
draws i = record {
  client_bytes = some (0xab ∷ 0x12 ∷ 0xcd ∷ 0x34 ∷ []);
  key_bytes = some (0xab ∷ 0x12 ∷ 0xcd ∷ 0x34 ∷ 0 ∷ 0 ∷ 0 ∷ []);
  customer_id = 9;
  key_id = 9;
}

abbrev acme : Customer
acme = record {
  id = 1;
  slug = codes "acme";
  name = codes "acme";
  client_id = codes "cust_acme";
  status = Store.active;
  region = codes "default";
  rate_limit_items_per_sec = none;
  retention_days = none;
  created_at = 0;
  updated_at = 0;
}

abbrev db : Db
db = record { customers = acme ∷ []; api_keys = []; audit_log = [] }

abbrev minted : GeneratedKey
minted = record {
  secret = codes "otm_ab12cd34_AAAA";
  prefix = codes "otm_ab12cd34";
  hash = codes "otm_ab12cd34_AAAA";
}

abbrev fresh : (i : ℕ) → IsFresh sha db (draws i)
unfolding new_client_id mint hex_encode base64_encode
fresh i = record {
  client_id = codes "cust_ab12cd34";
  key = minted;
  given = refl;
  minted = refl;
  new_customer = refl;
  new_client = refl;
  new_key = refl;
}

taken : (i : ℕ) → i < 1 → has_slug (candidate (codes "acme") (suc i)) db ≡ true
taken zero h = refl
taken (suc n) h = absurd (omega arith)

-- The first customer has the name and the slug; the second one gets "-2".
create_takes_first_free_example :
    service_create_customer sha 50 none lower (codes " acme ") none (codes "default") draws db
    ≡ made sha 50 none (codes "acme") (codes "default") (codes "acme") draws db fresh 2
unfolding derive_slug hyphenate trim trim_left trim_right drop_hyphen cut pad pad_once trim_start
    trim_end
create_takes_first_free_example =
    create_takes_first_free sha 50 none (codes "acme") (codes "default") (codes "acme") draws db
      fresh lower (codes " acme ") 1 refl refl refl (omega arith) taken refl

create_given_slug_example :
    service_create_customer sha 50 none lower
      (codes "acme")
      (some (codes "acme"))
      (codes "default")
      draws
      db
    ≡ failed (Failure.from_store Store.err_slug_exists)
unfolding valid_slug starts_well ends_well trim_start trim_end
create_given_slug_example =
    create_given_slug sha 50 none (codes "acme") (codes "default") (codes "acme") draws db fresh
      lower (codes "acme") refl refl refl
