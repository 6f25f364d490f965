-- ===== src/Examples/AuthRuns.antt =====
-- One key at the gateway: granted, served through an outage, refused.
use otel_fleet.Prelude.{
  ℕ, ◌*◌, codes, text_eq, ◌≡◌, ◌≢◌, refl, true, false, Option, none, some, [], ◌∷◌, ◌++◌, arith,
}
use otel_fleet.TenantAuth.Headers.{extract_key}
use otel_fleet.TenantAuth.Cache.{
  CacheEntry, KeyCache, new_key_cache, get, put, element, unlink, evict, move_to_front,
}
use otel_fleet.TenantAuth.Cache.Index.{IsCache, IsCache-new_key_cache}
use otel_fleet.TenantAuth.Cache.Recency.{spec_get, spec_put, get_refines, put_refines}
use otel_fleet.TenantAuth.Authenticate.{
  CacheConfig, Response, Request, authenticated, data_from, negative_entry, fresh_for, from_cache,
  on_error, on_verdict, ask, check_key, authenticate, second,
}
use otel_fleet.TenantAuth.Authenticate.Grants.{IsJustified, history, grants_of, fail_open_bounded}
use otel_fleet.TenantAuth.Authenticate.Revoked.{run, refused_stays_out}

abbrev cfg : CacheConfig
cfg = record { ttl = 30 * second; negative_ttl = 10 * second; stale_if_error = 300 * second }

abbrev granting : Response
granting = record {
  valid = true;
  client_id = codes "cust_1";
  customer_id = codes "c";
  cache_ttl_seconds = 30;
  rate_limit_items_per_sec = 0;
}

abbrev refusing : Response
refusing = record granting { valid = false }

abbrev request : ℕ → Option Response → Request
request now reply = record {
  sources = (codes "x-api-key", codes "k" ∷ []) ∷ [];
  now = now * second;
  reply = reply;
}

-- At second 200 the control plane cannot be reached, and the entry of second 100 is stale.
outage_serves :
    (authenticate cfg
      (λ t. t)
      (request 200 none)
      (history cfg (λ t. t) (request 100 (some granting) ∷ []) (new_key_cache 2) []).0).result
    ≡ authenticated (data_from granting)
unfolding authenticate history check_key ask on_error on_verdict from_cache extract_key get put
    evict element unlink move_to_front fresh_for
outage_serves = refl

fail_open_bounded_example :
    let (c, G) = history cfg (λ t. t) (request 100 (some granting) ∷ []) (new_key_cache 2) [] in
    IsJustified cfg
      (grants_of cfg (λ t. t) (request 200 none) c ++ G)
      (extract_key (request 200 none).sources)
      (200 * second)
      (data_from granting)
fail_open_bounded_example =
    fail_open_bounded cfg (λ t. t) 2 (request 100 (some granting) ∷ []) (request 200 none)
      (data_from granting) outage_serves

refused_stays_out_example :
    (authenticate cfg
      (λ t. t)
      (request 130 none)
      (run cfg
        (λ t. t)
        (request 120 none ∷ [])
        (on_verdict cfg
          (extract_key (request 130 none).sources)
          (110 * second)
          refusing
          (new_key_cache 2)).cache)).result
    ≢ authenticated (data_from granting)
refused_stays_out_example =
    refused_stays_out cfg (λ t. t) (110 * second) refusing (new_key_cache 2) (request 120 none ∷ [])
      (request 130 none) (data_from granting) (IsCache-new_key_cache 2) (omega arith) refl
      ((λ e. refl), tt) refl

abbrev entry : CacheEntry
entry = negative_entry cfg 0

put_refines_example :
    ((put (codes "k") entry (new_key_cache 1)).ll ≡ spec_put 1 (codes "k") entry [])
    × IsCache (put (codes "k") entry (new_key_cache 1))
put_refines_example =
    put_refines (codes "k") entry (new_key_cache 1) (omega arith) (IsCache-new_key_cache 1)

abbrev filled : KeyCache
filled = record {
  max_entries = 1;
  ll = record { key = codes "k"; entry = entry } ∷ [];
  items = codes "k" ∷ [];
}

filled_lem : put (codes "k") entry (new_key_cache 1) ≡ filled
unfolding put evict
filled_lem = refl

get_refines_example :
    ((
      (get (codes "k") (put (codes "k") entry (new_key_cache 1))).0.ll,
      (get (codes "k") (put (codes "k") entry (new_key_cache 1))).1,
    )
      ≡ spec_get (codes "k") (put (codes "k") entry (new_key_cache 1)).ll)
    × IsCache (get (codes "k") (put (codes "k") entry (new_key_cache 1))).0
get_refines_example =
    get_refines (codes "k") (put (codes "k") entry (new_key_cache 1)) put_refines_example.1

extract_bearer :
    extract_key (
      (codes "X-Api-Key", codes "otm_a" ∷ [])
      ∷ (codes "Authorization", codes "Basic x" ∷ codes " bEaReR  otm_b " ∷ [])
      ∷ [])
    ≡ codes "otm_b"
unfolding extract_key
extract_bearer = refl

extract_nothing : extract_key ((codes "authorization", codes "Bearer " ∷ []) ∷ []) ≡ []
unfolding extract_key
extract_nothing = refl
