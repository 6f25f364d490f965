-- ===== src/TenantAuth/Authenticate.antt =====
-- `Authenticate` of extension.go. SHA-256 is an argument, and the answer of the control plane to
-- the request at hand too: none is an error of the call, and it is read only if the code asks.
pub mod Grants
pub mod Revoked
use otel_fleet.Prelude.{
  ℕ, ◌+◌, ◌*◌, Text, text_eq, ◌==◌, Bool, true, false, ◌&&◌, ltb, if◌then◌else◌, Option, none, some,
  List, [], ◌∷◌, ◌++◌,
}
use otel_fleet.TenantAuth.Headers.{extract_key}
use otel_fleet.TenantAuth.Cache.{AuthData, CacheEntry, KeyCache, get, put}

pub record CacheConfig : Type 0 where
  pub ttl : ℕ
  pub negative_ttl : ℕ
  pub stale_if_error : ℕ

pub record Response : Type 0 where
  pub valid : Bool
  pub client_id : Text
  pub customer_id : Text
  pub cache_ttl_seconds : ℕ
  pub rate_limit_items_per_sec : ℕ

pub data Outcome : Type 0 where
  outcome_ok invalid_key no_key upstream_error_stale upstream_error_reject : Outcome

-- What the caller gets: a context with the tenant's data, or an error. A nil pointer would panic.
pub data Result : Type 0 where
  authenticated : AuthData → Result
  err_no_key err_invalid_key unavailable panicked : Result

pub record Request : Type 0 where
  pub sources : List (Text × List Text)
  pub now : ℕ
  pub reply : Option Response

pub record Done : Type 0 where
  pub cache : KeyCache
  pub counted : Outcome
  pub result : Result

abbrev pub second : ℕ
second = 1000000000

-- The time for which a positive answer stays fresh.
unfoldable pub fresh_for : CacheConfig → Response → ℕ
fresh_for cfg resp =
    let server = resp.cache_ttl_seconds * second in
    if ltb 0 resp.cache_ttl_seconds && ltb server cfg.ttl then server else cfg.ttl

abbrev pub data_from : Response → AuthData
data_from resp = record {
  tenant_id = resp.client_id;
  client_id = resp.client_id;
  customer_id = resp.customer_id;
  rate_limit_items_per_sec = resp.rate_limit_items_per_sec;
}

abbrev pub negative_entry : CacheConfig → ℕ → CacheEntry
negative_entry cfg now = record {
  valid = false;
  data_of = none;
  fresh_until = now + cfg.negative_ttl;
  stale_until = 0;
}

abbrev pub positive_entry : CacheConfig → ℕ → Response → CacheEntry
positive_entry cfg now resp = record {
  valid = true;
  data_of = some (data_from resp);
  fresh_until = now + fresh_for cfg resp;
  stale_until = now + cfg.stale_if_error;
}

abbrev pub is_fresh : ℕ → Option CacheEntry → Bool
is_fresh now none = false
is_fresh now (some e) = ltb now e.fresh_until

abbrev pub is_servable_stale : ℕ → Option CacheEntry → Bool
is_servable_stale now none = false
is_servable_stale now (some e) = e.valid && ltb now e.stale_until

abbrev pub served : Option AuthData → Result
served none = panicked
served (some d) = authenticated d

abbrev pub served_entry : Option CacheEntry → Result
served_entry none = panicked
served_entry (some e) = served e.data_of

unfoldable pub from_cache : KeyCache → Option CacheEntry → Done
from_cache c none = record { cache = c; counted = outcome_ok; result = panicked }
from_cache c (some e) =
    if e.valid
    then record { cache = c; counted = outcome_ok; result = served e.data_of }
    else record { cache = c; counted = invalid_key; result = err_invalid_key }

-- The control plane cannot be reached: a key that was valid lately is let through.
unfoldable pub on_error : ℕ → KeyCache × Option CacheEntry → Done
on_error now (c, e) =
    if is_servable_stale now e
    then record { cache = c; counted = upstream_error_stale; result = served_entry e }
    else record { cache = c; counted = upstream_error_reject; result = unavailable }

unfoldable pub on_verdict : CacheConfig → Text → ℕ → Response → KeyCache → Done
on_verdict cfg hash now resp c =
    if resp.valid
    then record {
      cache = put hash (positive_entry cfg now resp) c;
      counted = outcome_ok;
      result = authenticated (data_from resp);
    }
    else record {
      cache = put hash (negative_entry cfg now) c;
      counted = invalid_key;
      result = err_invalid_key;
    }

unfoldable pub ask : CacheConfig → Text → ℕ → Option Response → KeyCache → Done
ask cfg hash now none c = on_error now (get hash c)
ask cfg hash now (some resp) c = on_verdict cfg hash now resp c

unfoldable pub check_key : CacheConfig → Text → ℕ → Option Response → KeyCache → Done
check_key cfg hash now reply c =
    let (c', e) = get hash c in
    if is_fresh now e then from_cache c' e else ask cfg hash now reply c'

module _ (cfg : CacheConfig) (sha256 : Text → Text) where
  unfoldable pub authenticate : Request → KeyCache → Done
  authenticate r c =
      let key = extract_key r.sources in
      if key == []
      then record { cache = c; counted = no_key; result = err_no_key }
      else check_key cfg (sha256 key) r.now r.reply c
