-- ===== src/IngestAuth.antt =====
-- internal/ingestauth/service.go: the control plane's answer to the gateway about an ingest key.
-- The clock is read twice, for the expiry and for the usage; the database is none where the lookup
-- fails. The counter is the list of the outcomes, the latest first.
pub mod Accepted
pub mod Minted
pub mod Usage
use otel_fleet.Prelude.{
  ℕ, ◌%◌, ◌^◌, Text, text_eq, nat_eq, ◌==◌, Bool, true, false, not, Option, none, some, List, [],
  ◌∷◌, find?, Map, empty, put, leb, ltb, if◌then◌else◌,
}
use otel_fleet.Tenants.Keys.{parse_key_prefix}
use otel_fleet.Store.{Db, AuthKey, active_keys_by_prefix, touch_api_keys, is_active}

pub data Outcome : Type 0 where
  outcome_ok outcome_malformed outcome_invalid outcome_expired outcome_customer_inactive
        outcome_error :
      Outcome

abbrev pub cache_ttl_seconds : ℕ
cache_ttl_seconds = 30

-- ValidateAPIKeyResponse
pub record Response : Type 0 where
  pub valid : Bool
  pub customer_id : Option ℕ
  pub client_id : Text
  pub cache_ttl_seconds : ℕ
  pub rate_limit_items_per_sec : ℕ

abbrev pub refusal : Response
refusal = record {
  valid = false;
  customer_id = none;
  client_id = [];
  cache_ttl_seconds = 0;
  rate_limit_items_per_sec = 0;
}

abbrev pub acceptance : AuthKey → Response
acceptance k = record {
  valid = true;
  customer_id = some k.customer_id;
  client_id = k.client_id;
  cache_ttl_seconds = cache_ttl_seconds;
  rate_limit_items_per_sec = k.rate_limit_items_per_sec % 2 ^ 32;
}

pub record Service : Type 0 where
  pub pending : Map ℕ ℕ
  pub requests : List Outcome

abbrev pub new_service : Service
new_service = record { pending = empty; requests = [] }

abbrev pub count : Outcome → Service → Service
count o s = record s { requests = o ∷ s.requests }

abbrev pub is_newer : ℕ → Option ℕ → Bool
is_newer ts none = true
is_newer ts (some prev) = ltb prev ts

unfoldable pub record_usage : ℕ → ℕ → Service → Service
record_usage key_id ts s =
    if is_newer ts (s.pending key_id) then record s { pending = put s.pending key_id ts } else s

-- An expiry that is not after `now`.
abbrev pub is_expired : ℕ → Option ℕ → Bool
is_expired now none = false
is_expired now (some t) = leb t now

-- The answer of a lookup, none for a gRPC error, and the state after it.
abbrev pub Reply : Type 0
Reply = Option Response × Service

unfoldable pub judge : ℕ → ℕ → Option AuthKey → Service → Reply
judge now used_at none s = (some refusal, count outcome_invalid s)
judge now used_at (some k) s =
    if is_expired now k.expires_at
    then (some refusal, count outcome_expired s)
    else if not (is_active k.customer_status)
    then (some refusal, count outcome_customer_inactive s)
    else (some (acceptance k), count outcome_ok (record_usage k.key_id used_at s))

unfoldable pub find_match : Text → List AuthKey → Option AuthKey
find_match hash keys = find? (λ (k : AuthKey). hash == k.key_hash) keys

module _ (sha256 : Text → Text) where
  unfoldable pub look_up : Text → ℕ → ℕ → Option Db → Text → Service → Reply
  look_up key now used_at none prefix s = (none, count outcome_error s)
  look_up key now used_at (some db) prefix s =
      judge now used_at (find_match (sha256 key) (active_keys_by_prefix prefix db)) s

  unfoldable pub validate_api_key : Text → ℕ → ℕ → Option Db → Service → Reply
  validate_api_key key now used_at db s = elim (parse_key_prefix key) [
    | none ↦ (some refusal, count outcome_malformed s)
    | some prefix ↦ look_up key now used_at db prefix s
  ]

-- Flush: what is pending is taken, and lost where the database cannot be reached. An empty batch
-- changes no row.
unfoldable pub flush : Bool → Service → Db → Service × Db
flush reachable s db =
    (record s { pending = empty }, if reachable then touch_api_keys s.pending db else db)
