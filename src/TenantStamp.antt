-- ===== src/TenantStamp.antt =====
-- collector/processor/tenantstamp/processor.go: the identity of a request on its resources. The
-- attribute map of a resource is of the collector's own library, and so an interface.
pub mod Stamped
use otel_fleet.Prelude.{
  ◌≡◌, ◌≢◌, ℕ, suc, Text, codes, text_eq, ◌==◌, Bool, true, false, Option, none, some, List, [],
  ◌∷◌, map, if◌then◌else◌,
}
use otel_fleet.Quota.Admit.{AttrValue, AuthData, string_of}

-- pcommon.Map: what PutStr and Remove do to what Get gives.
pub record AttributeMap (A : Type 0) : Type 0 where
  pub get : A → Text → Option Text
  pub put_str : A → Text → Text → A
  pub remove : A → Text → A
  pub get-put_str : (a : A) (k v : Text) → get (put_str a k v) k ≡ some v
  pub get-put_str_ne : (a : A) (k v j : Text) → k ≢ j → get (put_str a k v) j ≡ get a j
  pub get-remove : (a : A) (k : Text) → get (remove a k) k ≡ none
  pub get-remove_ne : (a : A) (k j : Text) → k ≢ j → get (remove a k) j ≡ get a j

abbrev pub attr_tenant_id : Text
attr_tenant_id = codes "tenant.id"

abbrev pub attr_client_id : Text
attr_client_id = codes "client.id"

abbrev pub attr_customer_id : Text
attr_customer_id = codes "customer.id"

pub record Identity : Type 0 where
  pub tenant_id : Text
  pub client_id : Text
  pub customer_id : Text

-- The number of batches that were dropped, for each signal in the order of the drops.
pub record Stamper : Type 0 where
  pub dropped : List Text

abbrev pub drop_batch : Text → Stamper → Stamper
drop_batch signal s = record s { dropped = signal ∷ s.dropped }

-- The identity of an auth context; none: the batch is dropped.
unfoldable pub identity_from : Option AuthData → Option Identity
identity_from none = none
identity_from (some auth) =
    if string_of (auth attr_tenant_id) == []
    then none
    else some (record {
      tenant_id = string_of (auth attr_tenant_id);
      client_id = string_of (auth attr_client_id);
      customer_id = string_of (auth attr_customer_id);
    })

module _ {A : Type 0} (m : AttributeMap A) where
  abbrev pub put_unless_empty : Text → Text → A → A
  put_unless_empty k v a = if v == [] then a else m.put_str a k v

  unfoldable pub stamp : Identity → A → A
  stamp id a =
      let cleared =
        m.remove (m.remove (m.remove a attr_tenant_id) attr_client_id) attr_customer_id in
      put_unless_empty attr_customer_id id.customer_id (
        put_unless_empty attr_client_id id.client_id
          (m.put_str cleared attr_tenant_id id.tenant_id))

  -- processTraces, processLogs, processMetrics on the resources of a batch; none: skipped.
  unfoldable pub process : Text → Option AuthData → List A → Stamper → Option (List A) × Stamper
  process signal auth resources s = elim (identity_from auth) [
    | none ↦ (none, drop_batch signal s)
    | some id ↦ (some (map (stamp id) resources), s)
  ]
