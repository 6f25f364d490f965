-- ===== src/Examples/StampRuns.antt =====
-- A resource that claims another tenant.
use otel_fleet.Prelude.{
  ◌≡◌, ◌≢◌, refl, Text, codes, text_eq, beq_self, beq_ne, none, some, List, [], ◌∷◌, Map, put, del,
  empty, pos,
}
use otel_fleet.Quota.Admit.{limit_from_auth}
use otel_fleet.TenantAuth.Cache
use otel_fleet.TenantAuth.Attributes.{get_attribute}
use otel_fleet.TenantStamp.{AttributeMap, process, identity_from, drop_batch, attr_tenant_id}
use otel_fleet.TenantStamp.Stamped.{AllStamped, process-AllStamped}

-- Maps as functions have the laws.
abbrev attributes : AttributeMap (Map Text Text)
attributes = record {
  get = λ a k. a k;
  put_str = λ a k v. put a k v;
  remove = λ a k. del a k;
  get-put_str = λ a k v. rw (beq_self k) refl;
  get-put_str_ne = λ a k v j h. rw (beq_ne k j h) refl;
  get-remove = λ a k. rw (beq_self k) refl;
  get-remove_ne = λ a k j h. rw (beq_ne k j h) refl;
}

abbrev identity : Cache.AuthData
identity = record {
  tenant_id = codes "cust_1";
  client_id = codes "cust_1";
  customer_id = [];
  rate_limit_items_per_sec = 100;
}

abbrev spoofed : Map Text Text
spoofed = put empty attr_tenant_id (codes "cust_2")

process-AllStamped_example :
    (limit_from_auth (get_attribute identity) ≡ pos 100)
    × (identity.tenant_id ≡ []
        → process attributes
            (codes "logs")
            (some (get_attribute identity))
            (spoofed ∷ [])
            (record { dropped = [] })
          ≡ (none, drop_batch (codes "logs") (record { dropped = [] })))
    × (identity.tenant_id ≢ []
        → (after : List (Map Text Text)) × (process attributes
              (codes "logs")
              (some (get_attribute identity))
              (spoofed ∷ [])
              (record { dropped = [] })
            ≡ (some after, record { dropped = [] }))
          × AllStamped attributes
              (record { tenant_id = codes "cust_1"; client_id = codes "cust_1"; customer_id = [] })
              (spoofed ∷ [])
              after)
process-AllStamped_example =
    process-AllStamped attributes identity (codes "logs") (spoofed ∷ []) (record { dropped = [] })

unauthenticated_is_dropped :
    process attributes (codes "logs") none (spoofed ∷ []) (record { dropped = [] })
    ≡ (none, record { dropped = codes "logs" ∷ [] })
unfolding process identity_from
unauthenticated_is_dropped = refl
