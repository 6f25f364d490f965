-- ===== src/TenantAuth/Attributes.antt =====
-- authdata.go: how the processors behind tenantauth read the identity of a request.
use otel_fleet.Prelude.{codes, text_eq, ◌==◌, if◌then◌else◌, pos}
use otel_fleet.TenantAuth.Cache
use otel_fleet.Quota.Admit
use otel_fleet.Quota.Admit.{AttrValue}

-- GetAttribute; nil is a value of no type that the readers know.
unfoldable pub get_attribute : Cache.AuthData → Admit.AuthData
get_attribute d name =
    if name == codes "tenant.id"
    then AttrValue.string d.tenant_id
    else if name == codes "client.id"
    then AttrValue.string d.client_id
    else if name == codes "customer.id"
    then AttrValue.string d.customer_id
    else if name == codes "rate_limit_items_per_sec"
    then AttrValue.int64 (pos d.rate_limit_items_per_sec)
    else AttrValue.other
