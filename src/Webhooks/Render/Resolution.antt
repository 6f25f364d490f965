-- ===== src/Webhooks/Render/Resolution.antt =====
-- Lemmas on the vendor payloads of a firing and its resolution (internal/webhooks/vendors.go).
use otel_fleet.Prelude.{◌≡◌, ◌≢◌, codes, text_eq, none}
use otel_fleet.Webhooks.Vendors.{Payload, lookup}
use otel_fleet.Webhooks.Render
use otel_fleet.Webhooks.Render.{Request, url_or, opsgenie_endpoint}

-- Two payloads about the same rule, customer and metric.
pub record IsSameAlert (p q : Payload) : Type 0 where
  pub named : lookup (codes "rule") p.detail ≢ none
  pub same_rule : lookup (codes "rule") p.detail ≡ lookup (codes "rule") q.detail
  pub same_customer : lookup (codes "customer") p.detail ≡ lookup (codes "customer") q.detail
  pub same_metric : lookup (codes "metric") p.detail ≡ lookup (codes "metric") q.detail
