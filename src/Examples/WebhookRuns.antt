-- ===== src/Examples/WebhookRuns.antt =====
-- A full queue, a receiver that recovers, and an alert at Opsgenie.
use otel_fleet.Prelude.{
  zero, List, ℕ, suc, ◌*◌, ◌≤◌, codes, Text, text_eq, ◌≡◌, refl, false, none, some, [], ◌∷◌, ◌++◌,
  arith,
}
use otel_fleet.Webhooks.Queue.{Move, put, moved, publish_with}
use otel_fleet.Webhooks.Queue.Overflow.{IsPublished, publish-IsPublished}
use otel_fleet.Webhooks.Delivery.{
  second, Answer, Verdict, deliver_with_retry, deliver_from, verdict_of,
}
use otel_fleet.Webhooks.Delivery.Retries.{IsOutcome, delivery_bounded}
use otel_fleet.Webhooks.Vendors.{Payload, Value, lookup, alert_firing, alert_resolved}
use otel_fleet.Webhooks.Render
use otel_fleet.Webhooks.Render.{Webhook}
use otel_fleet.Webhooks.Render.Resolution.{IsSameAlert}

-- Another call sends an event before the first round.
abbrev rival : ℕ → List (Move ℕ)
rival zero = put 8 ∷ []
rival (suc i) = []

publish-IsPublished_example : IsPublished 3 2 rival 9 (7 ∷ [])
publish-IsPublished_example = publish-IsPublished 1 rival 9 (7 ∷ []) (omega arith) (omega arith)

abbrev replicate : ℕ → ℕ → List ℕ
replicate zero x = []
replicate (suc n) x = x ∷ replicate n x

-- A full queue loses its oldest event, and another one where a rival takes the freed slot.
abbrev full : List ℕ
full = replicate 255 1

abbrev thief : ℕ → List (Move ℕ)
thief (suc (suc zero)) = put 8 ∷ []
thief _ = []

two_lost : publish_with 3 thief 9 (0 ∷ full) ≡ some (replicate 254 1 ++ 8 ∷ 9 ∷ [])
unfolding publish_with moved
two_lost = refl

-- Two answers of 503, and then a 200.
abbrev recovering : ℕ → Answer
recovering (suc (suc n)) = Answer.status 200
recovering _ = Answer.status 503

recovers :
    deliver_with_retry recovering (λ i. false)
    ≡ record { verdict = Verdict.delivered; attempts = 3; waited = 6 * second }
unfolding deliver_from verdict_of
recovers = refl

delivery_bounded_example :
    IsOutcome recovering (λ i. false) 3 (deliver_with_retry recovering (λ i. false))
    × ((deliver_with_retry recovering (λ i. false)).waited ≤ 31 * second)
delivery_bounded_example = delivery_bounded recovering (λ i. false)

abbrev payload : Text → Payload
payload event = record {
  event = event;
  occurred_at = 0;
  agent = none;
  detail =
      (codes "rule", Value.string (codes "errors"))
      ∷ (codes "customer", Value.string (codes "acme"))
      ∷ (codes "metric", Value.string (codes "error_logs"))
      ∷ [];
}

abbrev same : IsSameAlert (payload alert_firing) (payload alert_resolved)
unfolding lookup
same = record { named = λ e. cc; same_rule = refl; same_customer = refl; same_metric = refl }

abbrev hook : Webhook
hook = record { url = []; type = Render.opsgenie; secret_enc = codes "k" }
