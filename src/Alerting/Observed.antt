-- ===== src/Alerting/Observed.antt =====
-- What a pass of internal/alerting has to tell: the observations of the rules, as the sources answer,
-- and the notices that they call for.
use otel_fleet.Prelude.{
  ℕ, Text, nat_eq, text_eq, ◌==◌, ◌≡◌, refl, ap, Bool, true, false, Option, none, some, List, [],
  ◌∷◌, ◌++◌, map, find?, Eq, Map, arith, nat_beq_iff, text_beq_iff, text_beq_self,
}
use otel_fleet.Alerting
use otel_fleet.Alerting.{
  AlertRule, CustomerRef, Webhook, Scope, Key, same_scope, same_key, Comparison, Event,
  alert_firing, alert_resolved, PendingNotify, Sample, PromqlSource, World,
}

pub same_scope→eq : (s t : Scope) → same_scope s t ≡ true → s ≡ t
same_scope→eq (Scope.customer a) (Scope.customer b) h = ap Scope.customer ((nat_beq_iff a b).0 h)
same_scope→eq (Scope.region a) (Scope.region b) h = ap Scope.region ((text_beq_iff a b).0 h)
same_scope→eq (Scope.customer a) (Scope.region b) h = cc h
same_scope→eq (Scope.region a) (Scope.customer b) h = cc h

pub same_scope_self : (s : Scope) → same_scope s s ≡ true
same_scope_self (Scope.customer a) = (nat_beq_iff a a).1 refl
same_scope_self (Scope.region a) = text_beq_self a

instance abbrev pub scope_eq : Eq Scope
scope_eq = record { same = same_scope; same_sound = same_scope→eq; same_self = same_scope_self }

pub same_key→eq : (j k : Key) → same_key j k ≡ true → j ≡ k
same_key→eq (r, s) (r', s') h =
    let i : r ≡ r' = (nat_beq_iff r r').0 (ground arith) in
    let e : s ≡ s' = same_scope→eq s s' (ground arith) in rw (i, e)

pub same_key_self : (k : Key) → same_key k k ≡ true
same_key_self (r, s) = ground (arith, nat_beq_iff r r, same_scope_self s)

instance abbrev pub key_eq : Eq Key
key_eq = record { same = same_key; same_sound = same_key→eq; same_self = same_key_self }

abbrev pub concat_map {ℓ κ} : {A : Type ℓ} {B : Type κ} → (A → List B) → List A → List B
concat_map f [] = []
concat_map f (x ∷ xs) = f x ++ concat_map f xs

abbrev pub to_list {ℓ} : {A : Type ℓ} → Option A → List A
to_list none = []
to_list (some a) = a ∷ []

-- A rule met a value in a scope.
pub record Observation (F : Type 0) : Type 0 where
  pub rule : AlertRule F
  pub scope : Scope
  pub value : F
  pub breached : Bool

abbrev pub key_of : {F : Type 0} → Observation F → Key
key_of o = (o.rule.id, o.scope)

abbrev pub event_when : Bool → Event
event_when true = alert_firing
event_when false = alert_resolved

-- The channels of a rule that exist, in its order.
abbrev pub reachable : List Webhook → List ℕ → List Webhook
reachable hooks ids =
    concat_map (λ (id : ℕ). to_list (find? (λ (h : Webhook). h.id == id) hooks)) ids

-- The customers of a rule: the one it is pinned to, if that exists, or all.
abbrev pub watched : Option ℕ → List CustomerRef → List CustomerRef
watched none refs = refs
watched (some id) refs = to_list (find? (λ (r : CustomerRef). r.id == id) refs)

module _ {F : Type 0} where
  -- The notice that an observation calls for where it is news.
  abbrev pub notice : ℕ → List Webhook → Observation F → PendingNotify F
  notice now hooks o = record {
    channels = reachable hooks o.rule.channel_ids;
    payload = record {
      event = event_when o.breached;
      occurred_at = now;
      rule = o.rule.id;
      about = o.scope;
      observed = o.value;
    };
    firing = o.breached;
    severity = o.rule.severity;
    scope = o.scope;
  }

module _ {F : Type 0} (lt : F → F → Bool) (nothing : F) where
  abbrev pub exceeds : Comparison → F → F → Bool
  exceeds Alerting.below value threshold = lt value threshold
  exceeds Alerting.above value threshold = lt threshold value
  exceeds (Alerting.other c) value threshold = false

  abbrev pub measured : AlertRule F → Scope → F → Observation F
  measured rule scope value = record {
    rule = rule;
    scope = scope;
    value = value;
    breached = exceeds rule.comparison value rule.threshold;
  }

  abbrev pub value_or_nothing : Option F → F
  value_or_nothing none = nothing
  value_or_nothing (some v) = v

  abbrev pub of_customer : AlertRule F → Map Text F → CustomerRef → Observation F
  of_customer rule values ref =
      measured rule (Scope.customer ref.id) (value_or_nothing (values ref.client_id))

  -- A region without data is not in breach; one whose query fails is not observed.
  abbrev pub of_sample : AlertRule F → Text → Sample F → List (Observation F)
  of_sample rule r Alerting.query_failed = []
  of_sample rule r Alerting.no_data =
      record { rule = rule; scope = Scope.region r; value = nothing; breached = false } ∷ []
  of_sample rule r (Alerting.sample v) = measured rule (Scope.region r) v ∷ []

  abbrev pub of_source : AlertRule F → Text → Option (PromqlSource F) → List (Observation F)
  of_source rule query none = []
  of_source rule query (some source) =
      concat_map (λ (r : Text). of_sample rule r (source.query r query)) source.regions

  abbrev pub of_values : AlertRule F → List CustomerRef → Option (Map Text F) → List (Observation F)
  of_values rule refs none = []
  of_values rule refs (some values) = map (of_customer rule values) (watched rule.customer_id refs)

  abbrev pub of_metric :
      World F → List CustomerRef → AlertRule F → Alerting.Metric → List (Observation F)
  of_metric w refs rule (Alerting.promql query) = of_source rule query w.promql_source
  of_metric w refs rule (Alerting.per_tenant metric) =
      of_values rule refs (w.metric metric rule.window_seconds)

  -- The observations of a pass.
  abbrev pub observations : World F → List CustomerRef → List (AlertRule F) → List (Observation F)
  observations w refs rules =
      concat_map (λ (rule : AlertRule F). of_metric w refs rule rule.metric) rules
