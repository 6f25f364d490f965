-- ===== src/Alerting.antt =====
-- internal/alerting/alerting.go: one evaluation pass of the alert rules.
--
-- The values are numbers of some type with an order: they come as float64, which NaN makes no total
-- order, so the two comparisons are Boolean tests that are arguments. What the sources and the
-- store answer in a pass is an argument too, with none for an error. Log lines and the texts of the
-- payload that do not matter to the recipient's choice are left out.
pub mod Observed
pub mod Course
pub mod Changes
pub mod Storms
pub mod Transitions
use otel_fleet.Prelude.{
  ℕ, Text, codes, text_eq, nat_eq, ◌==◌, Bool, true, false, not, ◌&&◌, Option, none, some, List, [],
  ◌∷◌, ◌++◌, elem, find?, if◌then◌else◌, Eq, Map, empty, put, del,
}

pub data Comparison : Type 0 where
  below above : Comparison
  other : Text → Comparison

pub data Severity : Type 0 where
  critical warning info : Severity

pub record CustomerRef : Type 0 where
  pub id : ℕ
  pub name : Text
  pub client_id : Text

-- The metric of a rule: a query for each region, or a metric for each customer.
pub data Metric : Type 0 where
  promql : Text → Metric
  per_tenant : Text → Metric

pub record AlertRule (F : Type 0) : Type 0 where
  pub id : ℕ
  pub name : Text
  pub metric : Metric
  pub customer_id : Option ℕ
  pub comparison : Comparison
  pub threshold : F
  pub window_seconds : ℕ
  pub severity : Severity
  pub channel_ids : List ℕ

-- A channel as the rules refer to it.
pub record Webhook : Type 0 where
  pub id : ℕ
  pub enabled : Bool

-- The key of `firing` and the scope of inhibition: a customer or a region.
pub data Scope : Type 0 where
  customer : ℕ → Scope
  region : Text → Scope

abbrev pub same_scope : Scope → Scope → Bool
same_scope (customer a) (customer b) = a == b
same_scope (region a) (region b) = a == b
same_scope _ _ = false

-- ruleID|customerID, ruleID|promql|region
abbrev pub Key : Type 0
Key = ℕ × Scope

abbrev pub same_key : Key → Key → Bool
same_key (r, s) (r', s') = (r == r') && same_scope s s'

abbrev pub is_critical : Severity → Bool
is_critical critical = true
is_critical _ = false

pub data Event : Type 0 where
  alert_firing alert_resolved : Event

-- The transition that is sent: webhooks.Payload, with the rule and the scope of its detail.
pub record Payload (F : Type 0) : Type 0 where
  pub event : Event
  pub occurred_at : ℕ
  pub rule : ℕ
  pub about : Scope
  pub observed : F

pub record PendingNotify (F : Type 0) : Type 0 where
  pub channels : List Webhook
  pub payload : Payload F
  pub firing : Bool
  pub severity : Severity
  pub scope : Scope

-- What a pass works on: the state of the rules, the transitions of the pass and the scopes that
-- have a critical alert.
pub record Pass (F : Type 0) : Type 0 where
  pub firing : Key → Bool
  pub pending : List (PendingNotify F)
  pub critical_scopes : List Scope

abbrev pub in_scopes : Scope → List Scope → Bool
in_scopes s [] = false
in_scopes s (x ∷ xs) = if same_scope x s then true else in_scopes s xs

abbrev pub set_firing : Key → Bool → (Key → Bool) → Key → Bool
set_firing k b firing j = if same_key k j then b else firing j

abbrev pub has_channels : List Webhook → Bool
has_channels [] = false
has_channels (h ∷ hs) = true

-- channelsFor: a channel that no longer exists is skipped.
unfoldable pub channels_for : List ℕ → List Webhook → List Webhook
channels_for [] hooks = []
channels_for (id ∷ ids) hooks = elim (find? (λ (h : Webhook). h.id == id) hooks) [
  | none ↦ channels_for ids hooks
  | some h ↦ h ∷ channels_for ids hooks
]

abbrev pub is_transition : Bool → Bool → Bool
is_transition true was = not was
is_transition false was = was

pub data Failure : Type 0 where
  list_windows list_rules list_refs list_channels : Failure

-- The answer of the metrics store of a region: an error, no data, or a value.
pub data Sample (F : Type 0) : Type 0 where
  query_failed no_data : Sample F
  sample : F → Sample F

-- PromQLSource; none where no metrics store is configured.
pub record PromqlSource (F : Type 0) : Type 0 where
  pub regions : List Text
  pub query : Text → Text → Sample F

-- The store and the sources as they answer in this pass.
pub record World (F : Type 0) : Type 0 where
  pub maintenance_windows : Option (List ℕ)
  pub rules : Option (List (AlertRule F))
  pub refs : Option (List CustomerRef)
  pub hooks : Option (List Webhook)
  pub metric : Text → ℕ → Option (Map Text F)
  pub promql_source : Option (PromqlSource F)

pub record Evaluated (F : Type 0) : Type 0 where
  pub firing : Key → Bool
  pub sent : List (PendingNotify F)
  pub failure : Option Failure

unfoldable pub breach : {F : Type 0} → (F → F → Bool) → Comparison → F → F → Bool
breach lt below value threshold = lt value threshold
breach lt above value threshold = lt threshold value
breach lt (other c) value threshold = false

module _ {F : Type 0} where
  abbrev pub notify : ℕ → AlertRule F → List Webhook → Scope → F → Bool → PendingNotify F
  notify now rule channels scope value breached = record {
    channels = channels;
    payload = record {
      event = if breached then alert_firing else alert_resolved;
      occurred_at = now;
      rule = rule.id;
      about = scope;
      observed = value;
    };
    firing = breached;
    severity = rule.severity;
    scope = scope;
  }

  -- The body of both loops: store the new state, mark a critical scope, note a transition.
  unfoldable pub observe : ℕ → AlertRule F → List Webhook → Scope → F → Bool → Pass F → Pass F
  observe now rule channels scope value breached p =
      let key : Key = (rule.id, scope) in
      record {
        firing = set_firing key breached p.firing;
        pending =
            if is_transition breached (p.firing key)
            then p.pending ++ notify now rule channels scope value breached ∷ []
            else p.pending;
        critical_scopes =
            if breached && is_critical rule.severity
            then scope ∷ p.critical_scopes
            else p.critical_scopes;
      }

  -- A pinned customer, or all of them. Ids are the primary key of the references.
  unfoldable pub customers_of : AlertRule F → List CustomerRef → List CustomerRef
  customers_of rule refs = elim rule.customer_id [
    | none ↦ refs
    | some id ↦ elim (find? (λ (r : CustomerRef). r.id == id) refs) [
      | none ↦ []
      | some ref ↦ ref ∷ []
    ]
  ]

  -- dispatch: what is handed to SendToChannels, in order. With `inhibit` a critical alert that
  -- fires in a scope holds back what starts to fire there and is less severe.
  unfoldable pub dispatch : Bool → List Scope → List (PendingNotify F) → List (PendingNotify F)
  dispatch inhibit scopes [] = []
  dispatch inhibit scopes (n ∷ ns) =
      let rest = dispatch inhibit scopes ns in
      if inhibit && n.firing && not (is_critical n.severity) && in_scopes n.scope scopes
      then rest
      else if has_channels n.channels
      then n ∷ rest
      else rest

  abbrev pub unchanged : (Key → Bool) → Option Failure → Evaluated F
  unchanged firing failure = record { firing = firing; sent = []; failure = failure }

  abbrev pub start_pass : (Key → Bool) → Pass F
  start_pass firing = record { firing = firing; pending = []; critical_scopes = [] }

module _ {F : Type 0} (lt : F → F → Bool) (nothing : F) where
  abbrev pub or_nothing : Option F → F
  or_nothing none = nothing
  or_nothing (some v) = v

  -- A customer that the source does not name has the value 0.
  unfoldable pub observe_customers :
      ℕ → AlertRule F → List Webhook → Map Text F → List CustomerRef → Pass F → Pass F
  observe_customers now rule channels values [] p = p
  observe_customers now rule channels values (ref ∷ refs) p =
      let value = or_nothing (values ref.client_id) in
      observe_customers now rule channels values refs (
        observe now rule channels (customer ref.id) value
          (breach lt rule.comparison value rule.threshold) p)

  -- A region whose query fails is left out; one without data is not in breach.
  unfoldable pub observe_sample : ℕ → AlertRule F → List Webhook → Text → Sample F → Pass F → Pass F
  observe_sample now rule channels r query_failed p = p
  observe_sample now rule channels r no_data p =
      observe now rule channels (region r) nothing false p
  observe_sample now rule channels r (sample value) p =
      observe now rule channels (region r) value (breach lt rule.comparison value rule.threshold) p

  unfoldable pub observe_regions :
      ℕ → AlertRule F → List Webhook → Text → (Text → Text → Sample F) → List Text → Pass F → Pass F
  observe_regions now rule channels query ask [] p = p
  observe_regions now rule channels query ask (r ∷ rs) p =
      observe_regions now rule channels query ask rs
        (observe_sample now rule channels r (ask r query) p)

  -- evalPromQL
  unfoldable pub eval_promql :
      ℕ → AlertRule F → List Webhook → Text → Option (PromqlSource F) → Pass F → Pass F
  eval_promql now rule hooks query none p = p
  eval_promql now rule hooks query (some source) p =
      observe_regions now rule (channels_for rule.channel_ids hooks) query source.query
        source.regions p

  -- evalRule: a rule whose source fails is logged and leaves the pass as it is.
  unfoldable pub eval_rule :
      ℕ → AlertRule F → List CustomerRef → List Webhook → World F → Pass F → Pass F
  eval_rule now rule refs hooks w p = elim rule.metric [
    | promql query ↦ eval_promql now rule hooks query w.promql_source p
    | per_tenant metric ↦ elim (w.metric metric rule.window_seconds) [
      | none ↦ p
      | some values ↦
          observe_customers now rule (channels_for rule.channel_ids hooks) values
            (customers_of rule refs) p
    ]
  ]

  unfoldable pub eval_rules :
      ℕ → List (AlertRule F) → List CustomerRef → List Webhook → World F → Pass F → Pass F
  eval_rules now [] refs hooks w p = p
  eval_rules now (r ∷ rs) refs hooks w p =
      eval_rules now rs refs hooks w (eval_rule now r refs hooks w p)

  -- The two phases: all rules, then the notifications.
  unfoldable pub run_pass :
      ℕ
      → Bool
      → List (AlertRule F)
      → List CustomerRef
      → List Webhook
      → World F
      → (Key → Bool)
      → Evaluated F
  run_pass now inhibit rules refs hooks w firing =
      let p = eval_rules now rules refs hooks w (start_pass firing) in
      record {
        firing = p.firing;
        sent = dispatch inhibit p.critical_scopes p.pending;
        failure = none;
      }

  -- The reads of the store, one after the other.
  unfoldable pub evaluate_rules :
      ℕ → Bool → List (AlertRule F) → World F → (Key → Bool) → Evaluated F
  evaluate_rules now inhibit [] w firing = unchanged firing none
  evaluate_rules now inhibit (r ∷ rs) w firing = elim w.refs [
    | none ↦ unchanged firing (some list_refs)
    | some refs ↦ elim w.hooks [
      | none ↦ unchanged firing (some list_channels)
      | some hooks ↦ run_pass now inhibit (r ∷ rs) refs hooks w firing
    ]
  ]

  -- Evaluate: a maintenance window silences the whole pass.
  unfoldable pub evaluate : ℕ → Bool → World F → (Key → Bool) → Evaluated F
  evaluate now inhibit w firing = elim w.maintenance_windows [
    | none ↦ unchanged firing (some list_windows)
    | some (window ∷ more) ↦ unchanged firing none
    | some [] ↦ elim w.rules [
      | none ↦ unchanged firing (some list_rules)
      | some rules ↦ evaluate_rules now inhibit rules w firing
    ]
  ]
