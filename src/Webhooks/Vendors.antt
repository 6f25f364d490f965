-- ===== src/Webhooks/Vendors.antt =====
-- vendors.go and the message texts of dispatcher.go. A text is its runes; the detail of a payload is
-- a list of its keys and values, each value with the text that fmt.Sprint makes of it, and the
-- layout of a time is an argument.
use otel_fleet.Prelude.{
  ℕ, Text, codes, text_eq, ◌==◌, Bool, false, not, Option, none, some, List, [], ◌∷◌, ◌++◌, length,
  take, leb, map, if◌then◌else◌,
}

-- A value of the detail: a string, or anything else with its text.
pub data Value : Type 0 where
  string other : Text → Value

abbrev pub sprint : Value → Text
sprint (string t) = t
sprint (other t) = t

pub record AgentInfo : Type 0 where
  pub id : Text
  pub name : Option Text
  pub class : Text
  pub customer_id : Option Text
  pub customer_name : Option Text

pub record Payload : Type 0 where
  pub event : Text
  pub occurred_at : ℕ
  pub agent : Option AgentInfo
  pub detail : List (Text × Value)

unfoldable pub lookup : Text → List (Text × Value) → Option Value
lookup k [] = none
lookup k ((j, v) ∷ d) = let rest = lookup k d in if j == k then some v else rest

abbrev pub alert_firing : Text
alert_firing = codes "alert.firing"

abbrev pub alert_resolved : Text
alert_resolved = codes "alert.resolved"

abbrev pub sprint_or : Text → Option Value → Text
sprint_or t none = t
sprint_or t (some v) = sprint v

-- A detail that is there and is not empty, or else the default.
abbrev nonempty_or : Text → Option Value → Text
nonempty_or t none = t
nonempty_or t (some v) = if sprint v == [] then t else sprint v

abbrev some_text : Option Text → Bool
some_text none = false
some_text (some t) = not (t == [])

abbrev text_of : Option Text → Text
text_of none = []
text_of (some t) = t

-- alertDedupKey
unfoldable pub alert_dedup_key : Payload → Text
alert_dedup_key p = elim (lookup (codes "rule") p.detail) [
  | some rule ↦
      codes "otel-fleet:"
      ++ sprint rule
      ++ codes ":"
      ++ nonempty_or (codes "all") (lookup (codes "customer") p.detail)
      ++ codes ":"
      ++ sprint_or [] (lookup (codes "metric") p.detail)
  | none ↦ elim p.agent [
    | some a ↦ codes "otel-fleet:" ++ p.event ++ codes ":" ++ a.id
    | none ↦ codes "otel-fleet:" ++ p.event
  ]
]

-- slackTitle
unfoldable pub slack_title : Text → Text × Text
slack_title event =
    if event == codes "agent_offline"
    then (codes ":red_circle:", codes "Agent offline")
    else if event == codes "agent_unhealthy"
    then (codes ":warning:", codes "Agent unhealthy")
    else if event == codes "agent_config_failed"
    then (codes ":x:", codes "Config apply failed")
    else if event == codes "test"
    then (codes ":bell:", codes "Test notification")
    else if event == alert_firing
    then (codes ":rotating_light:", codes "Alert firing")
    else if event == alert_resolved
    then (codes ":white_check_mark:", codes "Alert resolved")
    else (codes ":information_source:", event)

unfoldable pub event_summary : Payload → Text
event_summary p =
    codes "otel-fleet — " ++ (slack_title p.event).1 ++ elim (lookup (codes "rule") p.detail) [
      | some rule ↦ codes ": " ++ sprint rule
      | none ↦ elim p.agent [
        | none ↦ []
        | some a ↦ if some_text a.name then codes ": " ++ text_of a.name else []
      ]
    ]

unfoldable pub event_source : Payload → Text
event_source p =
    let from_detail = nonempty_or (codes "otel-fleet") (lookup (codes "customer") p.detail) in
    elim p.agent [
      | none ↦ from_detail
      | some a ↦
          if some_text a.customer_name
          then text_of a.customer_name
          else if some_text a.name
          then text_of a.name
          else from_detail
    ]

pub data PagerDutySeverity : Type 0 where
  critical error warning info : PagerDutySeverity

pub data Priority : Type 0 where
  p1 p2 p3 p4 p5 : Priority

-- The severity in the detail, if it is a string that names one.
unfoldable pub named_severity {ℓ} : {A : Type ℓ} → A → A → A → Option Value → Option A
named_severity c w i none = none
named_severity c w i (some (other t)) = none
named_severity c w i (some (string t)) =
    if t == codes "critical"
    then some c
    else if t == codes "warning"
    then some w
    else if t == codes "info"
    then some i
    else none

-- The switch on the event, for a payload without such a severity.
unfoldable pub by_event {ℓ} : {A : Type ℓ} → A → A → A → A → Text → A
by_event offline failed unhealthy rest event =
    if event == codes "agent_offline"
    then offline
    else if event == codes "agent_config_failed"
    then failed
    else if event == codes "agent_unhealthy"
    then unhealthy
    else rest

unfoldable pub pager_duty_severity : Payload → PagerDutySeverity
pager_duty_severity p =
    elim (named_severity critical warning info (lookup (codes "severity") p.detail)) [
      | some s ↦ s
      | none ↦ by_event critical error warning info p.event
    ]

unfoldable pub opsgenie_priority : Payload → Priority
opsgenie_priority p = elim (named_severity p1 p3 p5 (lookup (codes "severity") p.detail)) [
  | some s ↦ s
  | none ↦ by_event p1 p2 p3 p4 p.event
]

unfoldable pub truncate : Text → ℕ → Text
truncate s n = if leb (length s) n then s else take n s

unfoldable pub opsgenie_alias : Payload → Text
opsgenie_alias p = truncate (alert_dedup_key p) 512

unfoldable pub detail_strings : Payload → List (Text × Text)
detail_strings p = map (λ (kv : Text × Value). (kv.0, sprint kv.1)) p.detail

pub data Action : Type 0 where
  trigger resolve : Action

pub record PagerDutyPayload : Type 0 where
  pub summary : Text
  pub source : Text
  pub severity : PagerDutySeverity
  pub timestamp : Text
  pub custom_details : List (Text × Value)

pub record PagerDutyEvent : Type 0 where
  pub routing_key : Text
  pub event_action : Action
  pub dedup_key : Text
  pub payload : Option PagerDutyPayload

pub record OpsgenieAlert : Type 0 where
  pub message : Text
  pub alias : Text
  pub priority : Priority
  pub details : List (Text × Text)

module _ (rfc3339 : ℕ → Text) where
  -- pagerDutyBody
  unfoldable pub pager_duty_body : Payload → Text → PagerDutyEvent
  pager_duty_body p routing_key =
      if p.event == alert_resolved
      then record {
        routing_key = routing_key;
        event_action = resolve;
        dedup_key = alert_dedup_key p;
        payload = none;
      }
      else record {
        routing_key = routing_key;
        event_action = trigger;
        dedup_key = alert_dedup_key p;
        payload = some (record {
          summary = truncate (event_summary p) 1024;
          source = event_source p;
          severity = pager_duty_severity p;
          timestamp = rfc3339 p.occurred_at;
          custom_details = p.detail;
        });
      }

-- opsgenieCreateBody
unfoldable pub opsgenie_create_body : Payload → OpsgenieAlert
opsgenie_create_body p = record {
  message = truncate (event_summary p) 130;
  alias = opsgenie_alias p;
  priority = opsgenie_priority p;
  details = detail_strings p;
}
