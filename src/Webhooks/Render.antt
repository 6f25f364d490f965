-- ===== src/Webhooks/Render.antt =====
-- render and the message for Slack in dispatcher.go. The cipher, the HMAC, the JSON text of a
-- payload, the escape of a path and the layout of a time are arguments; the random id of a delivery
-- is left out.
pub mod Resolution
use otel_fleet.Prelude.{
  ℕ, zero, suc, Text, codes, text_eq, ◌==◌, Bool, true, false, not, ◌&&◌, ◌||◌, Option, none, some,
  List, [], ◌∷◌, ◌++◌, ltb, nat_beq, map, if◌then◌else◌,
}
use otel_fleet.Webhooks.Vendors.{
  Value, string, sprint, AgentInfo, Payload, lookup, alert_resolved, slack_title, PagerDutyEvent,
  OpsgenieAlert, pager_duty_body, opsgenie_create_body, opsgenie_alias,
}

pub data WebhookType : Type 0 where
  generic slack pager_duty opsgenie : WebhookType

-- What render reads of a webhook; an empty `secret_enc` is no secret.
pub record Webhook : Type 0 where
  pub url : Text
  pub type : WebhookType
  pub secret_enc : Text

abbrev pub pager_duty_endpoint : Text
pager_duty_endpoint = codes "https://events.pagerduty.com/v2/enqueue"

abbrev pub opsgenie_endpoint : Text
opsgenie_endpoint = codes "https://api.opsgenie.com/v2/alerts"

-- severityColor
unfoldable pub severity_color : Text → Text
severity_color severity =
    if severity == codes "critical"
    then codes "#bb004e"
    else if severity == codes "warning"
    then codes "#ffcf00"
    else if severity == codes "info"
    then codes "#255bf5"
    else codes "#6c92f8"

pub record SlackMessage : Type 0 where
  pub color : Option Text
  pub text : Text

-- The order of sort.Strings.
unfoldable pub text_leb : Text → Text → Bool
text_leb [] t = true
text_leb (a ∷ s) [] = false
text_leb (a ∷ s) (b ∷ t) = ltb a b || (nat_beq a b && text_leb s t)

unfoldable pub insert_key : Text → List Text → List Text
insert_key k [] = k ∷ []
insert_key k (j ∷ ks) = let rest = insert_key k ks in if text_leb k j then k ∷ j ∷ ks else j ∷ rest

unfoldable pub sort_keys : List Text → List Text
sort_keys [] = []
sort_keys (k ∷ ks) = insert_key k (sort_keys ks)

-- strings.Join(lines, "\n")
unfoldable pub join_lines : List Text → Text
join_lines [] = []
join_lines (l ∷ []) = l
join_lines (l ∷ m ∷ ls) = l ++ 10 ∷ join_lines (m ∷ ls)

abbrev named : Text → Option Text → Text
named t none = t
named t (some n) = if n == [] then t else n

abbrev line_if : Text → Option Text → List Text
line_if lead none = []
line_if lead (some t) = if t == [] then [] else (lead ++ t) ∷ []

unfoldable pub agent_lines : Option AgentInfo → List Text
agent_lines none = []
agent_lines (some a) =
    (codes "*Agent:* " ++ named (codes "unknown") a.name ++ codes " (" ++ a.class ++ codes ")")
    ∷ line_if (codes "*Customer:* ") a.customer_name

abbrev value_text : Option Value → Text
value_text none = []
value_text (some v) = sprint v

abbrev pub color_of : Option Value → Option Text
color_of (some (string severity)) = if severity == [] then none else some (severity_color severity)
color_of _ = none

-- slackMessage
unfoldable pub slack_message : (ℕ → Text) → Payload → SlackMessage
slack_message rfc3339 p =
    let (emoji, title) = slack_title p.event in
    let keys = sort_keys (map (λ (kv : Text × Value). kv.0) p.detail) in
    let detail_line : Text → Text =
      λ k. codes "*" ++ k ++ codes ":* " ++ value_text (lookup k p.detail) in
    record {
      color = color_of (lookup (codes "severity") p.detail);
      text = join_lines (
          (emoji ++ codes " *otel-fleet* — " ++ title) ∷ agent_lines p.agent
          ++ map detail_line keys
          ++ (codes "_" ++ rfc3339 p.occurred_at ++ codes "_") ∷ []);
    }

pub data Body : Type 0 where
  slack_body : SlackMessage → Body
  pager_duty_event : PagerDutyEvent → Body
  opsgenie_create : OpsgenieAlert → Body
  opsgenie_close : Body
  generic_body : Payload → Body

-- The request of a delivery, with the headers that depend on the webhook.
pub record Request : Type 0 where
  pub url : Text
  pub body : Body
  pub event_type : Text
  pub authorization : Option Text
  pub signature : Option Text

module _ (decrypt : Text → Option Text) (sign : Text → Text → Text) (json : Payload → Text)
    (path_escape : Text → Text) (rfc3339 : ℕ → Text) where
  abbrev pub url_or : Text → Text → Text
  url_or default url = if url == [] then default else url

  -- The switch on the type, with the decrypted secret.
  unfoldable pub render_with : Webhook → Text → Payload → Text → Request
  render_with wh event_type p secret = elim wh.type [
    | slack ↦ record {
      url = wh.url;
      body = slack_body (slack_message rfc3339 p);
      event_type = event_type;
      authorization = none;
      signature = none;
    }
    | pager_duty ↦ record {
      url = url_or pager_duty_endpoint wh.url;
      body = pager_duty_event (pager_duty_body rfc3339 p secret);
      event_type = event_type;
      authorization = none;
      signature = none;
    }
    | opsgenie ↦
        let base = url_or opsgenie_endpoint wh.url in
        let close =
          base
          ++ codes "/"
          ++ path_escape (opsgenie_alias p)
          ++ codes "/close?identifierType=alias" in
        record {
          url = if p.event == alert_resolved then close else base;
          body =
              if p.event == alert_resolved
              then opsgenie_close
              else opsgenie_create (opsgenie_create_body p);
          event_type = event_type;
          authorization = some (codes "GenieKey " ++ secret);
          signature = none;
        }
    | generic ↦ record {
      url = wh.url;
      body = generic_body p;
      event_type = event_type;
      authorization = none;
      signature = if secret == [] then none else some (sign secret (json p));
    }
  ]

  -- render; none: the secret cannot be decrypted.
  unfoldable pub render : Webhook → Text → Payload → Option Request
  render wh event_type p =
      if wh.secret_enc == []
      then some (render_with wh event_type p [])
      else elim (decrypt wh.secret_enc) [
        | none ↦ none
        | some secret ↦ some (render_with wh event_type p secret)
      ]
