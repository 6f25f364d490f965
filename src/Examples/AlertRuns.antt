-- ===== src/Examples/AlertRuns.antt =====
-- A pass with one critical and one warning rule on a customer.
use otel_fleet.Prelude.{
  ℕ, codes, text_eq, nat_eq, ◌≡◌, refl, Bool, true, false, none, some, [], ◌∷◌, ltb,
}
use otel_fleet.Alerting
use otel_fleet.Alerting.{
  AlertRule, CustomerRef, Webhook, Scope, Key, PendingNotify, World, Severity, channels_for, breach,
  notify, observe, observe_customers, customers_of, eval_rule, eval_rules, dispatch, run_pass,
  evaluate_rules, evaluate, has_channels,
}
use otel_fleet.Alerting.Transitions.{Accounted, evaluate-IsExplained}

abbrev rule : ℕ → Severity → AlertRule ℕ
rule id severity = record {
  id = id;
  name = codes "r";
  metric = Alerting.per_tenant (codes "error_logs");
  customer_id = none;
  comparison = Alerting.above;
  threshold = 10;
  window_seconds = 300;
  severity = severity;
  channel_ids = 5 ∷ 6 ∷ [];
}

abbrev hook : Webhook
hook = record { id = 5; enabled = true }

abbrev world : ℕ → World ℕ
world errors = record {
  maintenance_windows = some [];
  rules = some (rule 1 Alerting.warning ∷ rule 2 Alerting.critical ∷ []);
  refs = some (record { id = 3; name = codes "acme"; client_id = codes "cust_acme" } ∷ []);
  hooks = some (hook ∷ []);
  metric = λ m since. some (λ c. some errors);
  promql_source = none;
}

abbrev quiet : Key → Bool
quiet k = false

evaluate-IsExplained_example :
    Accounted ltb 0 60 true (world 50) quiet (evaluate ltb 0 60 true (world 50) quiet)
evaluate-IsExplained_example = evaluate-IsExplained ltb 0 60 true (world 50) quiet

abbrev note : ℕ → Severity → Bool → PendingNotify ℕ
note id severity firing = notify 60 (rule id severity) (hook ∷ []) (Scope.customer 3) 50 firing

-- With inhibition the warning is held back, and both are resolved in the next pass.
storm :
    ((evaluate ltb 0 60 true (world 50) quiet).sent ≡ note 2 Alerting.critical true ∷ [])
    × ((evaluate ltb 0 60 false (world 50) quiet).sent
        ≡ note 1 Alerting.warning true ∷ note 2 Alerting.critical true ∷ [])
unfolding evaluate evaluate_rules run_pass eval_rules eval_rule customers_of observe_customers
    observe breach channels_for dispatch
storm = (refl, refl)
