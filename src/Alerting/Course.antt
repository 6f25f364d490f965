-- ===== src/Alerting/Course.antt =====
-- The loops of internal/alerting, as one walk over the observations of the pass.
use otel_fleet.Prelude.{
  ◌≡◌, refl, ◌∙◌, sym, ap, inl, inr, ℕ, Text, nat_eq, ◌==◌, Bool, Option, none, some, List, [], ◌∷◌,
  ◌++◌, map, find?, Map, Option-cases,
}
use otel_fleet.Alerting
use otel_fleet.Alerting.{
  AlertRule, CustomerRef, Webhook, Comparison, Pass, Sample, PromqlSource, World, channels_for,
  breach, observe, observe_customers, customers_of, observe_sample, observe_regions, eval_promql,
  eval_rule, eval_rules,
}
use otel_fleet.Alerting.Observed.{
  Observation, reachable, watched, exceeds, of_customer, of_sample, of_source, of_values, of_metric,
  observations, concat_map,
}

pub channels_for-reachable :
    (ids : List ℕ) (hooks : List Webhook) → channels_for ids hooks ≡ reachable hooks ids
unfolding channels_for
channels_for-reachable [] hooks = refl
channels_for-reachable (id ∷ ids) hooks =
    elim (Option-cases (find? (λ (h : Webhook). h.id == id) hooks)) [
      | inl n ↦ rw (n, channels_for) (channels_for-reachable ids hooks)
      | inr (h, e) ↦ rw (e, channels_for) (ap (λ l. h ∷ l) (channels_for-reachable ids hooks))
    ]

exceeds_lem :
    {F : Type 0} (lt : F → F → Bool) (nothing : F) (c : Comparison) (v t : F)
    → breach lt c v t ≡ exceeds lt nothing c v t
unfolding breach
exceeds_lem lt nothing Alerting.below v t = refl
exceeds_lem lt nothing Alerting.above v t = refl
exceeds_lem lt nothing (Alerting.other c) v t = refl

module _ {F : Type 0} (now : ℕ) (hooks : List Webhook) where
  -- One observation in the pass.
  abbrev pub see : Pass F → Observation F → Pass F
  see p o = observe now o.rule (channels_for o.rule.channel_ids hooks) o.scope o.value o.breached p

  unfoldable pub see_all : Pass F → List (Observation F) → Pass F
  see_all p [] = p
  see_all p (o ∷ os) = see_all (see p o) os

  see_all-append :
      (p : Pass F) (os qs : List (Observation F)) → see_all p (os ++ qs) ≡ see_all (see_all p os) qs
  unfolding see_all
  see_all-append p [] qs = refl
  see_all-append p (o ∷ os) qs = see_all-append (see p o) os qs

module _ {F : Type 0} (lt : F → F → Bool) (nothing : F) (now : ℕ) (hooks : List Webhook)
    (rule : AlertRule F) where
  abbrev channels : List Webhook
  channels = channels_for rule.channel_ids hooks

  customers_seen :
      (values : Map Text F) (refs : List CustomerRef) (p : Pass F)
      → observe_customers lt nothing now rule channels values refs p
        ≡ see_all now hooks p (map (of_customer lt nothing rule values) refs)
  unfolding observe_customers see_all
  customers_seen values [] p = refl
  customers_seen values (ref ∷ refs) p =
      rw
        (exceeds_lem lt nothing rule.comparison
          (Alerting.or_nothing lt nothing (values ref.client_id)) rule.threshold)
        (customers_seen values refs _)

  sample_seen :
      (r : Text) (x : Sample F) (p : Pass F)
      → observe_sample lt nothing now rule channels r x p
        ≡ see_all now hooks p (of_sample lt nothing rule r x)
  unfolding observe_sample see_all
  sample_seen r Alerting.query_failed p = refl
  sample_seen r Alerting.no_data p = refl
  sample_seen r (Alerting.sample v) p = rw (exceeds_lem lt nothing rule.comparison v rule.threshold)

  regions_seen :
      (query : Text) (ask : Text → Text → Sample F) (rs : List Text) (p : Pass F)
      → observe_regions lt nothing now rule channels query ask rs p
        ≡ see_all now hooks p
            (concat_map (λ (r : Text). of_sample lt nothing rule r (ask r query)) rs)
  unfolding observe_regions see_all
  regions_seen query ask [] p = refl
  regions_seen query ask (r ∷ rs) p =
      ap (λ q. observe_regions lt nothing now rule channels query ask rs q)
        (sample_seen r (ask r query) p)
      ∙ regions_seen query ask rs _
      ∙ sym (see_all-append now hooks p (of_sample lt nothing rule r (ask r query)) _)

  source_seen :
      (query : Text) (source : Option (PromqlSource F)) (p : Pass F)
      → eval_promql lt nothing now rule hooks query source p
        ≡ see_all now hooks p (of_source lt nothing rule query source)
  unfolding eval_promql see_all
  source_seen query none p = refl
  source_seen query (some source) p = regions_seen query source.query source.regions p

  watched_lem : (refs : List CustomerRef) → customers_of rule refs ≡ watched rule.customer_id refs
  unfolding customers_of
  watched_lem refs = elim (Option-cases rule.customer_id) [
    | inl n ↦ rw (n, customers_of)
    | inr (id, e) ↦ elim (Option-cases (find? (λ (r : CustomerRef). r.id == id) refs)) [
      | inl n ↦ rw (e, customers_of, n)
      | inr (ref, f) ↦ rw (e, customers_of, f)
    ]
  ]

module _ {F : Type 0} (lt : F → F → Bool) (nothing : F) (now : ℕ) (hooks : List Webhook)
    (w : World F) (refs : List CustomerRef) where
  rule_seen :
      (rule : AlertRule F) (p : Pass F)
      → eval_rule lt nothing now rule refs hooks w p
        ≡ see_all now hooks p (of_metric lt nothing w refs rule rule.metric)
  unfolding eval_rule see_all
  rule_seen rule p = by_metric rule.metric
    where
      by_values :
          (o : Option (Map Text F))
          → (elim o [
            | none ↦ p
            | some values ↦
                observe_customers lt nothing now rule
                  (channels_for rule.channel_ids hooks)
                  values
                  (customers_of rule refs)
                  p
          ])
            ≡ see_all now hooks p (of_values lt nothing rule refs o)
      by_values none = refl
      by_values (some values) =
          customers_seen lt nothing now hooks rule values (customers_of rule refs) p
          ∙ ap (λ l. see_all now hooks p (map (of_customer lt nothing rule values) l))
              (watched_lem lt nothing now hooks rule refs)

      by_metric :
          (m : Alerting.Metric)
          → (elim m [
            | Alerting.promql query ↦ eval_promql lt nothing now rule hooks query w.promql_source p
            | Alerting.per_tenant metric ↦ elim (w.metric metric rule.window_seconds) [
              | none ↦ p
              | some values ↦
                  observe_customers lt nothing now rule
                    (channels_for rule.channel_ids hooks)
                    values
                    (customers_of rule refs)
                    p
            ]
          ])
            ≡ see_all now hooks p (of_metric lt nothing w refs rule m)
      by_metric (Alerting.promql query) =
          source_seen lt nothing now hooks rule query w.promql_source p
      by_metric (Alerting.per_tenant metric) = by_values (w.metric metric rule.window_seconds)

  -- The loops see the observations, one after the other.
  pub rules_seen :
      (rules : List (AlertRule F)) (p : Pass F)
      → eval_rules lt nothing now rules refs hooks w p
        ≡ see_all now hooks p (observations lt nothing w refs rules)
  unfolding eval_rules see_all
  rules_seen [] p = refl
  rules_seen (r ∷ rs) p =
      ap (λ q. eval_rules lt nothing now rs refs hooks w q) (rule_seen r p)
      ∙ rules_seen rs _
      ∙ sym (see_all-append now hooks p (of_metric lt nothing w refs r r.metric) _)
