-- ===== src/Examples/QuotaRuns.antt =====
-- Two tenants at the quota: acme has ten items a second and a burst of two seconds.
use otel_fleet.Prelude.{
  ◌+◌, ◌-◌, ◌*◌, ◌≤◌, codes, Text, text_eq, ◌==◌, ◌≡◌, refl, true, false, none, some, List, [], ◌∷◌,
  ◌++◌, arith, leb, if◌then◌else◌, pos,
}
use otel_fleet.Quota.{
  second, Registry, new_registry, maybe_gc, take, retry_hint, lookup_or_new, refill, consume,
}
use otel_fleet.Quota.Budget.{Call, admitted, admitted_within_budget, credit_of}
use otel_fleet.Quota.Decisions.{allowed_exact, take_effect, retry_admits}
use otel_fleet.Quota.Admit.{
  AuthData, AttrValue, attr_tenant_id, attr_rate_limit_items_per_sec, Quota, admit, limit_from_auth,
  limit_of, passed, resource_exhausted, decision, rejected_items,
}
use otel_fleet.Quota.Admit.Verdict.{admit_verdict}

abbrev acme : Text
acme = codes "acme"

abbrev calls : List Call
calls =
    record { tenant = acme; limit = 10; items = 15; at = 1000 * second }
    ∷ record { tenant = codes "b"; limit = 3; items = 6; at = 1000 * second }
    ∷ record { tenant = acme; limit = 10; items = 15; at = 1000 * second }
    ∷ record { tenant = acme; limit = 10; items = 15; at = 1001 * second }
    ∷ []

abbrev start : Registry
start = new_registry (2 * second)

-- The third call is refused, and the fourth one is admitted after a second.
calls_admit : admitted acme calls start ≡ 30
unfolding admitted take maybe_gc lookup_or_new refill consume retry_hint
calls_admit = refl

admitted_within_budget_example :
    admitted acme calls start * second ≤ 10 * (2 * second) + (1001 * second - 1000 * second) * 10
admitted_within_budget_example =
    admitted_within_budget acme 10 (2 * second) calls (1000 * second) (1001 * second) (omega arith)
      ((λ e. refl), ((λ e. cc), ((λ e. refl), ((λ e. refl), tt)))) (omega arith)

allowed_exact_example :
    (take acme 10 15 (1000 * second) start).allowed
    ≡ leb (15 * second) (credit_of acme 10 (1000 * second) start)
allowed_exact_example = allowed_exact acme 10 15 (1000 * second) start (omega arith) tt

take_effect_example :
    (credit_of acme 10 (1000 * second) (take acme 10 15 (1000 * second) start).registry ≡ (
      if (take acme 10 15 (1000 * second) start).allowed
      then credit_of acme 10 (1000 * second) start - 15 * second
      else credit_of acme 10 (1000 * second) start))
    × (credit_of (codes "b") 3 (1000 * second) (take acme 10 15 (1000 * second) start).registry
        ≡ credit_of (codes "b") 3 (1000 * second) start)
take_effect_example =
    take_effect acme 10 15 (1000 * second) start (codes "b") 3 (omega arith) tt (λ e. cc)

-- A bucket that holds one token.
abbrev drained : Registry
drained = record start {
  buckets = λ k.
      if k == acme
      then some
          (record { tokens = second; capacity = 20 * second; rate = 10; last_seen = 1000 * second })
      else none;
  last_gc = 1000 * second;
}

retry_admits_example :
    (take acme 10 11 (1002 * second) (take acme 10 11 (1000 * second) drained).registry).allowed
    ≡ true
unfolding take maybe_gc lookup_or_new refill consume retry_hint
retry_admits_example =
    retry_admits acme 10 11 (1000 * second) drained (1002 * second) (omega arith)
      (record { rate = refl; capacity = refl; bounded = omega arith }) (omega arith) (omega arith)
      refl (omega arith) (omega arith)

abbrev acme_auth : AuthData
acme_auth name =
    if name == attr_tenant_id
    then AttrValue.string acme
    else if name == attr_rate_limit_items_per_sec
    then AttrValue.int64 (pos 10)
    else AttrValue.other

abbrev quota : Quota
quota = record { registry = drained; metrics = [] }

admit_verdict_example :
    let credit = credit_of acme 10 (1000 * second) drained in
    let outcome = admit (some acme_auth) (codes "logs") 11 (1000 * second) quota in
    (outcome.1 ≡ (
      if leb (11 * second) credit
      then passed
      else resource_exhausted acme
          (pos 10)
          11
          (codes "logs")
          (retry_hint (11 * second - credit) 10)))
    × (outcome.0.metrics
        ≡ []
          ++ (if leb (11 * second) credit
              then decision acme true ∷ []
              else decision acme false ∷ rejected_items acme (codes "logs") 11 ∷ []))
unfolding limit_from_auth limit_of
admit_verdict_example =
    admit_verdict acme_auth (codes "logs") 11 (1000 * second) quota 9 (omega arith)
      (record { rate = refl; capacity = refl; bounded = omega arith }) (λ e. cc) refl (omega arith)

-- The defensive readings of the limit.
limit_of_strings :
    (limit_of (AttrValue.string (codes " +42x")) ≡ pos 42)
    × (limit_of (AttrValue.string (194 ∷ 160 ∷ codes "1_0")) ≡ pos 1)
    × (limit_of (AttrValue.string (codes "x")) ≡ pos 0)
    × (limit_of (AttrValue.string (codes "9223372036854775808")) ≡ pos 0)
unfolding limit_of
limit_of_strings = (refl, refl, refl, refl)
