-- ===== src/Quota/Admit/Verdict.antt =====
-- The verdict on a batch, and what the processor does when there is no limit.
use otel_fleet.Prelude.{
  ℕ, suc, ◌*◌, ◌-◌, ◌≤◌, ◌<◌, Text, text_eq, text_beq_iff, beq_ne, nat_eq, ◌≡◌, ◌≢◌, true, false,
  leb, if◌then◌else◌, none, some, [], ◌∷◌, ◌++◌, pos, arith, ◌⊎◌, inl, inr,
}
use otel_fleet.Quota.{second, idle_timeout, take, retry_hint}
use otel_fleet.Quota.Credit.{AllSized}
use otel_fleet.Quota.Budget.{credit_of}
use otel_fleet.Quota.Decisions.{allowed_exact, retry_exact}
use otel_fleet.Quota.Admit.{
  AuthData, Quota, passed, resource_exhausted, attr_tenant_id, limit_from_auth, string_of,
  is_nonpositive, report, admit, decision, rejected_items,
}

module _ (auth : AuthData) (signal : Text) (n now : ℕ) (q : Quota) where
  abbrev tenant : Text
  tenant = string_of (auth attr_tenant_id)

  -- Without an auth context, a tenant, a positive limit or an item the batch passes and nothing
  -- is counted or taken.
  pub admit_unlimited :
      (tenant ≡ []) ⊎ (is_nonpositive (limit_from_auth auth) ≡ true) ⊎ (n ≡ 0)
      → (admit (some auth) signal n now q ≡ (q, passed)) × (admit none signal n now q ≡ (q, passed))
  unfolding admit
  admit_unlimited (inl h) = ground (arith, text_beq_iff tenant [])
  admit_unlimited (inr h) = ground (arith)

  admit_limited :
      (limit : ℕ)
      → tenant ≢ []
      → limit_from_auth auth ≡ pos (suc limit)
      → 0 < n
      → admit (some auth) signal n now q
        ≡ report tenant
            (pos (suc limit))
            signal
            n
            q.metrics
            (take tenant (suc limit) n now q.registry)
  unfolding admit
  admit_limited limit named e some_items = rw (beq_ne tenant [] named, e) (ground arith)

  -- A batch with items of a tenant with a name and a positive limit passes if and only if the
  -- tenant's credit covers it, with a burst no longer than the idle timeout and a bucket made under
  -- the limit; otherwise the status names the tenant, the limit and the batch, and asks for the wait
  -- that the deficit takes. Either way the decision is counted, and a rejection counts the items by
  -- signal.
  pub admit_verdict :
      (limit : ℕ)
      → q.registry.burst ≤ idle_timeout
      → AllSized (suc limit) q.registry.burst (q.registry.buckets tenant)
      → tenant ≢ []
      → limit_from_auth auth ≡ pos (suc limit)
      → 0 < n
      → let credit = credit_of tenant (suc limit) now q.registry in
        let outcome = admit (some auth) signal n now q in
        (outcome.1 ≡ (
          if leb (n * second) credit
          then passed
          else resource_exhausted tenant
              (pos (suc limit))
              n
              signal
              (retry_hint (n * second - credit) (suc limit))))
        × (outcome.0.metrics
            ≡ q.metrics
              ++ (if leb (n * second) credit
                  then decision tenant true ∷ []
                  else decision tenant false ∷ rejected_items tenant signal n ∷ []))
  unfolding report
  admit_verdict limit small sized named e some_items =
      let a = allowed_exact tenant (suc limit) n now q.registry small sized in
      let w = retry_exact tenant (suc limit) n now q.registry small sized in
      rw (admit_limited limit named e some_items, a, w) (ground arith)
