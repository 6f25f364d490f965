-- ===== src/Alerting/Storms.antt =====
-- Which notices of a pass of internal/alerting are sent.
use otel_fleet.Prelude.{
  ◌≡◌, ◌≢◌, ◌⊎◌, ◌↔◌, refl, ap, subst, inl, inr, ℕ, Bool, true, false, not, ◌&&◌, List, [], ◌∷◌,
  filter, if◌then◌else◌, arith, Bool-cases,
}
use otel_fleet.Alerting
use otel_fleet.Alerting.{
  Webhook, Scope, PendingNotify, Pass, Severity, is_critical, in_scopes, has_channels, observe,
  dispatch, same_scope,
}
use otel_fleet.Alerting.Course.{see, see_all}
use otel_fleet.Alerting.Observed.{Observation, same_scope→eq, same_scope_self}
use otel_fleet.Alerting.Changes.{Among}

module _ {F : Type 0} where
  -- A critical rule is in breach in the scope.
  abbrev pub IsStorm : List (Observation F) → Scope → Type 0
  IsStorm os s =
      (o : Observation F) × Among os o
      × (o.breached ≡ true)
      × (o.rule.severity ≡ Alerting.critical)
      × (o.scope ≡ s)

  -- Inhibition holds a notice back.
  abbrev pub IsHeld : Bool → List (Observation F) → PendingNotify F → Type 0
  IsHeld inhibit os n =
      (inhibit ≡ true) × (n.firing ≡ true) × (n.severity ≢ Alerting.critical) × IsStorm os n.scope

critical_eq : (s : Severity) → is_critical s ≡ true → s ≡ Alerting.critical
critical_eq Alerting.critical h = refl
critical_eq Alerting.warning h = cc h
critical_eq Alerting.info h = cc h

critical_self : (s : Severity) → s ≡ Alerting.critical → is_critical s ≡ true
critical_self s e = rw e

module _ {F : Type 0} (now : ℕ) (hooks : List Webhook) where
  pub cause_marks :
      (os : List (Observation F)) (p : Pass F) (s : Scope)
      → IsStorm os s ⊎ (in_scopes s p.critical_scopes ≡ true)
      → in_scopes s (see_all now hooks p os).critical_scopes ≡ true
  unfolding see_all observe
  cause_marks [] p s (inl (o, i, b, c, z)) = absurd i
  cause_marks [] p s (inr h) = h
  cause_marks (x ∷ os) p s (inl (o, inr i, b, c, z)) =
      cause_marks os (see now hooks p x) s (inl (o, i, b, c, z))
  cause_marks (x ∷ os) p s (inl (o, inl e, b, c, z)) = cause_marks os (see now hooks p x) s (
      inr (
        rw
          (
            subst (λ y. y.breached ≡ true) e b,
            critical_self x.rule.severity (subst (λ y. y.rule.severity ≡ Alerting.critical) e c),
          )
          (rw (same_at x (subst (λ y. y.scope ≡ s) e z)))))
    where
      same_at : (y : Observation F) → y.scope ≡ s → same_scope y.scope s ≡ true
      same_at y k = rw k (same_scope_self s)
  cause_marks (x ∷ os) p s (inr h) =
      cause_marks os (see now hooks p x) s (inr (kept (x.breached && is_critical x.rule.severity)))
    where
      kept :
          (b : Bool)
          → in_scopes s (if b then x.scope ∷ p.critical_scopes else p.critical_scopes) ≡ true
      kept false = h
      kept true = elim (Bool-cases (same_scope x.scope s)) [ inl q ↦ rw q | inr q ↦ rw q h ]

  pub marked_by_cause :
      (os : List (Observation F)) (p : Pass F) (s : Scope)
      → in_scopes s (see_all now hooks p os).critical_scopes ≡ true
      → IsStorm os s ⊎ (in_scopes s p.critical_scopes ≡ true)
  unfolding see_all observe
  marked_by_cause [] p s h = inr h
  marked_by_cause (x ∷ os) p s h =
      from (marked_by_cause os (see now hooks p x) s h) (Bool-cases x.breached)
        (Bool-cases (is_critical x.rule.severity)) (Bool-cases (same_scope x.scope s))
    where
      from :
          IsStorm os s ⊎ (in_scopes s (see now hooks p x).critical_scopes ≡ true)
          → (x.breached ≡ true) ⊎ (x.breached ≡ false)
          → (is_critical x.rule.severity ≡ true) ⊎ (is_critical x.rule.severity ≡ false)
          → (same_scope x.scope s ≡ true) ⊎ (same_scope x.scope s ≡ false)
          → IsStorm (x ∷ os) s ⊎ (in_scopes s p.critical_scopes ≡ true)
      from (inl (o, i, u, v, z)) b c d = inl (o, inr i, u, v, z)
      from (inr k) (inr b) c d = inr (rw b at k)
      from (inr k) (inl b) (inr c) d = inr (rw (b, c) at k)
      from (inr k) (inl b) (inl c) (inl d) =
          inl (x, inl refl, b, critical_eq x.rule.severity c, same_scope→eq x.scope s d)
      from (inr k) (inl b) (inl c) (inr d) = inr (rw (b, c, d) at k)

channels_iff : (l : List Webhook) → (has_channels l ≡ true) ↔ (l ≢ [])
channels_iff [] = (λ e. cc e, λ f. absurd (f refl))
channels_iff (h ∷ hs) = (λ _ e. cc e, λ _. refl)

both_ways : (b : Bool) → b ≡ true → b ≡ false → ⊥
both_ways b h k = cc

module _ {F : Type 0} (inhibit : Bool) (scopes : List Scope) where
  abbrev pub is_sent : PendingNotify F → Bool
  is_sent n =
      not (inhibit && n.firing && not (is_critical n.severity) && in_scopes n.scope scopes)
      && has_channels n.channels

  pub dispatch-filter :
      (ns : List (PendingNotify F)) → dispatch inhibit scopes ns ≡ filter is_sent ns
  unfolding dispatch
  dispatch-filter [] = refl
  dispatch-filter (n ∷ ns) =
      elim (Bool-cases
        (inhibit && n.firing && not (is_critical n.severity) && in_scopes n.scope scopes)) [
          | inl h ↦ rw h (dispatch-filter ns)
          | inr h ↦ elim (Bool-cases (has_channels n.channels)) [
            | inl k ↦ rw (h, k) (ap (λ l. n ∷ l) (dispatch-filter ns))
            | inr k ↦ rw (h, k) (dispatch-filter ns)
          ]
        ]

  -- A notice is sent where its rule has a channel and inhibition does not hold it back.
  pub is_sent_iff :
      (os : List (Observation F)) (n : PendingNotify F)
      → ((in_scopes n.scope scopes ≡ true) ↔ IsStorm os n.scope)
      → (is_sent n ≡ true) ↔ ((n.channels ≢ []) × ¬ IsHeld inhibit os n)
  is_sent_iff os n storm = (
    λ h. (
      (channels_iff n.channels).0 (ground arith),
      λ (i, f, c, s). by_severity h i f (Bool-cases (is_critical n.severity)) c (storm.1 s),
    ),
    λ (c, held).
        sent (Bool-cases inhibit) (Bool-cases n.firing) (Bool-cases (is_critical n.severity))
          (Bool-cases (in_scopes n.scope scopes)) ((channels_iff n.channels).1 c) held,
  )
    where
      by_severity :
          is_sent n ≡ true
          → inhibit ≡ true
          → n.firing ≡ true
          → (is_critical n.severity ≡ true) ⊎ (is_critical n.severity ≡ false)
          → n.severity ≢ Alerting.critical
          → in_scopes n.scope scopes ≡ true
          → ⊥
      by_severity h i f (inl q) c s = c (critical_eq n.severity q)
      by_severity h i f (inr q) c s = ground arith

      sent :
          (inhibit ≡ true) ⊎ (inhibit ≡ false)
          → (n.firing ≡ true) ⊎ (n.firing ≡ false)
          → (is_critical n.severity ≡ true) ⊎ (is_critical n.severity ≡ false)
          → (in_scopes n.scope scopes ≡ true) ⊎ (in_scopes n.scope scopes ≡ false)
          → has_channels n.channels ≡ true
          → ¬ IsHeld inhibit os n
          → is_sent n ≡ true
      sent (inr i) f c s k held = ground arith
      sent (inl i) (inr f) c s k held = ground arith
      sent (inl i) (inl f) (inl c) s k held = ground arith
      sent (inl i) (inl f) (inr c) (inr s) k held = ground arith
      sent (inl i) (inl f) (inr c) (inl s) k held = absurd (
          held (
            i,
            f,
            λ (e : n.severity ≡ Alerting.critical). both_ways _ (critical_self n.severity e) c,
            storm.0 s,
          ))
