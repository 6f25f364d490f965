-- ===== src/Alerting/Transitions.antt =====
-- What a pass of internal/alerting leaves and sends.
use otel_fleet.Prelude.{
  ◌≡◌, ◌≢◌, ◌⊎◌, ◌↔◌, refl, ap, sym, ◌∙◌, subst, inl, inr, ℕ, Bool, true, false, Option, none, some,
  List, [], ◌∷◌, filter, All,
}
use otel_fleet.Alerting
use otel_fleet.Alerting.{
  AlertRule, CustomerRef, Webhook, Key, PendingNotify, Pass, World, Evaluated, in_scopes,
  eval_rules, dispatch, start_pass, run_pass, evaluate_rules, evaluate,
}
use otel_fleet.Alerting.Observed.{key_eq, scope_eq, observations}
use otel_fleet.Alerting.Course.{rules_seen}
use otel_fleet.Alerting.Changes.{Alternates, last_seen, Tells, Course, see_all-Course}
use otel_fleet.Alerting.Storms.{
  IsHeld, IsStorm, is_sent, is_sent_iff, dispatch-filter, cause_marks, marked_by_cause,
}

-- The pass does not come to its rules: a maintenance window is open, there are none, or a read fails.
abbrev pub Stops : {F : Type 0} → World F → Type 0
Stops w =
    (w.maintenance_windows ≢ some [])
    ⊎ (w.rules ≡ none)
    ⊎ (w.rules ≡ some [])
    ⊎ (w.refs ≡ none)
    ⊎ (w.hooks ≡ none)

module _ {F : Type 0} (lt : F → F → Bool) (nothing : F) (now : ℕ) (inhibit : Bool) (w : World F)
    (firing : Key → Bool) where
  -- What a pass over its rules did.
  pub record IsExplained (e : Evaluated F) : Type 0 where
    pub rules : List (AlertRule F)
    pub refs : List CustomerRef
    pub hooks : List Webhook
    pub has_windows : w.maintenance_windows ≡ some []
    pub has_rules : w.rules ≡ some rules
    pub has_refs : w.refs ≡ some refs
    pub has_hooks : w.hooks ≡ some hooks
    pub transitions : List (PendingNotify F)
    pub settled :
        (k : Key) → e.firing k ≡ last_seen k (firing k) (observations lt nothing w refs rules)
    pub accounts : (k : Key) → Alternates k (firing k) transitions (e.firing k)
    pub told : All (Tells now hooks (observations lt nothing w refs rules)) transitions
    pub passes : PendingNotify F → Bool
    pub sends : e.sent ≡ filter passes transitions
    pub exact :
        (n : PendingNotify F)
        → (passes n ≡ true)
          ↔ ((n.channels ≢ []) × ¬ IsHeld inhibit (observations lt nothing w refs rules) n)

  abbrev pub Accounted : Evaluated F → Type 0
  Accounted e = (Stops w × (e.firing ≡ firing) × (e.sent ≡ [])) ⊎ IsExplained e

  quiet : (f : Option Alerting.Failure) → Stops w → Accounted (Alerting.unchanged firing f)
  quiet f s = inl (s, refl, refl)

  pass-IsExplained :
      (rules : List (AlertRule F)) (refs : List CustomerRef) (hooks : List Webhook)
      → w.maintenance_windows ≡ some []
      → w.rules ≡ some rules
      → w.refs ≡ some refs
      → w.hooks ≡ some hooks
      → IsExplained (run_pass lt nothing now inhibit rules refs hooks w firing)
  unfolding run_pass
  pass-IsExplained rules refs hooks a b c d =
      let os = observations lt nothing w refs rules in
      let p = start_pass firing in
      let q = eval_rules lt nothing now rules refs hooks w p in
      let seen = rules_seen lt nothing now hooks w refs rules p in
      let x = subst (Course now hooks os p) (sym seen) (see_all-Course now hooks os p) in
      record {
        rules = rules;
        refs = refs;
        hooks = hooks;
        has_windows = a;
        has_rules = b;
        has_refs = c;
        has_hooks = d;
        transitions = x.added;
        settled = x.settled;
        accounts = x.accounts;
        told = x.told;
        passes = is_sent inhibit q.critical_scopes;
        sends =
            ap (dispatch inhibit q.critical_scopes) x.grown
            ∙ dispatch-filter inhibit q.critical_scopes x.added;
        exact = λ n. is_sent_iff inhibit q.critical_scopes os n (
            subst
              (λ (r : Pass F). (in_scopes n.scope r.critical_scopes ≡ true) ↔ IsStorm os n.scope)
              (sym seen)
              (
                λ h. only (marked_by_cause now hooks os p n.scope h),
                λ h. cause_marks now hooks os p n.scope (inl h),
              ));
      }
    where
      only : {S : Type 0} → S ⊎ (false ≡ true) → S
      only (inl z) = z
      only (inr h) = cc h

  rules-Accounted :
      (rules : List (AlertRule F))
      → w.maintenance_windows ≡ some []
      → w.rules ≡ some rules
      → Accounted (evaluate_rules lt nothing now inhibit rules w firing)
  unfolding evaluate_rules
  rules-Accounted [] a b = quiet none (inr (inr (inl b)))
  rules-Accounted (r ∷ rs) a b = by_refs w.refs refl
    where
      by_hooks :
          (refs : List CustomerRef) (o : Option (List Webhook))
          → w.refs ≡ some refs
          → w.hooks ≡ o
          → Accounted (elim o [
            | none ↦ Alerting.unchanged firing (some Alerting.list_channels)
            | some hooks ↦ run_pass lt nothing now inhibit (r ∷ rs) refs hooks w firing
          ])
      by_hooks refs none c d = quiet _ (inr (inr (inr (inr d))))
      by_hooks refs (some hooks) c d = inr (pass-IsExplained (r ∷ rs) refs hooks a b c d)

      by_refs :
          (o : Option (List CustomerRef))
          → w.refs ≡ o
          → Accounted (elim o [
            | none ↦ Alerting.unchanged firing (some Alerting.list_refs)
            | some refs ↦ elim w.hooks [
              | none ↦ Alerting.unchanged firing (some Alerting.list_channels)
              | some hooks ↦ run_pass lt nothing now inhibit (r ∷ rs) refs hooks w firing
            ]
          ])
      by_refs none c = quiet _ (inr (inr (inr (inl c))))
      by_refs (some refs) c = by_hooks refs w.hooks c refl

  -- A pass whose store and sources answer in any way: with a maintenance window, without rules, or
  -- when a read of the store fails, nothing is sent and no state changes. Otherwise each rule and scope
  -- is left as its last observation says, in breach or not, and as it was where there is none. Notices
  -- are noted exactly when its state changes, alert_firing and alert_resolved by turns and the last one
  -- for the state it is left in, each that of an observation of the pass, with its value and the
  -- rule's channels. Of these, in this order, are sent all whose rule has a channel that exists, but
  -- with inhibition on, not those that start to fire, are not critical, and have a critical rule in
  -- breach in their scope in the same pass.
  pub evaluate-IsExplained : Accounted (evaluate lt nothing now inhibit w firing)
  unfolding evaluate
  evaluate-IsExplained = by_windows w.maintenance_windows refl
    where
      by_rules :
          (o : Option (List (AlertRule F)))
          → w.maintenance_windows ≡ some []
          → w.rules ≡ o
          → Accounted (elim o [
            | none ↦ Alerting.unchanged firing (some Alerting.list_rules)
            | some rules ↦ evaluate_rules lt nothing now inhibit rules w firing
          ])
      by_rules none a b = quiet _ (inr (inl b))
      by_rules (some rules) a b = rules-Accounted rules a b

      by_windows :
          (o : Option (List ℕ))
          → w.maintenance_windows ≡ o
          → Accounted (elim o [
            | none ↦ Alerting.unchanged firing (some Alerting.list_windows)
            | some (window ∷ more) ↦ Alerting.unchanged firing none
            | some [] ↦ elim w.rules [
              | none ↦ Alerting.unchanged firing (some Alerting.list_rules)
              | some rules ↦ evaluate_rules lt nothing now inhibit rules w firing
            ]
          ])
      by_windows none a = quiet _ (inl (λ (e : w.maintenance_windows ≡ some []). cc (a, e)))
      by_windows (some []) a = by_rules w.rules a refl
      by_windows (some (window ∷ more)) a =
          quiet none (inl (λ (e : w.maintenance_windows ≡ some []). cc (a, e)))
