-- ===== src/Alerting/Changes.antt =====
-- The changes that a walk over the observations of a pass makes (internal/alerting).
use mathlib.Core.List.{append_assoc, append-nil}
use otel_fleet.Prelude.{
  ◌≡◌, ◌⊎◌, refl, ap, sym, ◌∙◌, subst, inl, inr, ℕ, ◌==◌, Bool, true, false, not, List, [], ◌∷◌,
  ◌++◌, All, All-append, if◌then◌else◌, arith, Bool-cases,
}
use otel_fleet.Alerting.{
  Webhook, Key, PendingNotify, Pass, is_transition, channels_for, notify, observe, same_key,
}
use otel_fleet.Alerting.Observed.{
  Observation, key_of, key_eq, same_key→eq, scope_eq, event_when, notice,
}
use otel_fleet.Alerting.Course.{channels_for-reachable, see, see_all}

module _ {F : Type 0} where
  -- The notices about the key change its state each, and say so: firing, resolved, and so on.
  abbrev pub Alternates : Key → Bool → List (PendingNotify F) → Bool → Type 0
  Alternates k was [] now = was ≡ now
  Alternates k was (n ∷ ns) now =
      if (n.payload.rule, n.payload.about) == k
      then (n.payload.event ≡ event_when (not was)) × Alternates k (not was) ns now
      else Alternates k was ns now

  -- What the last observation of the key said, or else what it was.
  abbrev pub last_seen : Key → Bool → List (Observation F) → Bool
  last_seen k was [] = was
  last_seen k was (o ∷ os) = last_seen k (if key_of o == k then o.breached else was) os

  abbrev pub Among : List (Observation F) → Observation F → Type 0
  Among [] o = ⊥
  Among (x ∷ os) o = (o ≡ x) ⊎ Among os o

  -- The notice is that of one of the observations.
  abbrev pub Tells : ℕ → List Webhook → List (Observation F) → PendingNotify F → Type 0
  Tells now hooks os n = (o : Observation F) × Among os o × (n ≡ notice now hooks o)

  Alternates-append :
      (k : Key) (a b c : Bool) (xs ys : List (PendingNotify F))
      → Alternates k a xs b
      → Alternates k b ys c
      → Alternates k a (xs ++ ys) c
  Alternates-append k a b c [] ys h g = rw h g
  Alternates-append k a b c (n ∷ xs) ys h g =
      elim (Bool-cases ((n.payload.rule, n.payload.about) == k)) [
        | inl p ↦ let h' = rw p at h in rw p (h'.0, Alternates-append k (not a) b c xs ys h'.1 g)
        | inr p ↦ rw p (Alternates-append k a b c xs ys (rw p at h) g)
      ]

  Tells-more :
      (now : ℕ) (hooks : List Webhook) (x : Observation F) (os : List (Observation F))
      (ns : List (PendingNotify F))
      → All (Tells now hooks os) ns
      → All (Tells now hooks (x ∷ os)) ns
  Tells-more now hooks x os [] h = tt
  Tells-more now hooks x os (n ∷ ns) h =
      let (o, i, e) = h.0 in ((o, inr i, e), Tells-more now hooks x os ns h.1)

turned : (breached was : Bool) → is_transition breached was ≡ true → breached ≡ not was
turned breached was h = ground arith

stayed : (breached was : Bool) → is_transition breached was ≡ false → was ≡ breached
stayed breached was h = ground arith

module _ {F : Type 0} (now : ℕ) (hooks : List Webhook) where
  abbrev news : Pass F → Observation F → List (PendingNotify F)
  news p o = if is_transition o.breached (p.firing (key_of o)) then notice now hooks o ∷ [] else []

  notify_lem :
      (o : Observation F)
      → notify now o.rule (channels_for o.rule.channel_ids hooks) o.scope o.value o.breached
        ≡ notice now hooks o
  notify_lem o = elim (Bool-cases o.breached) [
    | inl q ↦ rw (q, channels_for-reachable o.rule.channel_ids hooks)
    | inr q ↦ rw (q, channels_for-reachable o.rule.channel_ids hooks)
  ]

  news_lem : (p : Pass F) (o : Observation F) → (see now hooks p o).pending ≡ p.pending ++ news p o
  unfolding observe
  news_lem p o = elim (Bool-cases (is_transition o.breached (p.firing (key_of o)))) [
    | inl q ↦ rw q (ap (λ n. p.pending ++ n ∷ []) (notify_lem o))
    | inr q ↦ rw q (sym (append-nil p.pending))
  ]

  news-Alternates :
      (p : Pass F) (o : Observation F) (k : Key)
      → Alternates k (p.firing k) (news p o) ((see now hooks p o).firing k)
  unfolding observe
  news-Alternates p o k = elim (Bool-cases (is_transition o.breached (p.firing (key_of o)))) [
    | inl t ↦ elim (Bool-cases (same_key (key_of o) k)) [
      | inl e ↦
          let f = turned o.breached (p.firing k) (
            subst (λ j. is_transition o.breached (p.firing j) ≡ true) (same_key→eq (key_of o) k e)
              t) in
          rw (t, e) (ap event_when f, sym f)
      | inr e ↦ rw (t, e) refl
    ]
    | inr t ↦ elim (Bool-cases (same_key (key_of o) k)) [
      | inl e ↦
          rw (t, e)
            (stayed o.breached (p.firing k) (
              subst (λ j. is_transition o.breached (p.firing j) ≡ false)
                (same_key→eq (key_of o) k e) t))
      | inr e ↦ rw (t, e) refl
    ]
  ]

  news-Tells :
      (p : Pass F) (o : Observation F) (os : List (Observation F))
      → All (Tells now hooks (o ∷ os)) (news p o)
  news-Tells p o os = elim (Bool-cases (is_transition o.breached (p.firing (key_of o)))) [
    | inl t ↦ rw t ((o, inl refl, refl), tt)
    | inr t ↦ rw t tt
  ]

  -- What a walk over observations makes of a pass.
  pub record Course (os : List (Observation F)) (p p' : Pass F) : Type 0 where
    pub added : List (PendingNotify F)
    pub grown : p'.pending ≡ p.pending ++ added
    pub told : All (Tells now hooks os) added
    pub accounts : (k : Key) → Alternates k (p.firing k) added (p'.firing k)
    pub settled : (k : Key) → p'.firing k ≡ last_seen k (p.firing k) os

  pub see_all-Course :
      (os : List (Observation F)) (p : Pass F) → Course os p (see_all now hooks p os)
  unfolding see_all observe
  see_all-Course [] p = record {
    added = [];
    grown = sym (append-nil p.pending);
    told = tt;
    accounts = λ k. refl;
    settled = λ k. refl;
  }
  see_all-Course (o ∷ os) p =
      let q = see now hooks p o in
      let c = see_all-Course os q in
      record {
        added = news p o ++ c.added;
        grown =
            c.grown
            ∙ ap (λ l. l ++ c.added) (news_lem p o)
            ∙ append_assoc p.pending (news p o) c.added;
        told =
            All-append (Tells now hooks (o ∷ os)) (news p o) c.added (news-Tells p o os)
              (Tells-more now hooks o os c.added c.told);
        accounts = λ k.
            Alternates-append k (p.firing k) (q.firing k) _ (news p o) c.added
              (news-Alternates p o k) (c.accounts k);
        settled = λ k. c.settled k;
      }
