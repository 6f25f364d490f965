-- ===== src/Webhooks/Delivery/Retries.antt =====
-- How long a delivery is retried, and what it comes to.
use otel_fleet.Prelude.{
  subst, ltb, ◌≡◌, ◌⊎◌, refl, inl, inr, ℕ, ◌+◌, ◌*◌, ◌≤◌, ◌<◌, Bool, true, false, none, some, List,
  [], ◌∷◌, length, arith, Bool-cases, Option-cases,
}
use otel_fleet.Webhooks.Delivery.{
  second, backoff, Answer, Verdict, given_up, cancelled, verdict_of, is_success, Delivery,
  deliver_from, deliver_with_retry,
}

abbrev total : List ℕ → ℕ
total [] = 0
total (w ∷ ws) = w + total ws

-- The answer is no answer at all, or an error of the server: it may be better next time.
pub data IsTemporary : Answer → Type 0 where
  no_answer : IsTemporary Answer.network_error
  server_error : (s : ℕ) → 500 ≤ s → IsTemporary (Answer.status s)

-- The answer settles the delivery: taken with a status of 200 to 299, refused with any other below 500.
pub data Settles : Answer → Verdict → Type 0 where
  taken : (s : ℕ) → 200 ≤ s → s < 300 → Settles (Answer.status s) Verdict.delivered
  refused_low : (s : ℕ) → s < 200 → Settles (Answer.status s) Verdict.rejected
  refused_high : (s : ℕ) → 300 ≤ s → s < 500 → Settles (Answer.status s) Verdict.rejected

verdict_of-IsTemporary : (a : Answer) → verdict_of a ≡ none → IsTemporary a
unfolding verdict_of
verdict_of-IsTemporary Answer.network_error e = no_answer
verdict_of-IsTemporary (Answer.status s) e = server_error s (ground arith)

verdict_of-Settles : (a : Answer) (v : Verdict) → verdict_of a ≡ some v → Settles a v
unfolding verdict_of
verdict_of-Settles Answer.network_error v e = cc
verdict_of-Settles (Answer.status s) v e = elim (Bool-cases (is_success s)) [
  | inl q ↦
      subst (Settles (Answer.status s)) (some_inj _ v (rw q at e))
        (taken s (ground arith) (ground arith))
  | inr q ↦ elim (Bool-cases (ltb s 500)) [
    | inr k ↦ cc (rw (q, k) at e)
    | inl k ↦
        subst (Settles (Answer.status s)) (some_inj _ v (rw (q, k) at e))
          (refused s q k (low_or_high s))
  ]
]
  where
    some_inj : (a b : Verdict) → some a ≡ some b → a ≡ b
    some_inj a b h = cc

    low_or_high : (s : ℕ) → (s < 200) ⊎ (200 ≤ s)
    low_or_high s = ground arith

    refused :
        (s : ℕ)
        → is_success s ≡ false
        → ltb s 500 ≡ true
        → (s < 200) ⊎ (200 ≤ s)
        → Settles (Answer.status s) Verdict.rejected
    refused s q k (inl l) = refused_low s l
    refused s q k (inr h) = refused_high s (ground arith) (ground arith)

module _ (answer : ℕ → Answer) (is_cancelled : ℕ → Bool) where
  -- The course of the loop in its own terms.
  record Went (first limit : ℕ) (d : Delivery) : Type 0 where
    pub last : ℕ
    pub counted : d.attempts ≡ last + 1
    pub from : first ≤ last
    pub bounded : last ≤ limit
    pub retried :
        (i : ℕ) → first ≤ i → i < last → (verdict_of (answer i) ≡ none) × (is_cancelled i ≡ false)
    pub explained :
        (verdict_of (answer last) ≡ some d.verdict)
        ⊎ ((verdict_of (answer last) ≡ none)
            × (((d.verdict ≡ given_up) × (last ≡ limit))
                ⊎ ((d.verdict ≡ cancelled) × (is_cancelled last ≡ true) × (last < limit))))

  now_last :
      (first limit : ℕ) (v : Verdict) (waited : ℕ)
      → first ≤ limit
      → (verdict_of (answer first) ≡ some v)
        ⊎ ((verdict_of (answer first) ≡ none)
            × (((v ≡ given_up) × (first ≡ limit))
                ⊎ ((v ≡ cancelled) × (is_cancelled first ≡ true) × (first < limit))))
      → Went first limit (record { verdict = v; attempts = first + 1; waited = waited })
  now_last first limit v waited h e = record {
    last = first;
    counted = refl;
    from = omega arith;
    bounded = h;
    retried = λ i a b. absurd (omega arith);
    explained = e;
  }

  one_more :
      (first limit : ℕ) (d : Delivery)
      → verdict_of (answer first) ≡ none
      → is_cancelled first ≡ false
      → Went (first + 1) limit d
      → Went first limit d
  one_more first limit d n c o = record {
    last = o.last;
    counted = o.counted;
    from = omega (arith, o.from);
    bounded = o.bounded;
    retried = λ i a b. earlier i a b (before i first a);
    explained = o.explained;
  }
    where
      before : (i f : ℕ) → f ≤ i → (i ≡ f) ⊎ (f + 1 ≤ i)
      before i f h = ground arith

      earlier :
          (i : ℕ)
          → first ≤ i
          → i < o.last
          → (i ≡ first) ⊎ (first + 1 ≤ i)
          → (verdict_of (answer i) ≡ none) × (is_cancelled i ≡ false)
      earlier i a b (inl e) = rw e (n, c)
      earlier i a b (inr l) = o.retried i l b

  deliver-Went :
      (waits : List ℕ) (first waited limit : ℕ)
      → first + length waits ≡ limit
      → Went first limit (deliver_from answer is_cancelled waits first waited)
        × ((deliver_from answer is_cancelled waits first waited).waited ≤ waited + total waits)
  unfolding deliver_from
  deliver-Went [] first waited limit h = elim (Option-cases (verdict_of (answer first))) [
    | inl n ↦
        rw (deliver_from, n)
          (
            now_last first limit given_up waited (omega arith) (inr (n, inl (refl, omega arith))),
            omega arith,
          )
    | inr (v, e) ↦
        rw (deliver_from, e) (now_last first limit v waited (omega arith) (inl e), omega arith)
  ]
  deliver-Went (w ∷ ws) first waited limit h = elim (Option-cases (verdict_of (answer first))) [
    | inl n ↦ elim (Bool-cases (is_cancelled first)) [
      | inl c ↦
          rw (n, deliver_from, c)
            (
              now_last first limit cancelled waited (omega arith)
                  (inr (n, inr (refl, c, omega arith))),
              omega arith,
            )
      | inr c ↦
          let (o, b) = deliver-Went ws (first + 1) (waited + w) limit (omega arith) in
          rw (n, deliver_from, c) (one_more first limit _ n c o, omega (arith, b))
    ]
    | inr (v, e) ↦
        rw (deliver_from, e) (now_last first limit v waited (omega arith) (inl e), omega arith)
  ]

-- The attempts before the last one all met with a temporary failure, in a context that went on; the
-- last one settles the delivery, or was the last that is made, or the context ended after it.
pub record IsOutcome (answer : ℕ → Answer) (is_cancelled : ℕ → Bool) (limit : ℕ) (d : Delivery)
    : Type 0 where
  pub last : ℕ
  pub counted : d.attempts ≡ last + 1
  pub bounded : last ≤ limit
  pub retried : (i : ℕ) → i < last → IsTemporary (answer i) × (is_cancelled i ≡ false)
  pub explained :
      Settles (answer last) d.verdict
      ⊎ (IsTemporary (answer last)
          × (((d.verdict ≡ given_up) × (last ≡ limit))
              ⊎ ((d.verdict ≡ cancelled) × (is_cancelled last ≡ true) × (last < limit))))

-- A delivery ends after at most four attempts and 31 seconds of waiting. It is retried exactly after
-- network errors and statuses from 500 on, while the context goes on. A last answer of 200 to 299
-- makes it delivered and any other below 500 rejected; after a last answer that is temporary it is
-- given up, if it was the fourth, or cancelled, if the context ended.
pub delivery_bounded :
    (answer : ℕ → Answer) (is_cancelled : ℕ → Bool)
    → IsOutcome answer is_cancelled 3 (deliver_with_retry answer is_cancelled)
      × ((deliver_with_retry answer is_cancelled).waited ≤ 31 * second)
delivery_bounded answer is_cancelled =
    let (o, b) = deliver-Went answer is_cancelled backoff 0 0 3 refl in
    (
      record {
        last = o.last;
        counted = o.counted;
        bounded = o.bounded;
        retried = λ i h.
            let (t, c) = o.retried i (omega arith) h in (verdict_of-IsTemporary (answer i) t, c);
        explained = said (answer o.last) _ _ o.explained;
      },
      omega (arith, b),
    )
  where
    said :
        (a : Answer) (v : Verdict) (Why : Type 0)
        → (verdict_of a ≡ some v) ⊎ ((verdict_of a ≡ none) × Why)
        → Settles a v ⊎ (IsTemporary a × Why)
    said a v Why (inl e) = inl (verdict_of-Settles a v e)
    said a v Why (inr (e, w)) = inr (verdict_of-IsTemporary a e, w)
