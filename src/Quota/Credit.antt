-- ===== src/Quota/Credit.antt =====
-- What a tenant could take at a given time, and how one call of `take` changes it.
use otel_fleet.Prelude.{
  ℕ, ◌+◌, ◌-◌, ◌*◌, ◌/◌, ◌≤◌, ◌<◌, min, Text, ◌≡◌, refl, false, Option, none, some, arith,
  if◌then◌else◌, leb, Option-cases, Bool-cases, inl, inr, subst, sym, text_eq, ◌⊎◌,
}
use otel_fleet.Quota.{
  second, idle_timeout, sub_time, Bucket, Registry, maybe_gc, lookup_or_new, refill,
}

module _ (limit burst : ℕ) where
  -- A bucket as it stands after calls with this limit.
  pub record IsSized (b : Bucket) : Type 0 where
    pub rate : b.rate ≡ limit
    pub capacity : b.capacity ≡ limit * burst
    pub bounded : b.tokens ≤ limit * burst

  -- The tokens of a bucket, refilled up to `now`.
  abbrev pub bucket_credit : ℕ → Bucket → ℕ
  bucket_credit now b = min (b.tokens + sub_time now b.last_seen * limit) (limit * burst)

  abbrev pub credit : ℕ → Option Bucket → ℕ
  credit now none = limit * burst
  credit now (some b) = bucket_credit now b

  abbrev pub AllSized : Option Bucket → Type 0
  AllSized none = Unit
  AllSized (some b) = IsSized b

  mul_limit_mono : (a b : ℕ) → a ≤ b → a * limit ≤ b * limit
  mul_limit_mono a b h = grind arith

  pub credit_later :
      (t t' : ℕ) (o : Option Bucket) → t ≤ t' → credit t' o ≤ credit t o + (t' - t) * limit
  credit_later t t' none h = omega arith
  credit_later t t' (some b) h =
      let m : sub_time t' b.last_seen * limit ≤ (sub_time t b.last_seen + (t' - t)) * limit =
        mul_limit_mono _ _ (omega arith) in
      omega (arith, m)

  full_after : (d : ℕ) → burst ≤ d → limit * burst ≤ d * limit
  full_after d h = grind arith

  -- A sweep only replaces buckets that have refilled by the bucket that a new tenant gets.
  pub credit-maybe_gc :
      (now : ℕ) (r : Registry) (k : Text)
      → burst ≤ idle_timeout
      → credit now ((maybe_gc now r).buckets k) ≡ credit now (r.buckets k)
  unfolding maybe_gc
  credit-maybe_gc now r k h = elim (Option-cases (r.buckets k)) [
    | inl e ↦ ground arith
    | inr (b, e) ↦ ground (arith, full_after (sub_time now b.last_seen))
  ]

  maybe_gc_cases :
      (now : ℕ) (r : Registry) (k : Text)
      → ((maybe_gc now r).buckets k ≡ r.buckets k) ⊎ ((maybe_gc now r).buckets k ≡ none)
  unfolding maybe_gc
  maybe_gc_cases now r k = ground (arith, Option-cases (r.buckets k))

  pub maybe_gc-AllSized :
      (now : ℕ) (r : Registry) (k : Text)
      → AllSized (r.buckets k)
      → AllSized ((maybe_gc now r).buckets k)
  maybe_gc-AllSized now r k h = elim (maybe_gc_cases now r k) [
    | inl e ↦ subst AllSized (sym e) h
    | inr e ↦ subst AllSized (sym e) tt
  ]

  -- The tokens after a refill are the credit.
  pub tokens-refill :
      (now : ℕ) (o : Option Bucket)
      → AllSized o
      → (refill now limit (limit * burst) (lookup_or_new now limit (limit * burst) o)).tokens
        ≡ credit now o
  unfolding refill lookup_or_new
  tokens-refill now none h = omega arith
  tokens-refill now (some b) h = rw h.rate

  abbrev pub refilled : ℕ → Option Bucket → Bucket
  refilled now o = refill now limit (limit * burst) (lookup_or_new now limit (limit * burst) o)

  seen : (now : ℕ) (o : Option Bucket) → (refilled now o).last_seen ≡ now
  unfolding refill
  seen now o = refl

  bound : (now : ℕ) (o : Option Bucket) → (refilled now o).tokens ≤ limit * burst
  unfolding refill
  bound now o = omega arith

  -- The bucket of the tenant after a call.
  unfoldable pub charged : ℕ → ℕ → Option Bucket → Option Bucket
  charged now n o =
      let b = refill now limit (limit * burst) (lookup_or_new now limit (limit * burst) o) in
      some (if leb (n * second) b.tokens then record b { tokens = b.tokens - n * second } else b)

  pub charged-AllSized : (now n : ℕ) (o : Option Bucket) → AllSized (charged now n o)
  unfolding charged refill lookup_or_new
  charged-AllSized now n o = ground arith

  bucket_credit_now :
      (now : ℕ) (b : Bucket)
      → b.last_seen ≡ now
      → b.tokens ≤ limit * burst
      → bucket_credit now b ≡ b.tokens
  bucket_credit_now now b e h =
      let z : sub_time now b.last_seen ≡ 0 = omega arith in rw z (omega arith)

  -- A call takes the whole batch out of the credit if it covers it, and nothing otherwise.
  pub credit-charged :
      (now n : ℕ) (o : Option Bucket)
      → AllSized o
      → credit now (charged now n o)
        ≡ (if leb (n * second) (credit now o) then credit now o - n * second else credit now o)
  unfolding charged
  credit-charged now n o h =
      rw (← tokens-refill now o h) (elim (Bool-cases (leb (n * second) (refilled now o).tokens)) [
        | inl p ↦ rw p (
            bucket_credit_now now
              (record (refilled now o) { tokens = (refilled now o).tokens - n * second })
              (seen now o) (omega (arith, bound now o)))
        | inr p ↦ rw p (bucket_credit_now now (refilled now o) (seen now o) (bound now o))
      ])

  div_covers : (x d : ℕ) → 0 < limit → x / limit < d → x ≤ d * limit
  div_covers x d h k = grind arith

  -- After a refusal, a time that covers the deficit at the limit makes the credit cover the batch.
  pub credit_after_refusal :
      (now now' n : ℕ) (o : Option Bucket)
      → AllSized o
      → 0 < limit
      → n * second ≤ limit * burst
      → leb (n * second) (credit now o) ≡ false
      → (n * second - credit now o) / limit < sub_time now' now
      → n * second ≤ credit now' (charged now n o)
  unfolding charged
  credit_after_refusal now now' n o h positive fits refused waited =
      let e = tokens-refill now o h in
      rw (e, refused, seen now o)
        (omega (arith, div_covers (n * second - credit now o) (sub_time now' now) positive waited))
