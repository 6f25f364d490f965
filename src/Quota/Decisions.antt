-- ===== src/Quota/Decisions.antt =====
-- What one call of `take` decides.
use otel_fleet.Prelude.{
  ℕ, ◌+◌, ◌-◌, ◌*◌, ◌/◌, ◌≤◌, ◌<◌, Text, ◌≡◌, ◌≢◌, refl, true, false, arith, if◌then◌else◌, leb,
}
use otel_fleet.Quota.{
  second, idle_timeout, sub_time, Bucket, Registry, maybe_gc, refill, consume, take, retry_hint,
  lookup_or_new,
}
use otel_fleet.Quota.Credit.{
  AllSized, credit, refilled, charged-AllSized, credit-maybe_gc, maybe_gc-AllSized, tokens-refill,
  credit_after_refusal,
}
use otel_fleet.Quota.Budget.{credit_of, allowed-take, own_step, burst-take, bucket-take, other_step}

module _ (k : Text) (limit n now : ℕ) (r : Registry) where
  -- With a burst no longer than the idle timeout and a bucket that was made under the limit of the
  -- call, the decision is exact: a batch is admitted if and only if the credit covers it.
  pub allowed_exact :
      r.burst ≤ idle_timeout
      → AllSized limit r.burst (r.buckets k)
      → (take k limit n now r).allowed ≡ leb (n * second) (credit_of k limit now r)
  allowed_exact small sized = rw (
    allowed-take k limit n now r,
    tokens-refill limit r.burst now ((maybe_gc now r).buckets k)
        (maybe_gc-AllSized limit r.burst now r k sized),
    credit-maybe_gc limit r.burst now r k small,
  )

  -- Under the same conditions on burst and bucket, an admitted batch is taken out of the credit, a
  -- refused one leaves it as it was, and another tenant's credit does not change, whatever its
  -- limit.
  pub take_effect :
      (other : Text) (l : ℕ)
      → r.burst ≤ idle_timeout
      → AllSized limit r.burst (r.buckets k)
      → k ≢ other
      → (credit_of k limit now (take k limit n now r).registry ≡ (
          if (take k limit n now r).allowed
          then credit_of k limit now r - n * second
          else credit_of k limit now r))
        × (credit_of other l now (take k limit n now r).registry ≡ credit_of other l now r)
  take_effect other l small sized ne = (
    ground (arith, own_step k limit n now r small sized),
    other_step other l k limit n now r ne small,
  )

retry_hint_bounds :
    (deficit rate : ℕ)
    → (second / 10 ≤ retry_hint deficit rate) × (retry_hint deficit rate ≤ 30 * second)
unfolding retry_hint
retry_hint_bounds deficit rate = ground arith

retry_hint-le :
    (deficit rate : ℕ)
    → retry_hint deficit rate < 30 * second
    → deficit / rate ≤ retry_hint deficit rate
unfolding retry_hint
retry_hint-le deficit rate h = ground arith

rate-refill : (now rate capacity : ℕ) (b : Bucket) → (refill now rate capacity b).rate ≡ rate
unfolding refill
rate-refill now rate capacity b = refl

module _ (k : Text) (limit n now : ℕ) (r : Registry) where
  retry_raw : (take k limit n now r).retry_after ≡ (
      if leb (n * second) (refilled limit r.burst now ((maybe_gc now r).buckets k)).tokens
      then 0
      else retry_hint
          (n * second - (refilled limit r.burst now ((maybe_gc now r).buckets k)).tokens)
          limit)
  unfolding take consume
  retry_raw =
      let b = lookup_or_new now limit (limit * r.burst) ((maybe_gc now r).buckets k) in
      ground (arith, rate-refill now limit (limit * r.burst) b)

  pub retry_exact :
      r.burst ≤ idle_timeout
      → AllSized limit r.burst (r.buckets k)
      → (take k limit n now r).retry_after ≡ (
          if leb (n * second) (credit_of k limit now r)
          then 0
          else retry_hint (n * second - credit_of k limit now r) limit)
  retry_exact small sized = rw (
    retry_raw,
    tokens-refill limit r.burst now ((maybe_gc now r).buckets k)
        (maybe_gc-AllSized limit r.burst now r k sized),
    credit-maybe_gc limit r.burst now r k small,
  )

  -- Below the cut at 30 seconds the delay of a refusal is no shorter than the deficit takes.
  delay_covers :
      r.burst ≤ idle_timeout
      → AllSized limit r.burst (r.buckets k)
      → (take k limit n now r).allowed ≡ false
      → (take k limit n now r).retry_after < 30 * second
      → (n * second - credit_of k limit now r) / limit ≤ (take k limit n now r).retry_after
  delay_covers small sized refused short =
      let no_cover : leb (n * second) (credit_of k limit now r) ≡ false =
        cc (allowed_exact k limit n now r small sized) in
      let e : (take k limit n now r).retry_after
          ≡ retry_hint (n * second - credit_of k limit now r) limit =
        rw (retry_exact small sized, no_cover) in
      rw e (retry_hint-le _ limit (rw e at short))

  -- A refused batch that fits the bucket is admitted once more than the delay that the refusal
  -- carries has passed, if the delay is not cut at 30 seconds and no call comes in between: with a
  -- positive limit, a burst no longer than the idle timeout and a bucket made under the limit.
  pub retry_admits :
      (now' : ℕ)
      → r.burst ≤ idle_timeout
      → AllSized limit r.burst (r.buckets k)
      → 0 < limit
      → n * second ≤ limit * r.burst
      → (take k limit n now r).allowed ≡ false
      → (take k limit n now r).retry_after < 30 * second
      → now + (take k limit n now r).retry_after < now'
      → (take k limit n now' (take k limit n now r).registry).allowed ≡ true
  retry_admits now' small sized positive fits refused short later =
      let swept = (maybe_gc now r).buckets k in
      let sized' = maybe_gc-AllSized limit r.burst now r k sized in
      let r' = (take k limit n now r).registry in
      let same = burst-take k limit n now r in
      let swept_credit = credit-maybe_gc limit r.burst now r k small in
      let no_cover : leb (n * second) (credit limit r.burst now swept) ≡ false =
        rw swept_credit (cc (allowed_exact k limit n now r small sized)) in
      let delay : (n * second - credit limit r.burst now swept) / limit < sub_time now' now =
        rw swept_credit (omega (arith, delay_covers small sized refused short)) in
      let after =
        credit_after_refusal limit r.burst now now' n swept sized' positive fits no_cover delay in
      rw
        (allowed_exact k limit n now' r' (rw same small)
          (rw (same, bucket-take k limit n now r) (charged-AllSized limit r.burst now n swept)))
        (rw (same, bucket-take k limit n now r) (ground arith))
