-- ===== src/Quota/Budget.antt =====
-- Sequences of calls of `take`: what a tenant can be admitted over time.
use otel_fleet.Prelude.{
  ℕ, ◌+◌, ◌-◌, ◌*◌, ◌≤◌, Text, text_eq, text_beq_iff, beq_self, beq_ne, ◌==◌, ◌≡◌, ◌≢◌, ◌&&◌, List,
  [], ◌∷◌, arith, if◌then◌else◌, leb, Bool-cases, inl, inr,
}
use otel_fleet.Quota
use otel_fleet.Quota.{
  second, idle_timeout, sub_time, Bucket, Registry, maybe_gc, lookup_or_new, refill, consume, take,
}
use otel_fleet.Quota.Credit.{
  AllSized, credit, charged, refilled, credit-charged, charged-AllSized, credit-maybe_gc,
  maybe_gc-AllSized, credit_later, tokens-refill,
}

module _ (tenant : Text) (limit n now : ℕ) (r : Registry) where
  burst-maybe_gc : (maybe_gc now r).burst ≡ r.burst
  unfolding maybe_gc
  burst-maybe_gc = ground arith

  pub burst-take : (take tenant limit n now r).registry.burst ≡ r.burst
  unfolding take consume
  burst-take = ground (arith, burst-maybe_gc)

  pub bucket-take :
      (take tenant limit n now r).registry.buckets tenant
      ≡ charged limit r.burst now n ((maybe_gc now r).buckets tenant)
  unfolding take consume charged
  bucket-take = ground (arith, beq_self tenant)

  pub allowed-take :
      (take tenant limit n now r).allowed
      ≡ leb (n * second) (refilled limit r.burst now ((maybe_gc now r).buckets tenant)).tokens
  unfolding take consume
  allowed-take = ground arith

  bucket-take_ne :
      (other : Text)
      → tenant ≢ other
      → (take tenant limit n now r).registry.buckets other ≡ (maybe_gc now r).buckets other
  unfolding take consume
  bucket-take_ne other h = ground (arith, beq_ne tenant other)

-- A call of `take` as it reaches the registry: the mutex puts the calls in a sequence.
pub record Call : Type 0 where
  pub tenant : Text
  pub limit : ℕ
  pub items : ℕ
  pub at : ℕ

abbrev pub taken : Call → Registry → Quota.Taken
taken c r = take c.tenant c.limit c.items c.at r

unfoldable pub replay : List Call → Registry → Registry
replay [] r = r
replay (c ∷ cs) r = replay cs (taken c r).registry

-- The items of a tenant's batches that a sequence of calls admits.
unfoldable pub admitted : Text → List Call → Registry → ℕ
admitted k [] r = 0
admitted k (c ∷ cs) r =
    (if (taken c r).allowed && c.tenant == k then c.items else 0)
    + admitted k cs (taken c r).registry

-- The clock does not run backwards between `t` and `t'`.
abbrev pub InOrder : ℕ → ℕ → List Call → Type 0
InOrder t t' [] = t ≤ t'
InOrder t t' (c ∷ cs) = (t ≤ c.at) × InOrder c.at t' cs

-- Every call of the tenant comes with this limit.
abbrev pub HasLimit : Text → ℕ → List Call → Type 0
HasLimit k limit [] = Unit
HasLimit k limit (c ∷ cs) = (c.tenant ≡ k → c.limit ≡ limit) × HasLimit k limit cs

module _ (k : Text) (limit : ℕ) where
  abbrev pub credit_of : ℕ → Registry → ℕ
  credit_of now r = credit limit r.burst now (r.buckets k)

  pub own_step :
      (n now : ℕ) (r : Registry)
      → r.burst ≤ idle_timeout
      → AllSized limit r.burst (r.buckets k)
      → (if (take k limit n now r).allowed then n else 0) * second
          + credit_of now (take k limit n now r).registry
        ≡ credit_of now r
  own_step n now r small sized =
      let swept = (maybe_gc now r).buckets k in
      let sized' = maybe_gc-AllSized limit r.burst now r k sized in
      rw
        (
          burst-take k limit n now r,
          bucket-take k limit n now r,
          credit-charged limit r.burst now n swept sized',
          allowed-take k limit n now r,
          tokens-refill limit r.burst now swept sized',
          credit-maybe_gc limit r.burst now r k small,
        )
        (split n (credit_of now r))
    where
      split :
          (m c : ℕ)
          → (if leb (m * second) c then m else 0) * second
              + (if leb (m * second) c then c - m * second else c)
            ≡ c
      split m c = ground arith

  pub other_step :
      (other : Text) (l n now : ℕ) (r : Registry)
      → other ≢ k
      → r.burst ≤ idle_timeout
      → credit_of now (take other l n now r).registry ≡ credit_of now r
  other_step other l n now r ne small =
      rw (burst-take other l n now r, bucket-take_ne other l n now r k ne)
        (credit-maybe_gc limit r.burst now r k small)

  -- A call either takes its items out of the credit of the tenant, or leaves the credit alone.
  step_credit :
      (c : Call) (r : Registry)
      → (c.tenant ≡ k → c.limit ≡ limit)
      → r.burst ≤ idle_timeout
      → AllSized limit r.burst (r.buckets k)
      → (if (taken c r).allowed && c.tenant == k then c.items else 0) * second
          + credit_of c.at (taken c r).registry
        ≡ credit_of c.at r
  step_credit c r lim small sized = elim (Bool-cases (c.tenant == k)) [
    | inl p ↦
        let e = (text_beq_iff c.tenant k).0 p in
        rw (p, e, lim e) (ground (arith, own_step c.items c.at r small sized))
    | inr p ↦ rw p (
        ground (
          arith,
          other_step c.tenant c.limit c.items c.at r (λ e. cc (p, (text_beq_iff c.tenant k).1 e))
              small,
        ))
  ]

  step_sized :
      (c : Call) (r : Registry)
      → (c.tenant ≡ k → c.limit ≡ limit)
      → AllSized limit r.burst (r.buckets k)
      → AllSized limit (taken c r).registry.burst ((taken c r).registry.buckets k)
  step_sized c r lim sized = elim (Bool-cases (c.tenant == k)) [
    | inl p ↦
        let e = (text_beq_iff c.tenant k).0 p in
        rw (e, lim e)
          (rw (burst-take k limit c.items c.at r, bucket-take k limit c.items c.at r)
            (charged-AllSized limit r.burst c.at c.items ((maybe_gc c.at r).buckets k)))
    | inr p ↦
        rw
          (
            burst-take c.tenant c.limit c.items c.at r,
            bucket-take_ne c.tenant c.limit c.items c.at r k
                (λ e. cc (p, (text_beq_iff c.tenant k).1 e)),
          )
          (maybe_gc-AllSized limit r.burst c.at r k sized)
  ]

  spans : (a b c : ℕ) → a ≤ b → b ≤ c → (b - a) * limit + (c - b) * limit ≡ (c - a) * limit
  spans a b c h h' = grind arith

  InOrder-le : (t t' : ℕ) (cs : List Call) → InOrder t t' cs → t ≤ t'
  InOrder-le t t' [] h = h
  InOrder-le t t' (c ∷ cs) h = omega (arith, InOrder-le c.at t' cs h.1)

  -- Over any calls of any tenants in the order of the clock, what is admitted of a tenant and the
  -- credit that is left is at most the credit at the start and what the limit allows for the time.
  pub admitted_within_credit :
      (cs : List Call) (t t' : ℕ) (r : Registry)
      → r.burst ≤ idle_timeout
      → AllSized limit r.burst (r.buckets k)
      → HasLimit k limit cs
      → InOrder t t' cs
      → admitted k cs r * second + credit_of t' (replay cs r) ≤ credit_of t r + (t' - t) * limit
  unfolding admitted replay
  admitted_within_credit [] t t' r small sized lim ord =
      omega (arith, credit_later limit r.burst t t' (r.buckets k) ord)
  admitted_within_credit (c ∷ cs) t t' r small sized lim ord = omega (
    arith,
    step_credit c r lim.0 small sized,
    credit_later limit r.burst t c.at (r.buckets k) ord.0,
    spans t c.at t' ord.0 (InOrder-le c.at t' cs ord.1),
    admitted_within_credit cs c.at t' (taken c r).registry
        (rw (burst-take c.tenant c.limit c.items c.at r) small) (step_sized c r lim.0 sized) lim.1
        ord.1,
  )

-- From an empty registry and over calls in the order of the clock, a tenant whose calls all come
-- with one limit is admitted at most its burst and its limit for the time that passes, whatever
-- other tenants do, if the burst is no longer than the idle timeout.
pub admitted_within_budget :
    (k : Text) (limit burst : ℕ) (cs : List Call) (t t' : ℕ)
    → burst ≤ idle_timeout
    → HasLimit k limit cs
    → InOrder t t' cs
    → admitted k cs (Quota.new_registry burst) * second ≤ limit * burst + (t' - t) * limit
admitted_within_budget k limit burst cs t t' small lim ord =
    omega
      (arith, admitted_within_credit k limit cs t t' (Quota.new_registry burst) small tt lim ord)
