-- ===== src/Quota.antt =====
-- The tenantquota processor of the collector: bucket.go (one token bucket for each tenant) and
-- the admission of a batch in processor.go.
--
-- Time is a number of nanoseconds since Go's zero time. The float64 amounts of the source are
-- exact here: tokens and capacities count billionths of a token, so that a rate in tokens per
-- second times a duration in nanoseconds is an amount of tokens, and `burst` is `burst_seconds`
-- in nanoseconds. The rounding of float64, and delays past what a duration holds, are left out.
pub mod Credit
pub mod Budget
pub mod Admit
pub mod Decisions
use otel_fleet.Prelude.{
  ℕ, ◌+◌, ◌-◌, ◌*◌, ◌/◌, ◌^◌, min, Text, text_eq, Map, empty, put, delete_where, Bool, true, false,
  Option, none, some, ltb, leb, if◌then◌else◌,
}

abbrev pub second : ℕ
second = 1000000000

abbrev pub idle_timeout : ℕ
idle_timeout = 600 * second

abbrev pub gc_interval : ℕ
gc_interval = 600 * second

-- The largest time.Duration.
abbrev pub max_duration : ℕ
max_duration = 2 ^ 63 - 1

pub record Bucket : Type 0 where
  pub tokens : ℕ
  pub capacity : ℕ
  pub rate : ℕ
  pub last_seen : ℕ

pub record Registry : Type 0 where
  pub burst : ℕ
  pub buckets : Map Text Bucket
  pub last_gc : ℕ

-- newRegistry: the zero time has passed the interval, so the first call sweeps.
abbrev pub new_registry : ℕ → Registry
new_registry burst = record { burst = burst; buckets = empty; last_gc = 0 }

-- a.Sub(b), which saturates; what is negative is 0 here, and every use of it asks for more than 0.
abbrev pub sub_time : ℕ → ℕ → ℕ
sub_time a b = min (a - b) max_duration

abbrev pub is_idle : ℕ → Bucket → Bool
is_idle now b = leb idle_timeout (sub_time now b.last_seen)

unfoldable pub maybe_gc : ℕ → Registry → Registry
maybe_gc now r =
    if ltb (sub_time now r.last_gc) gc_interval
    then r
    else record r { buckets = delete_where (is_idle now) r.buckets; last_gc = now }

-- A tenant that has no bucket gets a full one.
unfoldable pub lookup_or_new : ℕ → ℕ → ℕ → Option Bucket → Bucket
lookup_or_new now rate capacity none = record {
  tokens = capacity;
  capacity = capacity;
  rate = rate;
  last_seen = now;
}
lookup_or_new now rate capacity (some b) = b

-- Refill for the elapsed time at the old rate, then apply the limit of this call.
unfoldable pub refill : ℕ → ℕ → ℕ → Bucket → Bucket
refill now rate capacity b = record {
  tokens = min (b.tokens + sub_time now b.last_seen * b.rate) capacity;
  capacity = capacity;
  rate = rate;
  last_seen = now;
}

-- retryHint
unfoldable pub retry_hint : ℕ → ℕ → ℕ
retry_hint deficit rate =
    let d = deficit / rate in
    if ltb d (second / 10) then second / 10 else if ltb (30 * second) d then 30 * second else d

pub record Taken : Type 0 where
  pub registry : Registry
  pub allowed : Bool
  pub retry_after : ℕ

-- The end of `take`, on the refilled bucket: all or nothing.
unfoldable pub consume : Text → ℕ → Bucket → Registry → Taken
consume tenant n b r =
    let need = n * second in
    if leb need b.tokens
    then record {
      registry = record r {
        buckets = put r.buckets tenant (record b { tokens = b.tokens - need });
      };
      allowed = true;
      retry_after = 0;
    }
    else record {
      registry = record r { buckets = put r.buckets tenant b };
      allowed = false;
      retry_after = retry_hint (need - b.tokens) b.rate;
    }

unfoldable pub take : Text → ℕ → ℕ → ℕ → Registry → Taken
take tenant limit n now r =
    let capacity = limit * r.burst in
    let swept = maybe_gc now r in
    let b = lookup_or_new now limit capacity (swept.buckets tenant) in
    consume tenant n (refill now limit capacity b) swept
