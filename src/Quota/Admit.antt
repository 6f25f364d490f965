-- ===== src/Quota/Admit.antt =====
-- processor.go of tenantquota: the admission of one batch. What the code reads of the request is
-- the auth data that tenantauth attached; the counters are kept as the list of what was counted.
pub mod Verdict
use otel_fleet.Prelude.{
  zero, drop, length, ℕ, suc, ◌+◌, ◌-◌, ◌*◌, ◌^◌, Text, codes, text_eq, Bool, true, false, ◌&&◌,
  ◌||◌, ◌==◌, nat_eq, leb, ltb, if◌then◌else◌, Option, none, some, List, [], ◌∷◌, ◌++◌, ℤ, pos,
  negsuc, neg, pos_part,
}
use otel_fleet.Quota.{Registry, Taken, take}

-- The dynamic types that `limitFromAuth` tells apart.
pub data AttrValue : Type 0 where
  int64 int int32 : ℤ → AttrValue
  uint32 uint64 : ℕ → AttrValue
  string : Text → AttrValue
  other : AttrValue

-- client.AuthData.GetAttribute
abbrev pub AuthData : Type 0
AuthData = Text → AttrValue

abbrev pub attr_tenant_id : Text
attr_tenant_id = codes "tenant.id"

abbrev pub attr_rate_limit_items_per_sec : Text
attr_rate_limit_items_per_sec = codes "rate_limit_items_per_sec"

is_digit : ℕ → Bool
is_digit c = leb b'0' c && leb c b'9'

-- The digits that `%d` accepts, up to the first other character.
scan_digits : ℕ → Text → ℕ
scan_digits n [] = n
scan_digits n (c ∷ s) =
    let rest = scan_digits (n * 10 + (c - b'0')) s in if is_digit c then rest else n

scan_number : Text → Option ℕ
scan_number [] = none
scan_number (c ∷ s) = if is_digit c then some (scan_digits 0 (c ∷ s)) else none

positive_in_range : Option ℕ → Option ℤ
positive_in_range none = none
positive_in_range (some n) = if ltb n (2 ^ 63) then some (pos n) else none

negative_in_range : Option ℕ → Option ℤ
negative_in_range none = none
negative_in_range (some n) = if leb n (2 ^ 63) then some (neg n) else none

scan_signed : Text → Option ℤ
scan_signed [] = none
scan_signed (c ∷ s) =
    if c == b'-'
    then negative_in_range (scan_number s)
    else if c == b'+'
    then positive_in_range (scan_number s)
    else positive_in_range (scan_number (c ∷ s))

one_or_two : ℕ → ℕ → ℕ
one_or_two c d =
    if c == 194 && (d == 133 || d == 160)
    then 2
    else if c == 32 || c == 9 || c == 11 || c == 12 || c == 13
    then 1
    else 0

-- isSpace of the fmt package on a text in UTF-8: how many bytes its first blank has, 0 where it starts
-- with none. A line end is no blank for Sscanf.
blank_length : Text → ℕ
blank_length [] = 0
blank_length (c ∷ []) = one_or_two c 0
blank_length (c ∷ d ∷ []) = one_or_two c d
blank_length (c ∷ d ∷ e ∷ s) =
    if (c == 225 && d == 154 && e == 128)
      || (c == 226 && d == 128 && ((leb 128 e && leb e 138) || e == 168 || e == 169 || e == 175))
      || (c == 226 && d == 129 && e == 159)
      || (c == 227 && d == 128 && e == 128)
    then 3
    else one_or_two c d

-- SkipSpace; a text has no more blanks than bytes.
skip_blanks : ℕ → Text → Text
skip_blanks zero s = s
skip_blanks (suc fuel) s =
    let rest = skip_blanks fuel (drop (blank_length s) s) in if blank_length s == 0 then s else rest

-- Sscanf of "%d" into an int64
scan_int64 : Text → Option ℤ
scan_int64 s = scan_signed (skip_blanks (length s) s)

abbrev or_zero : Option ℤ → ℤ
or_zero none = pos 0
or_zero (some n) = n

unfoldable pub limit_of : AttrValue → ℤ
unfolding scan_int64 skip_blanks blank_length one_or_two scan_signed scan_number scan_digits
    is_digit positive_in_range negative_in_range
limit_of (int64 v) = v
limit_of (int v) = v
limit_of (int32 v) = v
limit_of (uint32 v) = pos v
limit_of (uint64 v) = if ltb (2 ^ 62) v then pos (2 ^ 62) else pos v
limit_of (string s) = or_zero (scan_int64 s)
limit_of other = pos 0

unfoldable pub limit_from_auth : AuthData → ℤ
limit_from_auth auth = limit_of (auth attr_rate_limit_items_per_sec)

abbrev pub string_of : AttrValue → Text
string_of (string s) = s
string_of _ = []

pub data Metric : Type 0 where
  decision : Text → Bool → Metric
  rejected_items : Text → Text → ℕ → Metric

pub record Quota : Type 0 where
  pub registry : Registry
  pub metrics : List Metric

-- nil, or the retryable RESOURCE_EXHAUSTED status with its RetryInfo.
pub data Status : Type 0 where
  passed : Status
  resource_exhausted : Text → ℤ → ℕ → Text → ℕ → Status

-- The end of `admit`, after the registry has decided.
unfoldable pub report : Text → ℤ → Text → ℕ → List Metric → Taken → Quota × Status
report tenant limit signal n metrics t =
    if t.allowed
    then (record { registry = t.registry; metrics = metrics ++ decision tenant true ∷ [] }, passed)
    else (
      record {
        registry = t.registry;
        metrics = metrics ++ decision tenant false ∷ rejected_items tenant signal n ∷ [];
      },
      resource_exhausted tenant limit n signal t.retry_after,
    )

abbrev pub is_nonpositive : ℤ → Bool
is_nonpositive l = leb (pos_part l) 0

unfoldable pub admit : Option AuthData → Text → ℕ → ℕ → Quota → Quota × Status
admit none signal n now q = (q, passed)
admit (some auth) signal n now q =
    let tenant = string_of (auth attr_tenant_id) in
    let limit = limit_from_auth auth in
    if tenant == [] || is_nonpositive limit || n == 0
    then (q, passed)
    else report tenant limit signal n q.metrics (take tenant (pos_part limit) n now q.registry)
