-- ===== src/IngestAuth/Usage.antt =====
-- Lemmas on recordUsage and Flush of internal/ingestauth/service.go.
use otel_fleet.Prelude.{
  ◌≡◌, refl, ap, inl, inr, ℕ, ◌≤◌, text_eq, nat_eq, nat_beq_iff, beq_self, ◌==◌, true, some, List,
  [], ◌∷◌, map, arith, Bool-cases, Option-cases, Map, ltb,
}
use mathlib.Core.List.{Memᴰ}
use otel_fleet.Store.{Db, ApiKey, touch, touch_api_keys, or_zero}
use otel_fleet.IngestAuth.{Service, record_usage, flush, is_newer}

-- The use at `ts` is waiting to be written, or a later one is.
abbrev pub IsPending : ℕ → ℕ → Service → Type 0
IsPending id ts s = (t : ℕ) × (s.pending id ≡ some t) × (ts ≤ t)

record_usage-IsPending : (id ts : ℕ) (s : Service) → IsPending id ts (record_usage id ts s)
unfolding record_usage
record_usage-IsPending id ts s = elim (Option-cases (s.pending id)) [
  | inl n ↦ rw n (ts, rw (beq_self id), omega arith)
  | inr (t, e) ↦ elim (Bool-cases (ltb t ts)) [
    | inl p ↦ rw (e, p) (ts, rw (beq_self id), omega arith)
    | inr p ↦ rw (e, p) (t, e, ground arith)
  ]
]

record_usage_keeps :
    (id ts j u : ℕ) (s : Service) → IsPending id ts s → IsPending id ts (record_usage j u s)
unfolding record_usage
record_usage_keeps id ts j u s (t, e, le) = elim (Bool-cases (is_newer u (s.pending j))) [
  | inl p ↦ elim (Bool-cases (j == id)) [
    | inl q ↦ rw p (u, rw q, newer ((nat_beq_iff j id).0 q) p)
    | inr q ↦ rw p (t, rw q e, le)
  ]
  | inr p ↦ rw p (t, e, le)
]
  where
    newer : j ≡ id → is_newer u (s.pending j) ≡ true → ts ≤ u
    newer i p = ground (arith, (rw (i, e) at p))

-- Uses of keys, with their times, in the order in which the mutex lets them in.
unfoldable pub record_all : List (ℕ × ℕ) → Service → Service
record_all [] s = s
record_all ((id, ts) ∷ us) s = record_all us (record_usage id ts s)

record_all_keeps :
    (id ts : ℕ) (us : List (ℕ × ℕ)) (s : Service)
    → IsPending id ts s
    → IsPending id ts (record_all us s)
unfolding record_all
record_all_keeps id ts [] s p = p
record_all_keeps id ts ((j, u) ∷ us) s p =
    record_all_keeps id ts us (record_usage j u s) (record_usage_keeps id ts j u s p)

record_all-IsPending :
    (id ts : ℕ) (us : List (ℕ × ℕ)) (s : Service)
    → Memᴰ (id, ts) us
    → IsPending id ts (record_all us s)
unfolding record_all
record_all-IsPending id ts [] s m = elim m [ ]
record_all-IsPending id ts ((j, u) ∷ us) s (Memᴰ.head e) =
    let i : id ≡ j = ap (λ (x : ℕ × ℕ). x.0) e in
    let t : ts ≡ u = ap (λ (x : ℕ × ℕ). x.1) e in
    record_all_keeps id ts us (record_usage j u s) (rw (i, t) (record_usage-IsPending j u s))
record_all-IsPending id ts ((j, u) ∷ us) s (Memᴰ.tail m) =
    record_all-IsPending id ts us (record_usage j u s) m

-- The row of a key later on: it is the same key, and its last use has not gone back.
abbrev pub IsLaterRow : ApiKey → ApiKey → Type 0
IsLaterRow k k' = (k'.id ≡ k.id) × (or_zero k.last_used_at ≤ or_zero k'.last_used_at)

touch-IsLaterRow : (usages : Map ℕ ℕ) (k : ApiKey) → IsLaterRow k (touch usages k)
touch-IsLaterRow usages k = elim (Option-cases (usages k.id)) [
  | inl n ↦ simp (touch, n) (refl, omega arith)
  | inr (t, e) ↦ simp (touch, e) (refl, ground arith)
]

touch_reaches :
    (usages : Map ℕ ℕ) (k : ApiKey) (t : ℕ)
    → usages k.id ≡ some t
    → t ≤ or_zero (touch usages k).last_used_at
touch_reaches usages k t e = simp (touch, e) (ground arith)

Mem-map : (f : ApiKey → ApiKey) (ks : List ApiKey) (k : ApiKey) → Memᴰ k ks → Memᴰ (f k) (map f ks)
Mem-map f [] k m = elim m [ ]
Mem-map f (x ∷ ks) k (Memᴰ.head e) = Memᴰ.head (ap f e)
Mem-map f (x ∷ ks) k (Memᴰ.tail m) = Memᴰ.tail (Mem-map f ks k m)

-- After any uses and a flush that reaches the database, the row of a key shows a last use that is
-- no earlier than each of its uses and no earlier than the one it showed before.
pub flush_shows_uses :
    (us : List (ℕ × ℕ)) (s : Service) (db : Db) (k : ApiKey) (ts : ℕ)
    → Memᴰ (k.id, ts) us
    → Memᴰ k db.api_keys
    → (k' : ApiKey) × Memᴰ k' (flush true (record_all us s) db).1.api_keys
      × IsLaterRow k k'
      × (ts ≤ or_zero k'.last_used_at)
unfolding flush touch_api_keys
flush_shows_uses us s db k ts used stored =
    let pending = (record_all us s).pending in
    let (t, e, le) = record_all-IsPending k.id ts us s used in
    (
      touch pending k,
      Mem-map (touch pending) db.api_keys k stored,
      touch-IsLaterRow pending k,
      omega (arith, touch_reaches pending k t e),
    )
