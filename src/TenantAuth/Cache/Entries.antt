-- ===== src/TenantAuth/Cache/Entries.antt =====
-- Properties of every entry of the cache, under reads and writes.
use otel_fleet.Prelude.{
  ℕ, zero, suc, Text, text_eq, text_beq_iff, ◌==◌, ltb, length, elem, All, some, List, [], ◌∷◌, ◌≡◌,
  arith, Bool-cases, Option-cases, inl, inr, subst,
}
use otel_fleet.TenantAuth.Cache.{
  CacheEntry, LruItem, KeyCache, element, unlink, erase, back, drop_back, move_to_front, get, evict,
  put,
}

module _ (Q : Text → CacheEntry → Type 0) where
  abbrev AllItems : List LruItem → Type 0
  AllItems = All (λ (x : LruItem). Q x.key x.entry)

  -- Every entry has the property at its key.
  abbrev pub Holds : KeyCache → Type 0
  Holds c = AllItems c.ll

  element-Holds :
      (k : Text) (l : List LruItem) (x : LruItem)
      → AllItems l
      → element k l ≡ some x
      → Q x.key x.entry × (x.key ≡ k)
  unfolding element
  element-Holds k [] x h e = cc
  element-Holds k (y ∷ l) x h e = elim (Bool-cases (y.key == k)) [
    | inl p ↦
        let s : y ≡ x = ground (arith, p) in
        (
          subst (λ (z : LruItem). Q z.key z.entry) s h.0,
          subst (λ (z : LruItem). z.key ≡ k) s ((text_beq_iff y.key k).0 p),
        )
    | inr p ↦ element-Holds k l x h.1 (ground arith)
  ]

  unlink-Holds : (k : Text) (l : List LruItem) → AllItems l → AllItems (unlink k l)
  unfolding unlink
  unlink-Holds k [] h = tt
  unlink-Holds k (y ∷ l) h = elim (Bool-cases (y.key == k)) [
    | inl p ↦ rw p h.1
    | inr p ↦ rw p (h.0, unlink-Holds k l h.1)
  ]

  drop_back-Holds : (l : List LruItem) → AllItems l → AllItems (drop_back l)
  unfolding drop_back
  drop_back-Holds [] h = tt
  drop_back-Holds (x ∷ []) h = tt
  drop_back-Holds (x ∷ y ∷ l) h = (h.0, drop_back-Holds (y ∷ l) h.1)

  pub get-Holds : (k : Text) (c : KeyCache) → Holds c → Holds (get k c).0
  unfolding get move_to_front
  get-Holds k c h = elim (Bool-cases (elem k c.items)) [
    | inl p ↦ elim (Option-cases (element k c.ll)) [
      | inl e ↦ rw (p, e) h
      | inr (x, e) ↦ rw (p, e) ((element-Holds k c.ll x h e).0, unlink-Holds x.key c.ll h)
    ]
    | inr p ↦ rw p h
  ]

  -- What a read returns has the property at the key that was asked for.
  pub get_returns :
      (k : Text) (c : KeyCache) (e : CacheEntry) → Holds c → (get k c).1 ≡ some e → Q k e
  unfolding get move_to_front
  get_returns k c e h r = elim (Bool-cases (elem k c.items)) [
    | inl p ↦ elim (Option-cases (element k c.ll)) [
      | inl n ↦ cc (rw (p, n) at r)
      | inr (x, s) ↦
          let (q, same) = element-Holds k c.ll x h s in
          let f : x.entry ≡ e = cc (rw (p, s) at r) in
          subst (λ (z : CacheEntry). Q k z) f (subst (λ (j : Text). Q j x.entry) same q)
    ]
    | inr p ↦ cc (rw p at r)
  ]

  evict-Holds : (fuel : ℕ) (c : KeyCache) → Holds c → Holds (evict fuel c)
  unfolding evict
  evict-Holds zero c h = h
  evict-Holds (suc fuel) c h = elim (Bool-cases (ltb c.max_entries (length c.items))) [
    | inl p ↦ elim (Option-cases (back c.ll)) [
      | inl n ↦ rw (p, n) h
      | inr (x, s) ↦
          rw (p, s)
            (evict-Holds fuel (record c { ll = drop_back c.ll; items = erase x.key c.items })
              (drop_back-Holds c.ll h))
    ]
    | inr p ↦ rw p h
  ]

  pub put-Holds : (k : Text) (e : CacheEntry) (c : KeyCache) → Q k e → Holds c → Holds (put k e c)
  unfolding put
  put-Holds k e c q h = elim (Bool-cases (elem k c.items)) [
    | inl p ↦ rw p (q, unlink-Holds k c.ll h)
    | inr p ↦ rw p (
        evict-Holds (suc (length c.items))
          (record c { ll = record { key = k; entry = e } ∷ c.ll; items = k ∷ c.items }) (q, h))
  ]

-- A property may be weakened in every entry.
pub Holds-map :
    (P Q : Text → CacheEntry → Type 0)
    → ((k : Text) (e : CacheEntry) → P k e → Q k e)
    → (c : KeyCache) → Holds P c
    → Holds Q c
Holds-map P Q f c h = over c.ll h
  where
    over :
        (l : List LruItem)
        → All (λ (x : LruItem). P x.key x.entry) l
        → All (λ (x : LruItem). Q x.key x.entry) l
    over [] h = tt
    over (x ∷ l) h = (f x.key x.entry h.0, over l h.1)
