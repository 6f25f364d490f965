-- ===== src/TenantAuth/Cache/Recency.antt =====
-- The cache of the extension tenantauth against a specification with one list and no map.
use native.Mathlib.Decide.{dec_lt}
use otel_fleet.Prelude.{
  ℕ, zero, suc, ◌≤◌, ◌<◌, Text, text_eq, true, false, length, elem, take, Option, none, some, List,
  [], ◌∷◌, ◌≡◌, refl, ap, sym, ◌∙◌, arith, length-take-le, Bool-cases, inl, inr,
}
use otel_fleet.TenantAuth.Cache.{
  CacheEntry, LruItem, KeyCache, element, unlink, drop_back, move_to_front, get, put,
}
use otel_fleet.TenantAuth.Cache.Keys.{keys, element_found, element-none, back_found}
use otel_fleet.TenantAuth.Cache.Index.{
  IsCache, refront-IsIndexed, push-IsIndexed, drop_back-IsIndexed, evict_within, evict_over,
}

abbrev read_front : Text → List LruItem → Option LruItem → List LruItem × Option CacheEntry
read_front k l none = (l, none)
read_front k l (some x) = (x ∷ unlink k l, some x.entry)

-- A read moves what it finds to the front.
abbrev pub spec_get : Text → List LruItem → List LruItem × Option CacheEntry
spec_get k l = read_front k l (element k l)

-- A write goes to the front, and what no longer fits is forgotten.
abbrev pub spec_put : ℕ → Text → CacheEntry → List LruItem → List LruItem
spec_put n k e l = take n (record { key = k; entry = e } ∷ unlink k l)

unlink_absent : (k : Text) (l : List LruItem) → elem k (keys l) ≡ false → unlink k l ≡ l
unfolding unlink
unlink_absent k [] h = refl
unlink_absent k (x ∷ l) h = ground (arith, unlink_absent k l)

take_all : (n : ℕ) (l : List LruItem) → length l ≤ n → take n l ≡ l
take_all zero [] h = refl
take_all zero (x ∷ l) h = absurd (omega arith)
take_all (suc n) [] h = refl
take_all (suc n) (x ∷ l) h = ap (◌∷◌ x) (take_all n l (omega arith))

drop_back-eq-take : (n : ℕ) (l : List LruItem) → length l ≡ suc n → drop_back l ≡ take n l
unfolding drop_back
drop_back-eq-take n [] h = absurd (omega arith)
drop_back-eq-take zero (x ∷ []) h = refl
drop_back-eq-take (suc n) (x ∷ []) h = absurd (omega arith)
drop_back-eq-take zero (x ∷ y ∷ l) h = absurd (omega arith)
drop_back-eq-take (suc n) (x ∷ y ∷ l) h = ap (◌∷◌ x) (drop_back-eq-take n (y ∷ l) (omega arith))

length-unlink : (k : Text) (l : List LruItem) → length (unlink k l) ≤ length l
unfolding unlink
length-unlink k [] = omega arith
length-unlink k (x ∷ l) = ground (arith, length-unlink k l)

refronted :
    (x : LruItem) (c : KeyCache)
    → elem x.key c.items ≡ true
    → IsCache c
    → IsCache (record c { ll = x ∷ unlink x.key c.ll })
refronted x c p h =
    let i = refront-IsIndexed x p h.indexed in
    record { indexed = i; bounded = omega (arith, i.size, h.indexed.size, h.bounded) }

-- With its index in order a read gives what the list of uses gives, and keeps the index.
pub get_refines :
    (k : Text) (c : KeyCache)
    → IsCache c
    → (((get k c).0.ll, (get k c).1) ≡ spec_get k c.ll) × IsCache (get k c).0
unfolding get move_to_front
get_refines k c h = elim (Bool-cases (elem k c.items)) [
  | inl p ↦
      let (x, e, q) = element_found k c.ll (sym (h.indexed.same k) ∙ p) in
      rw (p, e) (ap (λ j. (x ∷ unlink j c.ll, some x.entry)) q, refronted x c (rw q p) h)
  | inr p ↦ rw (p, element-none k c.ll (sym (h.indexed.same k) ∙ p)) (refl, h)
]

module _ (k : Text) (e : CacheEntry) (c : KeyCache) where
  abbrev item : LruItem
  item = record { key = k; entry = e }

  abbrev Refines : Type 0
  Refines = ((put k e c).ll ≡ spec_put c.max_entries k e c.ll) × IsCache (put k e c)

  put_present : elem k c.items ≡ true → IsCache c → Refines
  unfolding put
  put_present p h =
      let i = refronted item c p h in rw p (sym (take_all c.max_entries _ i.bounded), i)

  abbrev grown : KeyCache
  grown = record c { ll = item ∷ c.ll; items = k ∷ c.items }

  put_absent_room : elem k c.items ≡ false → length c.ll < c.max_entries → IsCache c → Refines
  unfolding put
  put_absent_room p room h =
      let i = push-IsIndexed item p h.indexed in
      rw
        (
          p,
          evict_within (length grown.items) grown (omega (arith, h.indexed.size)),
          unlink_absent k c.ll (sym (h.indexed.same k) ∙ p),
        )
        (sym (take_all c.max_entries _ room), record { indexed = i; bounded = room })

  put_absent_full :
      elem k c.items ≡ false → 0 < c.max_entries → length c.ll ≡ c.max_entries → IsCache c → Refines
  unfolding put
  put_absent_full p positive full h =
      let i = push-IsIndexed item p h.indexed in
      let (y, b) = back_found item c.ll in
      let j = drop_back-IsIndexed y b i in
      let cut = drop_back-eq-take c.max_entries (item ∷ c.ll) (omega arith) in
      rw
        (
          p,
          evict_over (length c.items) grown y b i (omega (arith, h.indexed.size)),
          unlink_absent k c.ll (sym (h.indexed.same k) ∙ p),
        )
        (cut, record { indexed = j; bounded = rw cut (length-take-le c.max_entries (item ∷ c.ll)) })

  -- In a cache with a positive capacity and its index in order, a write keeps the index and the
  -- bound, and leaves what the bounded list of uses leaves: the entry in front, the others in their
  -- order, and no more than the capacity.
  pub put_refines : 0 < c.max_entries → IsCache c → Refines
  put_refines positive h = elim (Bool-cases (elem k c.items)) [
    | inl p ↦ put_present p h
    | inr p ↦ elim (dec_lt (length c.ll) c.max_entries) [
      | yes room ↦ put_absent_room p room h
      | no full ↦ put_absent_full p positive (omega (arith, h.bounded)) h
    ]
  ]
