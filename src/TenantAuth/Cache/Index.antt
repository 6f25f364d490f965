-- ===== src/TenantAuth/Cache/Index.antt =====
-- Lemmas on the cache of the extension tenantauth: its map against its list.
use otel_fleet.Prelude.{
  ℕ, zero, suc, ◌≤◌, Text, text_eq, text_beq_iff, true, false, length, elem, some, List, [], ◌∷◌,
  ◌≡◌, refl, ap, sym, ◌∙◌, arith,
}
use otel_fleet.TenantAuth.Cache.{
  LruItem, KeyCache, new_key_cache, unlink, erase, back, drop_back, evict,
}
use otel_fleet.TenantAuth.Cache.Keys.{
  keys, distinct, length-erase, elem-erase, distinct-erase, keys-unlink, back-elem, keys-drop_back,
  distinct-cons, elem-erase_self,
}

-- The index is exact: the list has the keys of the map, each of them once.
pub record IsIndexed (ll : List LruItem) (items : List Text) : Type 0 where
  pub same : (k : Text) → elem k items ≡ elem k (keys ll)
  pub size : length items ≡ length ll
  pub once : distinct items ≡ true
  pub linked_once : distinct (keys ll) ≡ true

pub record IsCache (c : KeyCache) : Type 0 where
  pub indexed : IsIndexed c.ll c.items
  pub bounded : length c.ll ≤ c.max_entries

pub length-keys : (l : List LruItem) → length (keys l) ≡ length l
length-keys [] = refl
length-keys (x ∷ l) = ap suc (length-keys l)

pub IsCache-new_key_cache : (n : ℕ) → IsCache (new_key_cache n)
IsCache-new_key_cache n = record {
  indexed = record { same = λ k. refl; size = refl; once = refl; linked_once = refl };
  bounded = omega arith;
}

-- Moving an element to the front, or giving its key a new value there, keeps the index.
pub refront-IsIndexed :
    (x : LruItem) {ll : List LruItem} {items : List Text}
    → elem x.key items ≡ true
    → IsIndexed ll items
    → IsIndexed (x ∷ unlink x.key ll) items
refront-IsIndexed x {ll} {items} present h =
    let linked : elem x.key (keys ll) ≡ true = sym (h.same x.key) ∙ present in
    record {
      same = λ k. rw (keys-unlink x.key ll) (
          ground
            (arith, h.same k, elem-erase x.key k (keys ll) h.linked_once, text_beq_iff x.key k));
      size = omega (
        arith,
        h.size,
        length-keys ll,
        length-erase x.key (keys ll) linked,
        length-keys (unlink x.key ll),
        ap length (keys-unlink x.key ll),
      );
      once = h.once;
      linked_once = rw (keys-unlink x.key ll) (
          distinct-cons x.key _ (elem-erase_self x.key (keys ll) h.linked_once)
            (distinct-erase x.key (keys ll) h.linked_once));
    }

-- Dropping the back and its key keeps the index.
pub drop_back-IsIndexed :
    {ll : List LruItem} {items : List Text} (y : LruItem)
    → back ll ≡ some y
    → IsIndexed ll items
    → IsIndexed (drop_back ll) (erase y.key items)
drop_back-IsIndexed {ll} {items} y e h =
    let k-e = keys-drop_back ll y h.linked_once e in
    record {
      same = λ k. rw k-e (
          ground (
            arith,
            h.same k,
            elem-erase y.key k (keys ll) h.linked_once,
            elem-erase y.key k items h.once,
          ));
      size = omega (
        arith,
        h.size,
        length-keys ll,
        length-keys (drop_back ll),
        ap length k-e,
        length-erase y.key (keys ll) (back-elem ll y e),
        length-erase y.key items (h.same y.key ∙ back-elem ll y e),
      );
      once = distinct-erase y.key items h.once;
      linked_once = rw k-e (distinct-erase y.key (keys ll) h.linked_once);
    }

-- A new element in front.
pub push-IsIndexed :
    (x : LruItem) {ll : List LruItem} {items : List Text}
    → elem x.key items ≡ false
    → IsIndexed ll items
    → IsIndexed (x ∷ ll) (x.key ∷ items)
push-IsIndexed x {ll} {items} absent h = record {
  same = λ k. ground (arith, h.same k);
  size = omega (arith, h.size);
  once = distinct-cons x.key items absent h.once;
  linked_once = distinct-cons x.key (keys ll) (sym (h.same x.key) ∙ absent) h.linked_once;
}

-- Where nothing is over the capacity the loop stops at once.
pub evict_within : (fuel : ℕ) (c : KeyCache) → length c.items ≤ c.max_entries → evict fuel c ≡ c
unfolding evict
evict_within zero c h = refl
evict_within (suc fuel) c h = ground arith

-- One element over the capacity, the loop drops the back and stops.
pub evict_over :
    (fuel : ℕ) (c : KeyCache) (y : LruItem)
    → back c.ll ≡ some y
    → IsIndexed c.ll c.items
    → length c.items ≡ suc c.max_entries
    → evict (suc fuel) c ≡ record c { ll = drop_back c.ll; items = erase y.key c.items }
unfolding evict
evict_over fuel c y e h over =
    let small : length (erase y.key c.items) ≤ c.max_entries =
      omega (arith, length-erase y.key c.items (h.same y.key ∙ back-elem c.ll y e)) in
    rw e (
      ground (
        arith,
        evict_within fuel (record c { ll = drop_back c.ll; items = erase y.key c.items }) small,
      ))
