-- ===== src/TenantAuth/Cache.antt =====
-- cache.go of tenantauth: an LRU of validation results. An element of the linked list is named by
-- the key that it was made with, which never changes, so the map from keys to elements is the list
-- of its keys, each of which stands for the element of that key.
pub mod Keys
pub mod Index
pub mod Recency
pub mod Entries
use otel_fleet.Prelude.{
  ℕ, zero, suc, ◌+◌, Text, text_eq, ◌==◌, Bool, true, false, ltb, if◌then◌else◌, length, elem, map,
  Option, none, some, List, [], ◌∷◌,
}

pub record AuthData : Type 0 where
  pub tenant_id : Text
  pub client_id : Text
  pub customer_id : Text
  pub rate_limit_items_per_sec : ℕ

pub record CacheEntry : Type 0 where
  pub valid : Bool
  pub data_of : Option AuthData
  pub fresh_until : ℕ
  pub stale_until : ℕ

pub record LruItem : Type 0 where
  pub key : Text
  pub entry : CacheEntry

pub record KeyCache : Type 0 where
  pub max_entries : ℕ
  pub ll : List LruItem
  pub items : List Text

abbrev pub new_key_cache : ℕ → KeyCache
new_key_cache n = record { max_entries = n; ll = []; items = [] }

-- The element of a key.
unfoldable pub element : Text → List LruItem → Option LruItem
element k [] = none
element k (x ∷ xs) = if x.key == k then some x else element k xs

-- The list without the element of a key.
unfoldable pub unlink : Text → List LruItem → List LruItem
unlink k [] = []
unlink k (x ∷ xs) = let rest = unlink k xs in if x.key == k then xs else x ∷ rest

-- delete(c.items, key)
unfoldable pub erase : Text → List Text → List Text
erase k [] = []
erase k (x ∷ xs) = let rest = erase k xs in if x == k then xs else x ∷ rest

-- ll.Back(), and the list without it
unfoldable pub back : List LruItem → Option LruItem
back [] = none
back (x ∷ []) = some x
back (x ∷ y ∷ xs) = back (y ∷ xs)

unfoldable pub drop_back : List LruItem → List LruItem
drop_back [] = []
drop_back (x ∷ []) = []
drop_back (x ∷ y ∷ xs) = x ∷ drop_back (y ∷ xs)

-- ll.MoveToFront, and the entry that is read after it
unfoldable pub move_to_front : Option LruItem → KeyCache → KeyCache × Option CacheEntry
move_to_front none c = (c, none)
move_to_front (some x) c = (record c { ll = x ∷ unlink x.key c.ll }, some x.entry)

unfoldable pub get : Text → KeyCache → KeyCache × Option CacheEntry
get hash c = if elem hash c.items then move_to_front (element hash c.ll) c else (c, none)

-- The loop of `put`, on fuel: each round drops an element.
unfoldable pub evict : ℕ → KeyCache → KeyCache
evict zero c = c
evict (suc fuel) c =
    if ltb c.max_entries (length c.items)
    then elim (back c.ll) [
      | none ↦ c
      | some oldest ↦
          evict fuel (record c { ll = drop_back c.ll; items = erase oldest.key c.items })
    ]
    else c

unfoldable pub put : Text → CacheEntry → KeyCache → KeyCache
put hash e c =
    let item : LruItem = record { key = hash; entry = e } in
    if elem hash c.items
    then record c { ll = item ∷ unlink hash c.ll }
    else let grown = record c { ll = item ∷ c.ll; items = hash ∷ c.items } in
      evict (length grown.items) grown
