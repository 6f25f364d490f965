-- ===== src/TenantAuth/Cache/Keys.antt =====
-- Lists of distinct keys, and the keys of a list of elements.
use otel_fleet.Prelude.{
  suc, Text, text_eq, text_beq_iff, beq_self, ◌==◌, Bool, true, false, not, ◌&&◌, if◌then◌else◌,
  length, elem, map, none, some, List, [], ◌∷◌, ◌≡◌, refl, arith, Bool-cases, inl, inr,
}
use otel_fleet.TenantAuth.Cache.{LruItem, element, unlink, erase, back, drop_back}

abbrev pub keys : List LruItem → List Text
keys = map (λ x. x.key)

abbrev pub distinct : List Text → Bool
distinct [] = true
distinct (x ∷ xs) = not (elem x xs) && distinct xs

pub length-erase :
    (k : Text) (l : List Text) → elem k l ≡ true → suc (length (erase k l)) ≡ length l
unfolding erase
length-erase k [] h = cc
length-erase k (x ∷ xs) h = ground (arith, length-erase k xs)

pub elem-erase :
    (k j : Text) (l : List Text)
    → distinct l ≡ true
    → elem j (erase k l) ≡ (if k == j then false else elem j l)
unfolding erase
elem-erase k j [] h = ground arith
elem-erase k j (x ∷ xs) h =
    ground (arith, elem-erase k j xs, text_beq_iff x k, text_beq_iff x j, text_beq_iff k j)

pub distinct-erase : (k : Text) (l : List Text) → distinct l ≡ true → distinct (erase k l) ≡ true
unfolding erase
distinct-erase k [] h = refl
distinct-erase k (x ∷ xs) h = ground (arith, distinct-erase k xs, elem-erase k x xs)

pub keys-unlink : (k : Text) (l : List LruItem) → keys (unlink k l) ≡ erase k (keys l)
unfolding unlink erase
keys-unlink k [] = refl
keys-unlink k (x ∷ xs) = ground (arith, keys-unlink k xs)

-- Where the key is, there is an element, and it has the key.
pub element_found :
    (k : Text) (l : List LruItem)
    → elem k (keys l) ≡ true
    → (x : LruItem) × (element k l ≡ some x) × (x.key ≡ k)
unfolding element
element_found k [] h = cc
element_found k (x ∷ xs) h = elim (Bool-cases (x.key == k)) [
  | inl p ↦ (x, rw p refl, (text_beq_iff x.key k).0 p)
  | inr p ↦ let (y, e, q) = element_found k xs (ground arith) in (y, rw p e, q)
]

pub element-none : (k : Text) (l : List LruItem) → elem k (keys l) ≡ false → element k l ≡ none
unfolding element
element-none k [] h = refl
element-none k (x ∷ xs) h = ground (arith, element-none k xs)

-- The back of a list that is not empty, and what dropping it does to the keys.
pub back_found : (x : LruItem) (l : List LruItem) → (y : LruItem) × (back (x ∷ l) ≡ some y)
unfolding back
back_found x [] = (x, refl)
back_found x (y ∷ l) = back_found y l

pub back-elem : (l : List LruItem) (y : LruItem) → back l ≡ some y → elem y.key (keys l) ≡ true
unfolding back
back-elem [] y h = cc
back-elem (x ∷ []) y h = ground (arith, beq_self x.key)
back-elem (x ∷ z ∷ l) y h = ground (arith, back-elem (z ∷ l) y h)

pub keys-drop_back :
    (l : List LruItem) (y : LruItem)
    → distinct (keys l) ≡ true
    → back l ≡ some y
    → keys (drop_back l) ≡ erase y.key (keys l)
unfolding back drop_back erase
keys-drop_back [] y d h = refl
keys-drop_back (x ∷ []) y d h = ground (arith, beq_self x.key)
keys-drop_back (x ∷ z ∷ l) y d h = ground (
  arith,
  text_beq_iff x.key y.key,
  beq_self x.key,
  back-elem (z ∷ l) y h,
  keys-drop_back (z ∷ l) y (ground arith) h,
)

pub distinct-cons :
    (k : Text) (l : List Text) → elem k l ≡ false → distinct l ≡ true → distinct (k ∷ l) ≡ true
distinct-cons k l h d = rw (h, d)

pub elem-erase_self : (k : Text) (l : List Text) → distinct l ≡ true → elem k (erase k l) ≡ false
elem-erase_self k l d = rw (elem-erase k k l d, beq_self k)
