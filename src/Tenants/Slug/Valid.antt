-- ===== src/Tenants/Slug/Valid.antt =====
-- Lemmas on derived slugs and `valid_slug` (internal/tenants).
use otel_fleet.Prelude.{
  ℕ, zero, suc, ◌≤◌, ◌<◌, Text, text_eq, nat_eq, Bool, true, false, ltb, length, take, all,
  length-append, length-take-le, [], ◌∷◌, ◌++◌, ◌≡◌, refl, arith, ◌⊎◌, inl, inr, Bool-cases,
}
use otel_fleet.Tenants.Slug.{
  is_alnum, is_slug_char, ends_well, starts_well, valid_slug, hyphenate, trim_left, drop_hyphen,
  trim_right, trim, pad_once, pad, cut, derive_slug,
}

hyphenate-all :
    (lower : ℕ → ℕ) (last : Bool) (s : Text) → all is_slug_char (hyphenate lower last s) ≡ true
unfolding hyphenate
hyphenate-all lower last [] = refl
hyphenate-all lower last (r ∷ rs) =
    ground (arith, hyphenate-all lower false rs, hyphenate-all lower true rs)

take-all : (n : ℕ) (s : Text) → all is_slug_char s ≡ true → all is_slug_char (take n s) ≡ true
take-all zero s h = refl
take-all (suc n) [] h = refl
take-all (suc n) (c ∷ s) h = ground (arith, take-all n s)

-- A text that is empty, or starts and ends in a letter or a digit.
abbrev IsTrimmed : Text → Type 0
IsTrimmed s = (s ≡ []) ⊎ ((starts_well s ≡ true) × (ends_well s ≡ true))

trim_left-all : (s : Text) → all is_slug_char s ≡ true → all is_slug_char (trim_left s) ≡ true
unfolding trim_left
trim_left-all [] h = refl
trim_left-all (c ∷ s) h = ground (arith, trim_left-all s)

trim_left-starts :
    (s : Text) → all is_slug_char s ≡ true → (trim_left s ≡ []) ⊎ (starts_well (trim_left s) ≡ true)
unfolding trim_left starts_well
trim_left-starts [] h = inl refl
trim_left-starts (c ∷ s) h = ground (arith, trim_left-starts s)

drop_hyphen-ends :
    (c : ℕ) (t : Text)
    → is_slug_char c ≡ true
    → (t ≡ []) ⊎ (ends_well t ≡ true)
    → (drop_hyphen c t ≡ []) ⊎ (ends_well (drop_hyphen c t) ≡ true)
unfolding drop_hyphen ends_well
drop_hyphen-ends c [] h k = ground arith
drop_hyphen-ends c (d ∷ s) h k = ground arith

trim_right-ends :
    (s : Text) → all is_slug_char s ≡ true → (trim_right s ≡ []) ⊎ (ends_well (trim_right s) ≡ true)
unfolding trim_right
trim_right-ends [] h = inl refl
trim_right-ends (c ∷ s) h =
    drop_hyphen-ends c (trim_right s) (ground arith) (trim_right-ends s (ground arith))

drop_hyphen-starts : (c : ℕ) (t : Text) → is_alnum c ≡ true → starts_well (drop_hyphen c t) ≡ true
unfolding drop_hyphen starts_well
drop_hyphen-starts c [] h = ground arith
drop_hyphen-starts c (d ∷ s) h = h

trim_right-starts : (s : Text) → starts_well s ≡ true → starts_well (trim_right s) ≡ true
unfolding trim_right starts_well
trim_right-starts [] h = cc
trim_right-starts (c ∷ s) h = unfold drop_hyphen in drop_hyphen-starts c (trim_right s) h

trim-IsTrimmed : (s : Text) → all is_slug_char s ≡ true → IsTrimmed (trim s)
unfolding trim
trim-IsTrimmed s h = elim (trim_left-starts s h) [
  | inl e ↦ inl (rw e (unfold trim_right in refl))
  | inr p ↦ elim (trim_right-ends (trim_left s) (trim_left-all s h)) [
    | inl e ↦ inl e
    | inr q ↦ inr (trim_right-starts (trim_left s) p, q)
  ]
]

length-trim_left : (s : Text) → length (trim_left s) ≤ length s
unfolding trim_left
length-trim_left [] = omega arith
length-trim_left (c ∷ s) = ground (arith, length-trim_left s)

length-drop_hyphen : (c : ℕ) (t : Text) → length (drop_hyphen c t) ≤ suc (length t)
unfolding drop_hyphen
length-drop_hyphen c [] = ground arith
length-drop_hyphen c (d ∷ s) = omega arith

length-trim_right : (s : Text) → length (trim_right s) ≤ length s
unfolding trim_right
length-trim_right [] = omega arith
length-trim_right (c ∷ s) = omega (arith, length-drop_hyphen c (trim_right s), length-trim_right s)

length-trim : (s : Text) → length (trim s) ≤ length s
unfolding trim
length-trim s = omega (arith, length-trim_right (trim_left s), length-trim_left s)

drop_hyphen-all :
    (c : ℕ) (t : Text)
    → is_slug_char c ≡ true
    → all is_slug_char t ≡ true
    → all is_slug_char (drop_hyphen c t) ≡ true
unfolding drop_hyphen
drop_hyphen-all c [] h k = ground arith
drop_hyphen-all c (d ∷ s) h k = ground arith

trim_right-all : (s : Text) → all is_slug_char s ≡ true → all is_slug_char (trim_right s) ≡ true
unfolding trim_right
trim_right-all [] h = refl
trim_right-all (c ∷ s) h =
    drop_hyphen-all c (trim_right s) (ground arith) (trim_right-all s (ground arith))

trim-all : (s : Text) → all is_slug_char s ≡ true → all is_slug_char (trim s) ≡ true
unfolding trim
trim-all s h = trim_right-all (trim_left s) (trim_left-all s h)

cut_lem :
    (s : Text) → all is_slug_char s ≡ true → IsTrimmed (cut (trim s)) × (length (cut (trim s)) ≤ 64)
unfolding cut
cut_lem s h = elim (Bool-cases (ltb 64 (length (trim s)))) [
  | inl p ↦ rw p (
    trim-IsTrimmed (take 64 (trim s)) (take-all 64 (trim s) (trim-all s h)),
    omega (arith, length-trim (take 64 (trim s)), length-take-le 64 (trim s)),
  )
  | inr p ↦ rw p (trim-IsTrimmed s h, ground arith)
]

ends_well-append : (s : Text) → ends_well s ≡ true → ends_well (s ++ b'0' ∷ []) ≡ true
unfolding ends_well
ends_well-append [] h = cc
ends_well-append (c ∷ []) h = ground arith
ends_well-append (c ∷ d ∷ s) h = ground (arith, ends_well-append (d ∷ s))

starts_well-append : (s : Text) → starts_well s ≡ true → starts_well (s ++ b'0' ∷ []) ≡ true
unfolding starts_well
starts_well-append [] h = cc
starts_well-append (c ∷ s) h = h

abbrev IsPadded : ℕ → Text → Type 0
IsPadded n s = (starts_well s ≡ true) × (ends_well s ≡ true) × (n ≤ length s) × (length s ≤ 64)

pad_first : (s : Text) → IsTrimmed s → length s ≤ 64 → IsPadded 1 (pad_once s)
unfolding pad_once
pad_first [] t h = unfold starts_well ends_well in (refl, refl, omega arith, omega arith)
pad_first (c ∷ s) (inl e) h = cc
pad_first (c ∷ s) (inr t) h =
    ground (
      arith,
      length-append (c ∷ s) (b'0' ∷ []),
      ends_well-append (c ∷ s),
      starts_well-append (c ∷ s),
    )

pad_next : (n : ℕ) (s : Text) → 0 < n → n ≤ 2 → IsPadded n s → IsPadded (suc n) (pad_once s)
unfolding pad_once
pad_next n [] p q h = absurd (omega arith)
pad_next n (c ∷ s) p q h =
    ground (
      arith,
      length-append (c ∷ s) (b'0' ∷ []),
      ends_well-append (c ∷ s),
      starts_well-append (c ∷ s),
    )

-- Whatever the name, and whatever the lower case of a rune is, the derived slug is valid.
pub derive_slug-valid : (lower : ℕ → ℕ) (name : Text) → valid_slug (derive_slug lower name) ≡ true
unfolding derive_slug valid_slug pad
derive_slug-valid lower name =
    let (trimmed, short) = cut_lem (hyphenate lower true name) (hyphenate-all lower true name) in
    let padded =
      pad_next 2 _ (omega arith) (omega arith)
        (pad_next 1 _ (omega arith) (omega arith) (pad_first _ trimmed short)) in
    ground arith
