-- ===== src/Tenants/Keys/Split.antt =====
-- What SplitN gives, and what a text was that it gave parts of.
use otel_fleet.Prelude.{
  ℕ, zero, suc, Text, nat_eq, text_eq, ◌==◌, false, ◌≡◌, refl, List, [], ◌∷◌, ◌++◌, Bool-cases, inl,
  inr, nat_beq_iff,
}
use otel_fleet.Tenants.Keys.{sep, push, split_n}

abbrev pub NoSep : Text → Type 0
NoSep [] = Unit
NoSep (c ∷ s) = ((c == sep) ≡ false) × NoSep s

pub split_n-append :
    (cuts : ℕ) (a s : Text) → NoSep a → split_n (suc cuts) (a ++ sep ∷ s) ≡ a ∷ split_n cuts s
unfolding split_n
split_n-append cuts [] s h = refl
split_n-append cuts (c ∷ a) s h = rw (h.0, split_n-append cuts a s h.1)

push-cons :
    (c : ℕ) (l : List Text) (a b : Text) (rest : List Text)
    → push c l ≡ a ∷ b ∷ rest
    → (p : Text) × (a ≡ c ∷ p) × (l ≡ p ∷ b ∷ rest)
unfolding push
push-cons c [] a b rest h = cc
push-cons c (p ∷ ps) a b rest h = (p, cc, cc)

-- The first of several parts ends at a separator.
pub split_n-cons :
    (cuts : ℕ) (s a b : Text) (rest : List Text)
    → split_n cuts s ≡ a ∷ b ∷ rest
    → (k : ℕ) × (t : Text) × (cuts ≡ suc k) × (s ≡ a ++ sep ∷ t) × (split_n k t ≡ b ∷ rest)
unfolding split_n
split_n-cons zero [] a b rest h = cc
split_n-cons (suc k) [] a b rest h = cc
split_n-cons zero (c ∷ s) a b rest h = cc
split_n-cons (suc k) (c ∷ s) a b rest h = elim (Bool-cases (c == sep)) [
  | inl p ↦ let e = rw p at h in cut_here ((nat_beq_iff c sep).0 p) e
  | inr p ↦
      let (q, ea, el) = push-cons c (split_n (suc k) s) a b rest (rw p at h) in
      let (j, t, ek, es, et) = split_n-cons (suc k) s q b rest el in (j, t, ek, rw (ea, es), et)
]
  where
    cut_here :
        c ≡ sep
        → [] ∷ split_n k s ≡ a ∷ b ∷ rest
        → (j : ℕ) × (t : Text) × (suc k ≡ suc j) × (c ∷ s ≡ a ++ sep ∷ t) × (split_n j t ≡ b ∷ rest)
    cut_here e f = (k, s, refl, rw (e, ← first) refl, cc)
      where
        first : [] ≡ a
        first = cc

-- Without cuts the text is the only part.
pub split_n-zero : (s b : Text) (rest : List Text) → split_n 0 s ≡ b ∷ rest → (s ≡ b) × (rest ≡ [])
unfolding split_n
split_n-zero [] b rest h = (cc, cc)
split_n-zero (c ∷ s) b rest h = (cc, cc)

pub split_n_none : (s : Text) → split_n 0 s ≡ s ∷ []
unfolding split_n
split_n_none [] = refl
split_n_none (c ∷ s) = refl
