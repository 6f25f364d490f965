-- ===== src/Pipelines/Pairs.antt =====
-- Lists whose elements are pairwise related.
use otel_fleet.Prelude.{inl, inr, Bool, Bool-cases, List, [], ◌∷◌, ◌++◌, filter, All}

abbrev pub Pairwise : {A : Type 0} → (A → A → Type 0) → List A → Type 0
Pairwise R [] = Unit
Pairwise R (x ∷ xs) = All (R x) xs × Pairwise R xs

pub All-imp :
    {A : Type 0} {P Q : A → Type 0} → ((x : A) → P x → Q x) → (l : List A) → All P l → All Q l
All-imp f [] h = tt
All-imp f (x ∷ l) h = (f x h.0, All-imp f l h.1)

pub All-filter :
    {A : Type 0} (P : A → Type 0) (t : A → Bool) (l : List A) → All P l → All P (filter t l)
All-filter P t [] h = tt
All-filter P t (x ∷ l) h = elim (Bool-cases (t x)) [
  | inl q ↦ rw q (h.0, All-filter P t l h.1)
  | inr q ↦ rw q (All-filter P t l h.1)
]

pub Pairwise-filter :
    {A : Type 0} (R : A → A → Type 0) (t : A → Bool) (l : List A)
    → Pairwise R l
    → Pairwise R (filter t l)
Pairwise-filter R t [] h = tt
Pairwise-filter R t (x ∷ l) h = elim (Bool-cases (t x)) [
  | inl q ↦ rw q (All-filter (R x) t l h.0, Pairwise-filter R t l h.1)
  | inr q ↦ rw q (Pairwise-filter R t l h.1)
]

All-snoc : {A : Type 0} (P : A → Type 0) (l : List A) (y : A) → All P l → P y → All P (l ++ y ∷ [])
All-snoc P [] y h k = (k, tt)
All-snoc P (x ∷ l) y h k = (h.0, All-snoc P l y h.1 k)

pub Pairwise-snoc :
    {A : Type 0} (R : A → A → Type 0) (l : List A) (y : A)
    → Pairwise R l
    → All (λ x. R x y) l
    → Pairwise R (l ++ y ∷ [])
Pairwise-snoc R [] y h k = (tt, tt)
Pairwise-snoc R (x ∷ l) y h k = (All-snoc (R x) l y h.0 k.0, Pairwise-snoc R l y h.1 k.1)
