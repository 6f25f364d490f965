-- ===== src/Store/Rows.antt =====
-- Tables under the conditions and the changes of the queries.
use otel_fleet.Prelude.{
  ◌≡◌, inl, inr, refl, nat_eq, text_eq, Bool, true, false, ◌||◌, none, List, [], ◌∷◌, ◌++◌, map,
  any, find?, filter, All, arith, Bool-cases,
}
use otel_fleet.Store.{update_where}

module _ {ℓ} {A : Type ℓ} where
  pub any-append : (p : A → Bool) (xs ys : List A) → any p (xs ++ ys) ≡ (any p xs || any p ys)
  any-append p [] ys = refl
  any-append p (x ∷ xs) ys = ground (arith, any-append p xs ys)

  pub find?-none : (p : A → Bool) (xs : List A) → All (λ x. p x ≡ false) xs → find? p xs ≡ none
  find?-none p [] h = refl
  find?-none p (x ∷ xs) h = ground (arith, h.0, find?-none p xs h.1)

  pub any-All : (p : A → Bool) (xs : List A) → All (λ x. p x ≡ false) xs → any p xs ≡ false
  any-All p [] h = refl
  any-All p (x ∷ xs) h = ground (arith, h.0, any-All p xs h.1)

  pub any-false-All : (p : A → Bool) (xs : List A) → any p xs ≡ false → All (λ x. p x ≡ false) xs
  any-false-All p [] h = tt
  any-false-All p (x ∷ xs) h = (ground arith, any-false-All p xs (ground arith))

  -- A change that the test does not see.
  pub any-update_where :
      (p test : A → Bool) (change : A → A) (xs : List A)
      → ((x : A) → p (change x) ≡ p x)
      → any p (update_where test change xs) ≡ any p xs
  unfolding update_where
  any-update_where p test change [] h = refl
  any-update_where p test change (x ∷ xs) h =
      let rest = any-update_where p test change xs h in
      elim (Bool-cases (test x)) [ inl t ↦ rw (t, h x, rest) | inr t ↦ rw (t, rest) ]

  pub any-map :
      (p : A → Bool) (f : A → A) (xs : List A)
      → ((x : A) → p (f x) ≡ p x)
      → any p (map f xs) ≡ any p xs
  any-map p f [] h = refl
  any-map p f (x ∷ xs) h = rw (h x, any-map p f xs h)

module _ {ℓ κ} {A : Type ℓ} (P : A → Type κ) where
  pub All-update_where :
      (test : A → Bool) (change : A → A) (xs : List A)
      → ((x : A) → P x → test x ≡ true → P (change x))
      → All P xs
      → All P (update_where test change xs)
  unfolding update_where
  All-update_where test change [] h a = tt
  All-update_where test change (x ∷ xs) h a =
      let rest = All-update_where test change xs h a.1 in
      elim (Bool-cases (test x)) [ inl t ↦ rw t (h x a.0 t, rest) | inr t ↦ rw t (a.0, rest) ]

  -- The change makes true what already holds of the rows that it leaves alone.
  pub update_where-All :
      (test : A → Bool) (change : A → A) (xs : List A)
      → ((x : A) → test x ≡ true → P (change x))
      → ((x : A) → test x ≡ false → P x)
      → All P (update_where test change xs)
  unfolding update_where
  update_where-All test change [] h k = tt
  update_where-All test change (x ∷ xs) h k =
      let rest = update_where-All test change xs h k in
      elim (Bool-cases (test x)) [ inl t ↦ rw t (h x t, rest) | inr t ↦ rw t (k x t, rest) ]

  pub All-map : (f : A → A) (xs : List A) → ((x : A) → P x → P (f x)) → All P xs → All P (map f xs)
  All-map f [] h a = tt
  All-map f (x ∷ xs) h a = (h x a.0, All-map f xs h a.1)

  pub All-filter : (p : A → Bool) (xs : List A) → All P xs → All P (filter p xs)
  All-filter p [] a = tt
  All-filter p (x ∷ xs) a = elim (Bool-cases (p x)) [
    | inl t ↦ rw t (a.0, All-filter p xs a.1)
    | inr t ↦ rw t (All-filter p xs a.1)
  ]

module _ {ℓ κ μ} {A : Type ℓ} (P : A → Type κ) (Q : A → Type μ) where
  pub All-weaken : (xs : List A) → ((x : A) → P x → Q x) → All P xs → All Q xs
  All-weaken [] h a = tt
  All-weaken (x ∷ xs) h a = (h x a.0, All-weaken xs h a.1)
