-- ===== src/Access/Roles.antt =====
-- internal/authz/authz.go. A role is a text; the map of levels has 0 for a name that it lacks.
use otel_fleet.Prelude.{
  ◌≡◌, ◌⊎◌, ◌↔◌, refl, inl, inr, ℕ, ◌≤◌, Text, codes, text_eq, nat_eq, text_beq_iff, ◌==◌, Bool,
  true, not, ◌&&◌, leb, if◌then◌else◌, arith, Bool-cases,
}

abbrev pub role_viewer : Text
role_viewer = codes "viewer"

abbrev pub role_operator : Text
role_operator = codes "operator"

abbrev pub role_admin : Text
role_admin = codes "admin"

unfoldable pub level : Text → ℕ
level role =
    if role == role_viewer
    then 1
    else if role == role_operator
    then 2
    else if role == role_admin
    then 3
    else 0

-- Known
unfoldable pub known : Text → Bool
known role = not (level role == 0)

-- Rank
unfoldable pub rank : Text → ℕ
rank role = level role

unfoldable pub at_least : Text → Text → Bool
at_least role minimum =
    not (level role == 0) && not (level minimum == 0) && leb (level minimum) (level role)

unfoldable pub can_mutate : Text → Bool
can_mutate role = at_least role role_operator

-- The privileges of the known roles are ordered by their rank, two known roles always compare, and
-- an unknown role has no privilege and asks for one that nobody has.
pub at_least_iff :
    (r m : Text) → (at_least r m ≡ true) ↔ ((known r ≡ true) × (known m ≡ true) × (rank m ≤ rank r))
unfolding at_least known rank
at_least_iff r m = ground arith

pub at_least_total :
    (r m : Text) → known r ≡ true → known m ≡ true → (at_least r m ≡ true) ⊎ (at_least m r ≡ true)
unfolding at_least known
at_least_total r m h k = ground arith

-- Who may change anything is an operator or an administrator.
pub can_mutate_iff : (r : Text) → (can_mutate r ≡ true) ↔ ((r ≡ role_operator) ⊎ (r ≡ role_admin))
unfolding can_mutate at_least level
can_mutate_iff r = (to, from)
  where
    to : can_mutate r ≡ true → (r ≡ role_operator) ⊎ (r ≡ role_admin)
    to h = elim (Bool-cases (r == role_viewer)) [
      | inl p ↦ cc (rw p at h)
      | inr p ↦ elim (Bool-cases (r == role_operator)) [
        | inl q ↦ inl ((text_beq_iff r role_operator).0 q)
        | inr q ↦ elim (Bool-cases (r == role_admin)) [
          | inl s ↦ inr ((text_beq_iff r role_admin).0 s)
          | inr s ↦ cc (rw (p, q, s) at h)
        ]
      ]
    ]

    from : (r ≡ role_operator) ⊎ (r ≡ role_admin) → can_mutate r ≡ true
    from (inl e) = rw e refl
    from (inr e) = rw e refl
