-- ===== src/Access/Scope.antt =====
-- The principal of internal/auth/session.go, and internal/api/scope.go.
use otel_fleet.Prelude.{
  ◌≡◌, ◌↔◌, refl, ℕ, Text, nat_eq, Bool, true, Option, none, some, List, elem, if◌then◌else◌, arith,
}

pub record Principal : Type 0 where
  pub user_id : Option ℕ
  pub role : Text
  pub csrf_token : Text
  pub all_customers : Bool
  pub allowed_customers : List ℕ

-- CanAccessCustomer; none: a resource that has no customer.
unfoldable pub can_access_customer : Principal → Option ℕ → Bool
can_access_customer p none = p.all_customers
can_access_customer p (some id) = if p.all_customers then true else elem id p.allowed_customers

-- requireCustomerAccess: whether the handler goes on; none: a context without a principal.
unfoldable pub require_customer_access : Option Principal → Option ℕ → Bool
require_customer_access none id = true
require_customer_access (some p) id = if p.all_customers then true else can_access_customer p id

unfoldable pub require_unscoped : Option Principal → Bool
require_unscoped none = true
require_unscoped (some p) = p.all_customers

-- customerScope; none: all customers.
unfoldable pub customer_scope : Option Principal → Option (List ℕ)
customer_scope none = none
customer_scope (some p) = if p.all_customers then none else some p.allowed_customers

-- requirePipelineAccess; `owner` is the customer of the pipeline, none where it cannot be loaded.
unfoldable pub require_pipeline_access : Option Principal → Option ℕ → Bool
require_pipeline_access p owner = elim (customer_scope p) [
  | none ↦ true
  | some allowed ↦ elim owner [ none ↦ true | some id ↦ require_customer_access p (some id) ]
]

abbrev pub in_scope : Option (List ℕ) → ℕ → Bool
in_scope none id = true
in_scope (some allowed) id = elem id allowed

-- The checks agree: the one of a customer lets pass what the scope of the lists holds, the one of a
-- pipeline what its owner's lets pass, and the one for the whole fleet, like the one of a resource
-- without a customer, whoever has no scope.
pub scope_agrees :
    (p : Option Principal) (id : ℕ)
    → (require_customer_access p (some id) ≡ in_scope (customer_scope p) id)
      × (require_pipeline_access p (some id) ≡ require_customer_access p (some id))
      × (require_customer_access p none ≡ require_unscoped p)
      × ((require_unscoped p ≡ true) ↔ (customer_scope p ≡ none))
unfolding require_customer_access customer_scope require_pipeline_access require_unscoped
    can_access_customer
scope_agrees none id = (refl, refl, refl, (λ _. refl, λ _. refl))
scope_agrees (some p) id = ground arith
