-- ===== src/Examples/AccessRuns.antt =====
-- An operator with one granted customer changes a pipeline.
use otel_fleet.Prelude.{
  codes, text_eq, nat_eq, ◌≡◌, ◌↔◌, ◌⊎◌, refl, true, false, none, some, [], ◌∷◌,
}
use otel_fleet.Access.Roles.{level, at_least, can_mutate, role_operator}
use otel_fleet.Access.Tokens.{looks_like_api_token}
use otel_fleet.Access.Scope.{
  Principal, require_customer_access, require_pipeline_access, require_unscoped, customer_scope,
  in_scope, scope_agrees,
}
use otel_fleet.Access.Guard
use otel_fleet.Access.Guard.{
  Request, User, GuardStore, Found, Decision, is_admin_only_path, is_mutating, valid_csrf,
  scoped_principal, admit_user, guard_user, guard_found, guard_session, guard,
}
use otel_fleet.Access.Guard.Admission.{IsToken, IsUser, IsPermitted, guard_admits}

abbrev users : GuardStore
users = record {
  get_user = λ id.
      Found.user
        (record { id = id; role = role_operator; disabled_at = none; scim_managed = false });
  list_user_customer_ids = λ id. some (3 ∷ []);
  active_api_tokens = λ prefix. none;
}

abbrev request : Request
request = record {
  path = codes "/api/v1/pipelines";
  method = codes "POST";
  authorization = [];
  csrf_header = codes "t";
  session = record { user_id = some 4; csrf_token = codes "t" };
}

abbrev principal : Principal
principal = record {
  user_id = some 4;
  role = role_operator;
  csrf_token = codes "t";
  all_customers = false;
  allowed_customers = 3 ∷ [];
}

guard_admits_example :
    (IsToken (λ s. s) 0 [] users request principal ⊎ IsUser (λ s. s) 0 [] users request principal)
    × IsPermitted request principal.role
unfolding guard guard_session guard_found guard_user admit_user scoped_principal
    looks_like_api_token is_admin_only_path is_mutating valid_csrf at_least level can_mutate
guard_admits_example = guard_admits (λ s. s) 0 [] users request principal refl

-- Without the token of the session, or in the area of the administrators, the request is denied.
denials :
    (guard (λ s. s) 0 [] users (record request { csrf_header = [] })
      ≡ Decision.denied Guard.bad_csrf)
    × (guard (λ s. s) 0 [] users (record request { path = codes "/api/v1/users/4" })
        ≡ Decision.denied Guard.requires_admin)
unfolding guard guard_session guard_found guard_user admit_user scoped_principal
    looks_like_api_token is_admin_only_path is_mutating valid_csrf at_least level can_mutate
denials = (refl, refl)

scope_agrees_example :
    (require_customer_access (some principal) (some 5)
      ≡ in_scope (customer_scope (some principal)) 5)
    × (require_pipeline_access (some principal) (some 5)
        ≡ require_customer_access (some principal) (some 5))
    × (require_customer_access (some principal) none ≡ require_unscoped (some principal))
    × ((require_unscoped (some principal) ≡ true) ↔ (customer_scope (some principal) ≡ none))
scope_agrees_example = scope_agrees (some principal) 5
