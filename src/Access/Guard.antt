-- ===== src/Access/Guard.antt =====
-- The Guard middleware of internal/api/middleware.go, and the sessions of internal/auth/session.go
-- that it asks. Audit and metrics of a denial are left out, but for its reason.
pub mod Admission
use otel_fleet.Prelude.{
  ℕ, Text, codes, text_eq, ◌==◌, Bool, true, false, not, ◌&&◌, ◌||◌, Option, none, some, List, [],
  ◌∷◌, ◌++◌, any, cut_prefix, is_some, elem, if◌then◌else◌,
}
use otel_fleet.Access.Roles.{at_least, can_mutate, role_admin}
use otel_fleet.Access.Tokens.{ApiTokenAuth, authenticate_api_token, looks_like_api_token}
use otel_fleet.Access.Scope.{Principal}

abbrev pub public_paths : List Text
public_paths = codes "/api/v1/auth/providers" ∷ codes "/api/v1/auth/dev-login" ∷ []

abbrev pub logout_path : Text
logout_path = codes "/api/v1/auth/logout"

abbrev pub admin_path_prefixes : List Text
admin_path_prefixes =
    codes "/api/v1/users"
    ∷ codes "/api/v1/settings/auth-providers"
    ∷ codes "/api/v1/settings/api-tokens"
    ∷ codes "/api/v1/settings/alert-rules"
    ∷ codes "/api/v1/settings/maintenance-windows"
    ∷ codes "/api/v1/settings/reencrypt-secrets"
    ∷ codes "/api/v1/settings/billing"
    ∷ codes "/api/v1/billing"
    ∷ codes "/api/v1/audit"
    ∷ codes "/api/v1/metrics"
    ∷ []

-- The path itself, or one below it.
abbrev is_under : Text → Text → Bool
is_under path p = (path == p) || is_some (cut_prefix (p ++ codes "/") path)

unfoldable pub is_admin_only_path : Text → Bool
is_admin_only_path path = any (is_under path) admin_path_prefixes

unfoldable pub is_mutating : Text → Bool
is_mutating method = elem method (codes "POST" ∷ codes "PUT" ∷ codes "PATCH" ∷ codes "DELETE" ∷ [])

pub record User : Type 0 where
  pub id : ℕ
  pub role : Text
  pub disabled_at : Option ℕ
  pub scim_managed : Bool

-- The session of a request: its user, and its CSRF token, which is empty if it has none.
pub record Session : Type 0 where
  pub user_id : Option ℕ
  pub csrf_token : Text

-- ValidCSRF
unfoldable pub valid_csrf : Session → Text → Bool
valid_csrf s presented =
    not (s.csrf_token == []) && not (presented == []) && s.csrf_token == presented

pub record Request : Type 0 where
  pub path : Text
  pub method : Text
  pub authorization : Text
  pub csrf_header : Text
  pub session : Session

-- GetUser: a user, no row, or an error.
pub data Found : Type 0 where
  user : User → Found
  no_user store_failed : Found

-- GuardStore
pub record GuardStore : Type 0 where
  pub get_user : ℕ → Found
  pub list_user_customer_ids : ℕ → Option (List ℕ)
  pub active_api_tokens : Text → Option (List ApiTokenAuth)

pub data Reason : Type 0 where
  invalid_token requires_admin insufficient unauthenticated unknown_user account_disabled bad_csrf
        internal_error :
      Reason

-- What the guard does with a request: the next handler gets it, with a principal or without one, or
-- it is denied.
pub data Decision : Type 0 where
  passed : Decision
  admitted : Principal → Decision
  denied : Reason → Decision

-- Tenant scoping of a user who is not an administrator.
unfoldable pub scoped_principal : User → Text → Option (List ℕ) → Decision
scoped_principal u csrf none = denied internal_error
scoped_principal u csrf (some grants) = admitted (record {
  user_id = some u.id;
  role = u.role;
  csrf_token = csrf;
  all_customers = (grants == []) && not u.scim_managed;
  allowed_customers = grants;
})

unfoldable pub admit_user : Request → User → Text → Option (List ℕ) → Decision
admit_user r u csrf grants =
    if at_least u.role role_admin
    then admitted (record {
      user_id = some u.id;
      role = u.role;
      csrf_token = csrf;
      all_customers = true;
      allowed_customers = [];
    })
    else scoped_principal u csrf grants

abbrev pub lacks_role : Request → Text → Bool
lacks_role r role = is_mutating r.method && not (r.path == logout_path) && not (can_mutate role)

abbrev pub lacks_admin : Request → Text → Bool
lacks_admin r role = is_admin_only_path r.path && not (at_least role role_admin)

-- The branch of a management token, which is not bound to a session.
unfoldable pub guard_token : Request → Option (Text × Option ℕ) → Decision
guard_token r none = denied invalid_token
guard_token r (some (role, created_by)) =
    if lacks_admin r role
    then denied requires_admin
    else if lacks_role r role
    then denied insufficient
    else admitted (record {
      user_id = created_by;
      role = role;
      csrf_token = [];
      all_customers = true;
      allowed_customers = [];
    })

module _ (sha256 : Text → Text) (now : ℕ) (new_token : Text) (users : GuardStore) where
  -- CSRFToken: a session without a token gets a new one.
  abbrev pub csrf_token_of : Session → Text
  csrf_token_of s = if s.csrf_token == [] then new_token else s.csrf_token

  unfoldable pub guard_user : Request → User → Decision
  guard_user r u =
      if is_some u.disabled_at
      then denied account_disabled
      else if lacks_admin r u.role
      then denied requires_admin
      else if is_mutating r.method && not (valid_csrf r.session r.csrf_header)
      then denied bad_csrf
      else if lacks_role r u.role
      then denied insufficient
      else admit_user r u (csrf_token_of r.session) (users.list_user_customer_ids u.id)

  unfoldable pub guard_found : Request → Found → Decision
  guard_found r no_user = denied unknown_user
  guard_found r store_failed = denied internal_error
  guard_found r (user u) = guard_user r u

  -- The branch of a session.
  unfoldable pub guard_session : Request → Option ℕ → Decision
  guard_session r none = denied unauthenticated
  guard_session r (some id) = guard_found r (users.get_user id)

  unfoldable pub guard : Request → Decision
  guard r =
      if elem r.path public_paths
      then passed
      else if looks_like_api_token r.authorization
      then guard_token r (authenticate_api_token sha256 now users.active_api_tokens r.authorization)
      else guard_session r r.session.user_id
