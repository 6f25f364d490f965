-- ===== src/Access.antt =====
-- Who may do what in the API of the control plane: internal/authz, the principal of
-- internal/auth/session.go, and tokenauth.go, middleware.go and scope.go of internal/api.
pub mod Roles
pub mod Tokens
pub mod Scope
pub mod Guard
