-- ===== src/TenantAuth.antt =====
-- The tenantauth extension of the collector: the cache of validated keys and the authenticator.
pub mod Cache
pub mod Headers
pub mod Attributes
pub mod Authenticate
