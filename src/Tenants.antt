-- ===== src/Tenants.antt =====
-- internal/tenants: the formats of keys and tokens, slugs and the customer service.
pub mod Keys
pub mod Slug
pub mod Service
