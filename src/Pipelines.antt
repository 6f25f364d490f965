-- ===== src/Pipelines.antt =====
-- internal/pipelines: what the pipelines of the customers are called in a collector, their secrets,
-- the tables that hold their versions, the collector configurations that they are rendered to, and the
-- service over all of these.
pub mod Pairs
pub mod Graph
pub mod Naming
pub mod Secrets
pub mod Render
pub mod Versions
pub mod Validation
pub mod Validator
pub mod Service
