-- ===== src/Examples.antt =====
-- The theorems at concrete inputs, and tests of the definitions.
mod QuotaRuns
mod SecretRuns
mod RenderRuns
mod PipelineRuns
mod VersionRuns
mod KeyTexts
mod AuthRuns
mod StampRuns
mod NamingRuns
mod StoreRuns
mod ServiceRuns
mod AlertRuns
mod WebhookRuns
mod AccessRuns
