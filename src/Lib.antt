-- ===== src/Lib.antt =====
-- A verification library of otel-fleet: the control plane of a fleet of OpenTelemetry collectors,
-- and the extension and the processor that the gateway collectors are built with.
--
-- Data reaches a gateway with an ingest key. The extension `tenantauth`
-- (collector/extension/tenantauth) takes the key from the headers and asks the control plane, with a
-- cache in between; the identity that it attaches carries the tenant's limit, which the processor
-- `tenantquota` (collector/processor/tenantquota) enforces with a token bucket for each tenant. The
-- control plane answers from its tables (internal/ingestauth over internal/store), which the
-- customer service (internal/tenants) fills with customers and keys. People and programs reach the
-- control plane through a guard (internal/api), and it sends alerts (internal/alerting) through
-- channels (internal/webhooks).
--
-- TenantStamp models tenantstamp (collector/processor/tenantstamp), which puts the identity of the
-- request on the resources of a batch; TenantAuth/Attributes is how both processors read it.
--
-- Quota models bucket.go and processor.go of tenantquota: `take` with `maybe_gc`, `lookup_or_new`,
-- `refill` and `consume` as the parts of the one locked section, `admit` for the decision on a
-- batch. Quota/Credit and Quota/Budget see a registry through the credit of one tenant, the amount
-- that it could spend now, which sweeps and other tenants do not change.
--
-- TenantAuth models cache.go (Cache: `get`, `put`, with the list and the index of the source),
-- `extractKey` (Headers) and `Authenticate` (Authenticate, with a function for each way out of it).
-- Cache/Recency compares the cache with a plain list of uses; Grants and Revoked follow requests in
-- any sequence.
--
-- Tenants models keys.go, apitoken.go, agenttoken.go and bootstrap.go (Keys: formats, generation,
-- parsing), slug.go (Slug) and service.go (Service: the retry loop of `CreateCustomer` and the other
-- operations). Store models the tables of customers and API keys with their constraints, and the
-- queries of pg.go on them; Store/Ops turns its operations into commands, so that Store/Deletion and
-- Store/Revocation speak of all that may come later. IngestAuth models `ValidateAPIKey`,
-- `recordUsage` and `Flush` of internal/ingestauth/service.go over that store.
--
-- Access models internal/authz (Roles), tokenauth.go (Tokens), the middleware `Guard` (Guard) and
-- scope.go (Scope) of internal/api. Alerting models `Evaluate` and what it calls in
-- internal/alerting/alerting.go; Alerting/Observed describes by itself what the rules of a pass
-- observe, Alerting/Course turns the loops into one walk over these observations, and Changes and
-- Storms follow the states, the notices and the inhibition along it. Webhooks models the queue, the
-- retries and the requests of internal/webhooks/dispatcher.go (Queue, Delivery, Render) and
-- vendors.go (Vendors).
--
-- Pipelines models internal/pipelines: a customer's pipeline is a graph of collector components
-- (Graph, for graph.go and the lookup of catalog/catalog.go), checked before it is stored
-- (Validation, for validate.go), with its secrets encrypted at rest and masked when they are shown
-- (Secrets, for secrets.go), kept in numbered versions of which one may be active (Versions, for
-- internal/store/pg_pipelines.go), and rendered with the pipelines of all other customers to one
-- configuration of the gateways (Render, for render.go and render_edge.go, over the names of Naming,
-- for naming.go). Secrets/Marked says which values of a graph are secrets, Secrets/Meets that the
-- walk of the source visits these and no others; Secrets/Chain and Secrets/Graphs carry this from a
-- configuration to a graph. Service models service.go over all of these: what is rendered and
-- validated, `prepare` in Service/Prepare and the calls that change the tables in
-- Service/Operations, with the two stages of the validation in Validator. Service/Slugs and
-- Service/Clashes follow the slugs of a customer's pipelines through any sequence of calls to the
-- keys of the configuration.
--
-- Crypto models the key ring of internal/crypto/crypto.go (Cipher), with the base64 text that a
-- secret is stored as (Base64).
--
-- Conventions. State is a record that an operation takes and gives back; a mutex makes the calls a
-- sequence, and the theorems quantify over sequences. Publish takes no lock: what other goroutines
-- do to the queue between its selects is an argument. Clocks and random bytes are arguments.
-- SHA-256, HMAC, JSON and the lower case of a rune are arguments without assumptions. An AEAD cipher
-- is a record of the two functions that seal and open, and the theorems that need it assume by name
-- what AES-GCM documents: it opens what it sealed. A number of a configuration is kept as its text.
-- The sorts of the source are insertion sorts, and an ORDER BY is left out where the order does not
-- matter. Go strings are lists of bytes, names and messages lists of runes. A float64 that counts
-- tokens is a whole number of billionths, without rounding; the values of alert rules are of any
-- type with a test for "less". Errors of the database driver are none of an Option where the code
-- handles them, and left out elsewhere: a failed transaction changes nothing.
--
-- Bounds. Recursion is on lists, but for the retry loop of `CreateCustomer`, whose fuel is the
-- source's own bound of ten attempts; `publish_with`, for which two rounds more than the events that
-- other calls send in between are proved to be enough; and the padding of a slug, which takes at
-- most three rounds, as the validity of the result shows.
--
-- Of the tables, the constraints that only the models above need are modelled: foreign keys to
-- users, the deferred one of active_version_id and the CHECKs of migration 0005 are left out. The
-- attribute map of a resource is taken to have unique keys, as pcommon.Map documents.
--
-- Not modelled: the fixed sections of the rendered configuration (its YAML text is an argument), the
-- distribution of the configuration and the contents of the catalog; the OpAMP server, sign-in,
-- SCIM, billing, retention and statistics of the control plane, its HTTP handlers and settings, the
-- command-line tools, the web interface and the deployment. Metrics and log lines matter only where
-- a theorem speaks of a count.
pub mod Prelude
pub mod Pipelines
pub mod Quota
pub mod Store
pub mod Access
pub mod Alerting
pub mod Crypto
pub mod IngestAuth
pub mod TenantAuth
pub mod TenantStamp
pub mod Tenants
pub mod Webhooks
mod Examples
