-- ===== src/Lib.antt =====
-- Verification of the backend of geo-querry: offline sync for field geology, live telemetry, tenants,
-- payments, uploads and the gates in front of them.
--
-- The program is a Go server (backend/) that a mobile app and a web portal call over ConnectRPC.
-- A request passes the gate of internal/auth (an Ed25519 assertion of pkg/assertion or an API key),
-- then one of the services: internal/sync pushes and pulls field entities under last-write-wins,
-- internal/telemetry fans positions out to live streams, internal/tenant keeps organizations, their
-- members' roles and their projects. The services keep their state in PostgreSQL; the hub of the
-- telemetry keeps its own in memory. internal/auth also answers for sessions, internal/billing with
-- internal/mpesa and internal/paystack for payments, internal/r2 and internal/gis for uploads.
-- internal/config reads the settings, internal/db migrates the schema at every start, and
-- cmd/server wraps the router in middleware.
--
-- Which file models what:
--   Sync/Conflict     backend/internal/sync/conflict.go: verdicts and the classification of errors
--   Sync/Messages     the messages of the sync engine (proto geology and sync)
--   Sync/Database     the tables of backend/internal/db/migrations/000001_init.sql
--   Sync/Table        the guarded INSERT … ON CONFLICT of store.go, over any table
--   Sync/Rows         the rows that the upserts write
--   Sync/Store        the upserts of store.go; Upsert, Boreholes, Intervals, Move and Growth
--                     say what they do to the tables
--   Sync/Validate     the validation of service.go
--   Sync/Push         PushSyncQueue; Verdict, Results, Reach, Converge and Retry say what it promises
--   Sync/Pull         the delta queries of store.go; Order and Delivery
--   Sync/Nest, Snapshot   PullProjectData and its nested view; Snapshot/Cursor
--   Auth/Roles, Identity  backend/internal/auth/context.go
--   Auth/Interceptor  backend/internal/auth/interceptor.go and interceptor_combined.go
--   Auth/Sessions     backend/internal/auth/service.go; Exchange
--   Assertion         backend/pkg/assertion/assertion.go, Verify; Sign is its other half, with Window;
--                     Authentic and Accepted say which tokens Verify accepts
--   Telemetry/Hub     backend/internal/telemetry/hub.go; Run, Publish and Sweep
--   Telemetry/Stream  backend/internal/telemetry/service.go
--   Tenant            backend/internal/tenant/service.go and WithTenantTx of backend/internal/db
--                     (tenant_tx.go); Transfer, Transactions, Organizations with Creation, Projects
--   Migrations        Migrate of backend/internal/db/db.go; Names, Boots, History and Recovery
--   Payments          Daraja and Callback: backend/internal/mpesa; Paystack and Signed:
--                     backend/internal/paystack; Tokens: the token cache of Daraja
--   Billing           backend/internal/billing/service.go; Catalog, Push, Checkout, Attempts
--   Uploads           backend/internal/r2; Signing and Issued
--   Gis               backend/internal/gis/service.go; Upload and Ingestion
--   Config            backend/internal/config/config.go; Bounds
--   Gateway           the middleware of backend/cmd/server/main.go and
--                     backend/internal/telemetry/observability.go; Served
--   Prelude           shared helpers: native numbers, integers, int64, float64, lists
--
-- How state and operations correspond: a table is a list of rows, a transaction works on a copy of
-- the database that COMMIT keeps, and every statement is given the error with which the
-- environment makes it fail, if any. A COMMIT of a borehole, a tenant or a migration can also be
-- carried out and lose its reply. A tenant transaction starts with SET LOCAL and an argument,
-- which PostgreSQL takes only in the simple protocol of pgx: the exec mode is a part of what the
-- environment does. A request runs without others in between; for the hub, whose operations take a
-- mutex, the interleavings of streams and sweeps are explicit sequences of actions. Loops are
-- structural recursion, so there is no fuel. int64 sums wrap as Go's do; a float64 is a special
-- value or a multiple of 2^-1074. A Go map is a list of entries whose order stands for the order
-- of iteration, which Go leaves open.
--
-- A server of another company is a function from a request to its reply. Where the code drops an
-- error, the model has a fault that leaves the database as it was.
--
-- Parameters: uuid.Parse and the uuid cast of PostgreSQL (Ids), base64, JSON, hex, Ed25519, HMAC and
-- the string functions of Go, SHA-256, the clock, the ids and random bytes that are made, the
-- environment of the process and its parsers, what the SQL of a migration does, path.Join and
-- path.Base, the signing of the S3 library, and the router.
--
-- Not modelled: the generated code, the wiring and the tools of the commands, the job queue, the
-- fixed samples that GIS status calls answer, and the web frontend; row level security; logging, but
-- where it is all that a handler records; a reply that is lost after an upsert of one statement.
mod Prelude
pub mod Sync
pub mod Auth
pub mod Assertion
pub mod Telemetry
pub mod Tenant
pub mod Migrations
pub mod Payments
pub mod Uploads
pub mod Billing
pub mod Config
pub mod Gis
pub mod Gateway
