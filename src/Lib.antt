-- ===== src/Lib.antt =====
-- APISIX developer portal: the core of the backend, modelled from its Go sources.
--
-- The portal lets teams subscribe applications to API products under plans. An administrator
-- approves a subscription; the portal then installs the application as a consumer of the APISIX
-- gateway and puts it on the whitelist of the product's route. Paid plans are invoiced.
--
-- Parts, and the code they model:
--   Common          tests, lists as database tables, decimal texts (strconv, fmt), counting.
--   Db              the rows of the tables that the modelled queries read and write
--                   (internal/db/migrations), keyed by ids that the database hands out.
--   Effects         the state (database, two gateways, notices, random values) and programs on it.
--                   A program is a function from a run to a result and a run. Each call of the
--                   database or of a gateway meets the next fault of the run: it is answered,
--                   refused, or carried out with its answer lost. Theorems hold for every list of
--                   faults, so for every place where an operation can stop. Triple and Preserves
--                   are the rules to reason about programs.
--   Apisix          internal/apisix: the gateway interface (gateway.go) by the maps of fake.go, and
--                   the test of client ids (client.go).
--   Crypto          internal/crypto/aesgcm.go: the interface that the services take, a cipher whose
--                   decryption inverts its encryption and whose texts are not empty, and Sealing, the
--                   code that provides it over an AEAD and base64, which are parameters.
--   Subscriptions   internal/subscriptions: Model (names, statuses, records), Repo (the SQL queries
--                   of repo.go, one function per query; Repo/Keys those of encrypted keys,
--                   Repo/Whitelists the joins), Service (service.go, one function per method; loops
--                   and branches of a long method are functions of their own).
--                   Handler has the requests (handler.go, admin_handler.go) and who may make them.
--                   Provisioning is about active subscriptions and the gateway, with Removing for the
--                   one caller of DeprovisionRoute, the removal of a product; Revoked is about access
--                   after a cancellation or a rejection, Preserving about which operations write
--                   subscriptions and invoices.
--   Billing         internal/billing: the invoices of approvals and their settlement, with
--                   ManualProvider, whose charge always succeeds.
--   Admin           internal/admin: Plans (plan.go, plan_repo.go, plan_service.go) with their checks
--                   and how updates reach the gateways; Products (service.go, repo.go) with the
--                   guard of the change to oauth2 and the check of context paths, and their Forms
--                   (product.go).
--   Teams           internal/teams: teams, their members and owners, what the removal of a team takes
--                   with it (repo.go), and Handler (handler.go) with who may make its requests.
--   Applications    internal/applications: the applications of teams (repo.go) and the requests that
--                   create and list them (handler.go); Housing and Membership are proofs.
--   Auth            internal/auth: Repo (users and the personal team), Session (tokens and
--                   passwords; the JWT library and bcrypt are parameters with the laws that they
--                   document), Middleware (RequireAuth, RequireAdmin), Handler (registration, login,
--                   verification of addresses). A mail that the code sends in the background is
--                   sent at once. Joining, Gate, Disclosure, Verifying and Accounts are proofs.
--   Config          internal/config: the environment that the process starts with, and its checks.
--   Settings        internal/settings: Snapshot and Registry (the parameters), Service (service.go:
--                   stored overrides, snapshot, Set and Reset with their transactions as one call
--                   each), Probes (probe.go), Handler (handler.go). Candidates, Overrides and
--                   Restarting compare the snapshot with what a boot loads, Policy is about the rules
--                   between settings, Secrets and Listing about what is stored and shown.
--   Httpx           internal/httpx: Respond, the answers of handlers as values, Guards, the checks
--                   before a handler, RateLimit (ratelimit.go), the token buckets, and ClientIp, the
--                   key of a request behind proxies. Times are nanoseconds and tokens are counted
--                   in a unit in which both prices and accruals are whole, where the code uses
--                   float64.
--   Paging          internal/paging: pages, with the 64-bit product of the offset.
--   Server          internal/server: which requests pass through which middleware, for the requests
--                   for an application and the decisions on subscriptions.
--   Tests           concrete data, and the theorems applied to it.
--
-- Conventions. An id is a natural number. A text is a string of characters, whose length
-- is that of its UTF-8 bytes, and `to_lower` treats ASCII capitals. Loops over rows are
-- structural recursion, so no fuel is needed. `genKey` and the nonce of the cipher are functions of
-- a counter of the state. The order of rows that a query leaves open is the order of the table;
-- the collation of ORDER BY is a parameter of the service. Statements run one at a time: two
-- requests at once are not interleaved.
--
-- Go's maps that are only looked up are functions; a map that is ranged over is its list of pairs,
-- with distinct keys. A call of encoding/json is the value that it decodes to, if any. The parsers of
-- URLs, addresses, address blocks, dates and base64 of Go's standard library are parameters.
--
-- Not modelled: most other HTTP handlers, the catalog,
-- notifications by e-mail, metrics, and the wire format of the APISIX Admin API.
pub mod Common
pub mod Apisix
pub mod Db
pub mod Effects
pub mod Crypto
pub mod Subscriptions
pub mod Billing
pub mod Admin
pub mod Teams
pub mod Applications
pub mod Config
pub mod Auth
pub mod Server
pub mod Settings
pub mod Httpx
pub mod Paging
mod Tests
