-- ===== src/Lib.antt =====
-- CLIProxyNew: a multi-user service around the CLIProxyAPI SDK. Clients call models with API keys,
-- people manage their keys in a browser session, upstream credentials are stored encrypted, and every
-- call leaves a usage event.
--
-- The parts, and how they interact:
--   Cache            internal/cache/ttl.go: TTL cache of Get, Set, Delete, DeleteWhere, Clear, Stats.
--   Store            internal/store: errors and helpers; each repository is the record of its caches
--                    over an interface of the sqlc queries, on a type of database states.
--     Store.ApiKeys  api_keys.go: keys by prefix and bcrypt, behind two TTL caches.
--     Store.Users    users.go: upserts by source, lookups, blocking.
--     Store.Sessions sessions.go: sessions by the hash of their token.
--     Store.AdminUsers  admin_users.go: a user's status with its audit entry in one transaction.
--     Store.OauthSessions  oauth_sessions.go and admin_audit.go, over the table of the migration and
--                    the statements of db/queries/oauth_sessions.sql.
--     Store.Models   model_overrides.go and admin_models.go over their table; Registry, the snapshots
--                    of model_registry_snapshots.go and internal/modelregistry/hook.go.
--     Store.Audited  the transaction of a write and its audit entry that AdminUsers and Models share.
--     Store.UsageEvents  usage_events.go: the rows of usage events and the summaries of a user.
--     Store.CoreAuth coreauth_store.go: encrypted upstream credentials, what is written of one, and
--                    its Tables with the statements of db/queries/upstream_accounts.sql, and
--                    HiddenState, the search of a token storage by reflection over a heap.
--   Access           internal/access: Principal (principal.go), the text that names a caller, and
--                    Provider (provider.go), which tries a request's credentials at Store.ApiKeys.
--   Auth             internal/auth: Selector (selector/selector.go), the allow-list of models,
--                    with Shared, its slice as memory that a concurrent refresh overwrites;
--                    Identity (identity/*.go): Static, Login over Store.Users and Store.Sessions, and
--                    Sessions, the cookie check in front of Store.Sessions.
--     Ldap           ldap/provider.go: the LDAP source, over an interface of the directory.
--     Checker        testing/checker.go: the test of an upstream account, over the SDK's interfaces.
--   Usage            internal/usage: the event of a record (its caller decoded by Access.Principal),
--                    Buffer and KeyIds (buffered_plugin.go), Hook (hook.go), Plugin (plugin.go).
--   Security         internal/security: Keyring (keyring.go), versioned AES-256-GCM keys.
--   Config           internal/config/config.go: defaults, the environment and Validate.
--   Http             internal/httpapi: RequestId (request_id.go) and Cors (cors.go); Management
--                    (session_middleware.go and what the handlers share), KeyHandlers (api_keys.go),
--                    Logins (login.go, logout.go), AccountTests (admin_accounts.go),
--                    KeyOverview (admin_keys.go), UsageSummaries (usage.go), ModelAdmin
--                    (admin_models.go), OauthAdmin (admin_oauth_sessions.go) and UserAdmin
--                    (admin_users.go). The Pipeline files compose a route of router.go from the session cookie to the store.
--   Watcher          internal/watcher: Poller (revision_poller.go) and Cleanup (session_cleanup.go)
--                    over lists of what select comes to, and Leader (leader.go), the replicas and the
--                    advisory lock of the server as one state with an event for each atomic part.
--   Base             what the parts share: tests, lists, comparable keys, results, integers over the
--                    native numbers, maps, and Go's strings as bytes with decimal numbers.
--   Tests            runs of the theorems at concrete inputs.
--
-- State and operations. A Go struct is a record with the fields of its words, a method is a function
-- from the record to the record and its result, in the order and with the guards of the code. A
-- method that holds a mutex is one step; where goroutines interleave (Usage.Buffer) each atomic part
-- is a step, and theorems are over every sequence of steps. Auth.Selector.Shared, where the program
-- has a data race, has some of its interleavings, by copies of single fields, and its theorems are
-- of sequences of them that occur. The clock, random bytes and the answers
-- of the database are arguments, one for each time the code asks. Errors that the callers tell apart
-- are constructors; their texts, logging and tracing spans are left out. A nil pointer is `none`.
--
-- Parameters: the sqlc queries and PostgreSQL, bcrypt, SHA-256, AES-GCM, the decoding of base64,
-- JSON and URLs, gin's binding of bodies, and the SDK's selector, manager and executors. A theorem
-- that relies on one names what it relies on as a hypothesis: `IsAead` (Open inverts Seal, and the
-- sizes), `IsCodec` (Unmarshal reads what Marshal wrote of UTF-8 texts and of values that JSON keeps),
-- `IsOrder` (the database's `<` on texts is a total order), `IsInjective` for the digests of the static
-- provider, `PicksCandidates` for the SDK's selector.
--
-- Bounds and fuel. Numbers are unbounded but where the code wraps: the uint64 counters of Cache and
-- Usage.Hook are taken modulo 2^64, parsed IDs are in int64, and a key's version is written as the
-- uint64 of an int; the counters of a usage row are int32. Times are nanoseconds from an epoch.
-- `digits_before` runs on the number and one more, and a quotient by ten is smaller; `trim_head` runs
-- on the length of the text, and each step drops at least one byte. The search of a token storage runs on the number of references in it, which
-- Store.CoreAuth.HiddenState.Termination shows to be enough. Every other function is structural.
--
-- Not modelled: the generated code (internal/openapi/ogen, internal/store/dbgen), metrics, logging
-- and tracing, the commands under cmd, the HTTP handlers of provider keys, OAuth credentials and quotas, and those of the system.
pub mod Base
pub mod Cache
pub mod Store
pub mod Access
pub mod Auth
pub mod Usage
pub mod Security
pub mod Http
pub mod Config
pub mod Watcher
pub mod Tests
