-- ===== src/Store.antt =====
-- internal/store: the errors and the helpers that the repositories share (models.go, users.go,
-- sessions.go). A repository is a record of its caches; the database behind the sqlc queries is an
-- interface over a type of database states, which a query reads or steps.
pub mod ApiKeys
pub mod Users
pub mod Sessions
pub mod OauthSessions
pub mod CoreAuth
pub mod Audited
pub mod AdminUsers
pub mod UsageEvents
pub mod Models
use cliproxy_new.Base.{
  ℕ, Bool, true, false, ◌||◌, Option, none, some, List, [], ◌∷◌, GoString, bytes, ◌==◌, list_eq,
  nat_eq,
}

-- The sentinels that the callers tell apart by `errors.Is`, and any other error.
pub data StoreError : Type 0 where
  not_found invalid_credential invalid_input corrupt_credential other : StoreError

-- What a query reports: `pgx.ErrNoRows`, or a failure.
pub data QueryError : Type 0 where
  no_rows failed : QueryError

-- The value of a call that returns an error only.
abbrev pub Done : Type 0
Done = Unit

unfoldable pub ldap : GoString
ldap = bytes "ldap"

unfoldable pub static : GoString
static = bytes "static"

unfoldable pub active : GoString
active = bytes "active"

unfoldable pub blocked : GoString
blocked = bytes "blocked"

unfoldable pub valid_identity_source : GoString → Bool
valid_identity_source source = source == ldap || source == static

-- A SQL text that is NULL for "".
unfoldable pub nullable_text : GoString → Option GoString
nullable_text [] = none
nullable_text (c ∷ s) = some (c ∷ s)
