-- ===== src/Tests.antt =====
-- Runs of the theorems at concrete inputs.
mod Keys
mod Caches
mod Callers
mod UsageEvents
mod Keyrings
mod Credentials
mod Directories
mod Watchers
mod Checks
mod Overrides
mod Handlers
mod Storages
mod Choices
mod Logins
mod Flows
mod Requests
