-- ===== src/Http.antt =====
-- internal/httpapi: the middleware of every request (`RequestId`, `Cors`) and of management requests
-- (`Management`), and the handlers of logins (`Logins`), of a user's API keys (`KeyHandlers`) and
-- usage (`UsageSummaries`), and of administrators: users (`UserAdmin`), the keys of all users
-- (`KeyOverview`), model overrides (`ModelAdmin`), OAuth flows (`OauthAdmin`) and tests of upstream
-- accounts (`AccountTests`).
pub mod RequestId
pub mod Cors
pub mod Management
pub mod KeyHandlers
pub mod UserAdmin
pub mod Logins
pub mod AccountTests
pub mod UsageSummaries
pub mod ModelAdmin
pub mod OauthAdmin
pub mod KeyOverview
