-- ===== src/Auth.antt =====
-- internal/auth: the choice of an upstream credential (`Selector`), and the identities of people:
-- the static provider, sessions and the login (`Identity`), the LDAP provider (`Ldap`),
-- and the test of an upstream account (`Checker`).
pub mod Selector
pub mod Identity
pub mod Ldap
pub mod Checker
