-- ===== src/Access.antt =====
-- internal/access: who calls, by a client API key. `Principal` is principal.go, `Provider` is
-- provider.go.
pub mod Principal
pub mod Provider
