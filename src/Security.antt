-- ===== src/Security.antt =====
-- internal/security: the master keys of stored credentials (`Keyring`).
pub mod Keyring
