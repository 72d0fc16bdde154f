-- ===== src/Auth/Identity.antt =====
-- internal/auth/identity: the identity that a source confirms (provider.go), the source from the
-- environment (`Static`), the login (`Login`) and the check of session cookies (`Sessions`).
pub mod Static
pub mod Sessions
pub mod Login
use cliproxy_new.Base.{
  ◌≡◌, ◌⊎◌, inl, inr, Bool, false, ◌&&◌, not, GoString, bytes, ◌==◌, ==_iff, nat_eq, list_eq,
  Bool-cases, arith,
}

unfoldable pub role_user : GoString
role_user = bytes "user"

unfoldable pub role_admin : GoString
role_admin = bytes "admin"

pub record Identity : Type 0 where
  pub username : GoString
  pub email : GoString
  pub role : GoString
  pub source : GoString

pub data IdentityError : Type 0 where
  invalid_credentials invalid_configuration : IdentityError
  access_denied user_blocked source_mismatch other : IdentityError

-- The test of a role's name, read backwards.
pub known_role :
    (role : GoString)
    → (not (role == role_user) && not (role == role_admin)) ≡ false
    → (role ≡ role_user) ⊎ (role ≡ role_admin)
known_role role h = elim (Bool-cases (role == role_user)) [
  | inl user ↦ inl ((==_iff role role_user).0 user)
  | inr not_user ↦ inr ((==_iff role role_admin).0 (ground arith))
]
