-- ===== src/Auth/Identity/Login.antt =====
-- internal/auth/identity/login.go: an identity is confirmed, the user is stored and a session with a
-- fixed lifetime is created. The services are an interface over database states, which
-- `repositories` fills with those of internal/store. Times are nanoseconds.
pub mod Outcome
use cliproxy_new.Base.{
  ℕ, ◌+◌, ◌≡◌, Bool, true, false, ◌&&◌, ◌||◌, not, Option, none, some, List, [], ◌∷◌, ℤ, nat_eq,
  list_eq, if◌then◌else◌, ◌==◌, GoString, Result, ok, err,
}
use cliproxy_new.Store.Users
use cliproxy_new.Store.Sessions
use cliproxy_new.Store.{StoreError, active, ldap, static}
use cliproxy_new.Store.Users.{User, UpsertUserParams, UserQueries}
use cliproxy_new.Store.Sessions.{Session, CreateSessionParams, SessionQueries}
use cliproxy_new.Auth.Identity.{
  Identity, IdentityError, user_blocked, source_mismatch, other, role_user, role_admin,
}

abbrev pub user_session_ttl : ℕ
user_session_ttl = 300_000_000_000

abbrev pub admin_session_ttl : ℕ
admin_session_ttl = 36_000_000_000_000

pub record LoginResult : Type 0 where
  pub user_id : ℤ
  pub role : GoString
  pub token : GoString
  pub expires_at : ℕ

-- The configured service: the provider, and `UserProvisioner` and `SessionCreator`.
pub record LoginService (D : Type 0) : Type 0 where
  pub provider : GoString → GoString → Result IdentityError Identity
  pub identity_source : GoString
  pub upsert_static : UpsertUserParams → D → Result StoreError User × D
  pub upsert_from_ldap : UpsertUserParams → D → Result StoreError User × D
  pub create_session : CreateSessionParams → D → Result StoreError Session × D

unfoldable pub session_ttl : GoString → ℕ
session_ttl role = if role == role_admin then admin_session_ttl else user_session_ttl

pub params_of : Identity → UpsertUserParams
params_of i = record { username = i.username; email = i.email; role = i.role }

provisioned : {D : Type 0} → Result StoreError User × D → Result IdentityError User × D
provisioned (err e, d) = (err other, d)
provisioned (ok user, d) = (ok user, d)

-- The switch on the source, by its two tests.
provision_by :
    {D : Type 0} → LoginService D → Identity → Bool → Bool → D → Result IdentityError User × D
unfolding provisioned params_of
provision_by s i true is_ldap d = provisioned (s.upsert_static (params_of i) d)
provision_by s i false true d = provisioned (s.upsert_from_ldap (params_of i) d)
provision_by s i false false d = (err source_mismatch, d)

unfoldable pub provision :
    {D : Type 0} → LoginService D → Identity → D → Result IdentityError User × D
unfolding provision_by
provision s i d = provision_by s i (i.source == static) (i.source == ldap) d

module _ {D : Type 0} (s : LoginService D) (token : GoString) (now : ℕ) where
  finish : User → Identity → Result StoreError Session × D → Result IdentityError LoginResult × D
  unfolding session_ttl
  finish user i (err e, d) = (err other, d)
  finish user i (ok session, d) = (
    ok (record {
      user_id = user.id;
      role = i.role;
      token = token;
      expires_at = now + session_ttl i.role;
    }),
    d,
  )

  pub session_params : User → Identity → CreateSessionParams
  unfolding session_ttl
  session_params user i = record {
    user_id = user.id;
    token = token;
    role = i.role;
    expires_at = now + session_ttl i.role;
    created_ip = none;
  }

  start_session : Identity → Result IdentityError User × D → Result IdentityError LoginResult × D
  unfolding finish session_params
  start_session i (err e, d) = (err e, d)
  start_session i (ok user, d) =
      if user.status == active
      then finish user i (s.create_session (session_params user i) d)
      else (err user_blocked, d)

  admitted : Identity → D → Result IdentityError LoginResult × D
  unfolding start_session
  admitted i d =
      if not (i.source == s.identity_source)
      then (err source_mismatch, d)
      else (if not (i.role == role_user) && not (i.role == role_admin)
          then (err other, d)
          else start_session i (provision s i d))

  login_as : Result IdentityError Identity → D → Result IdentityError LoginResult × D
  unfolding admitted
  login_as (err e) d = (err e, d)
  login_as (ok i) d = admitted i d

  -- `Login` of a service that is configured; the token is what `newSessionToken` gives.
  unfoldable pub login : GoString → GoString → D → Result IdentityError LoginResult × D
  unfolding login_as
  login username password d = login_as (s.provider username password) d

-- The service over the repositories of internal/store.
unfoldable pub repositories :
    {D : Type 0}
    → (GoString → GoString → Result IdentityError Identity)
    → GoString
    → UserQueries D
    → (GoString → GoString)
    → SessionQueries D
    → LoginService D
repositories provider source users hash sessions = record {
  provider = provider;
  identity_source = source;
  upsert_static = Users.upsert_static users;
  upsert_from_ldap = Users.upsert_from_ldap users;
  create_session = Sessions.create hash sessions;
}
