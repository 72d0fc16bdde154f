-- ===== src/Tests/Logins.antt =====
-- Runs of internal/auth/identity.
use cliproxy_new.Base.{
  ℕ, is_empty, false, ◌+◌, ◌≡◌, refl, true, Option, none, some, List, [], ◌∷◌, pos, GoString, bytes,
  list_eq, nat_eq, list_beq, int_eq, ok, err, has_prefix,
}
use cliproxy_new.Cache.{new_ttl, get, set, add_duration, delete_where}
use cliproxy_new.Store.{invalid_credential, no_rows, static, ldap, active}
use cliproxy_new.Store.Users.{
  UserQueries, UserRow, user_from_values, valid_user_params, is_static_name,
}
use cliproxy_new.Store.Users
use cliproxy_new.Store.Sessions.{Session, SessionQueries, SessionRow}
use cliproxy_new.Store.Sessions
use cliproxy_new.Auth.Identity.{Identity, role_user, role_admin}
use cliproxy_new.Auth.Identity.Login.{
  LoginService, LoginResult, login, repositories, provision, session_ttl,
}
use cliproxy_new.Auth.Identity.Login.Outcome.{LoggedIn, login-LoggedIn}
use cliproxy_new.Auth.Identity.Sessions.{
  SessionPrincipal, SessionAuthenticator, Request, Instant, Lookup,
  new_cached_session_authenticator, new_session_authenticator, authenticate_token,
  authenticate_request, invalidate_user, session_cache_key,
}
use cliproxy_new.Auth.Identity.Sessions.Fresh.{Action, requests, act, act_all, past_of}
use cliproxy_new.Auth.Identity.Sessions.Evidence.{Evidence, cookie_of, authenticate_request-recent}
use cliproxy_new.Auth.Identity.Sessions.Invalidation.{Confirmed, invalidate_user-Confirmed}

abbrev plain : GoString → GoString
plain s = s

-- A lookup that knows one token, until the session is gone.
abbrev one_session : Session
one_session = record {
  id = pos 1;
  user_id = pos 3;
  token_hash = bytes "t";
  role = bytes "user";
  expires_at = 100;
  created_ip = none;
  created_at = 0;
}

abbrev live : Lookup
live token source = ok one_session

abbrev gone : Lookup
gone token source = err invalid_credential

abbrev somebody : SessionPrincipal
somebody = record { user_id = pos 3; role = bytes "user" }

abbrev instant : ℕ → Instant
instant t = record { read = t; write = t }

abbrev one_request : List Action
one_request = requests (some (record { session_cookie = some (bytes "t") })) (instant 5) live ∷ []

abbrev with_cookie : Option Request
with_cookie = some (record { session_cookie = some (bytes "t") })

authenticate_request-recent_example :
    (token : GoString) × (cookie_of with_cookie ≡ some token)
    × (is_empty token ≡ false)
    × Evidence plain
        (bytes "ldap")
        (pos 10)
        (past_of plain (bytes "ldap") (pos 10) [] one_request)
        token
        (instant 9)
        gone
        somebody
unfolding act act_all new_cached_session_authenticator new_session_authenticator authenticate_token
    authenticate_request session_cache_key new_ttl get set add_duration list_beq
authenticate_request-recent_example =
    authenticate_request-recent plain (bytes "ldap") (pos 10) one_request with_cookie (instant 9)
      gone somebody refl

abbrev cached : SessionAuthenticator
cached =
    act_all plain (bytes "ldap") (pos 10)
      (new_cached_session_authenticator true (bytes "ldap") (pos 10)) one_request

invalidate_user-Confirmed_example :
    Confirmed plain (invalidate_user (pos 3) cached) (bytes "t") live somebody
unfolding act act_all new_cached_session_authenticator new_session_authenticator authenticate_token
    authenticate_request session_cache_key new_ttl get set add_duration list_beq invalidate_user
    delete_where
invalidate_user-Confirmed_example =
    invalidate_user-Confirmed plain (pos 3) cached (bytes "t") (instant 9) live somebody refl refl
      refl

-- A database that counts the sessions it creates.
abbrev user_row : GoString → Option GoString → GoString → UserRow
user_row username email role = record {
  id = pos 3;
  username = username;
  email = email;
  role = role;
  status = bytes "active";
  identity_source = bytes "ldap";
  created_at = 0;
  updated_at = 0;
}

abbrev users : UserQueries ℕ
users = record {
  upsert_user_from_ldap = λ username email role d. (ok (user_row username email role), d);
  upsert_static_user = λ username email role d. (ok (user_row username email role), d);
  get_user_by_id = λ id d. err no_rows;
  list_users = λ d. ok [];
  block_user_and_delete_sessions = λ id d. (ok 1, d);
  set_user_status = λ id status d. (ok 1, d);
}

abbrev sessions : SessionQueries ℕ
sessions = record {
  create_session = λ p d. (ok one_session, d + 1);
  get_by_token_hash = λ hash d. err no_rows;
  get_by_token_hash_for_source = λ hash source d. err no_rows;
  delete_sessions_by_user = λ id d. (ok tt, d);
  delete_by_token_hash_for_source = λ hash source d. (ok 1, d);
  delete_expired_sessions = λ d. (ok 0, d);
}

abbrev alice : Identity
alice = record { username = bytes "alice"; email = []; role = bytes "user"; source = bytes "ldap" }

abbrev service : LoginService ℕ
service = repositories (λ username password. ok alice) (bytes "ldap") users plain sessions

abbrev five_minutes : LoginResult
five_minutes = record {
  user_id = pos 3;
  role = bytes "user";
  token = bytes "t";
  expires_at = 300_000_000_001;
}

login-LoggedIn_example :
    (i : Identity) × (service.provider (bytes "alice") (bytes "pw") ≡ ok i)
    × LoggedIn service (bytes "t") 1 i 0 five_minutes 1
unfolding login repositories provision list_beq static ldap active role_user role_admin session_ttl
    Users.upsert_from_ldap valid_user_params is_static_name has_prefix user_from_values
    Sessions.create
login-LoggedIn_example =
    login-LoggedIn service (bytes "t") 1 (bytes "alice") (bytes "pw") 0 five_minutes 1 refl
