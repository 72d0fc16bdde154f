-- ===== src/Http/Logins.antt =====
-- internal/httpapi/login.go and logout.go: the handlers of logins and logouts. gin's binding of the
-- body is a parameter: the request is what it binds, or none.
use cliproxy_new.Base.{
  ℕ, Bool, true, false, ◌||◌, Option, none, some, [], ℤ, is_empty, if◌then◌else◌, GoString, bytes,
  Result, ok, err,
}
use cliproxy_new.Store.{StoreError, Done}
use cliproxy_new.Auth.Identity.{
  IdentityError, invalid_credentials, invalid_configuration, access_denied, user_blocked,
  source_mismatch, other,
}
use cliproxy_new.Auth.Identity.Login.{LoginResult}
use cliproxy_new.Auth.Identity.Sessions.{SessionAuthenticator, invalidate_token}
use cliproxy_new.Http.Management.{Refusal, Reply, refuse}

pub record LoginRequest : Type 0 where
  pub username : GoString
  pub password : GoString

pub record LoginResponse : Type 0 where
  pub user_id : ℤ
  pub role : GoString
  pub expires_at : ℕ

-- The session cookie: HTTP only, with SameSite=Lax and the path "/". A negative age deletes it.
pub record Cookie : Type 0 where
  pub value : GoString
  pub expires : Option ℕ
  pub deleted : Bool
  pub secure : Bool

unfoldable pub login_refused : IdentityError → Refusal
login_refused invalid_credentials = record { status = 401; message = bytes "invalid credentials" }
login_refused user_blocked = record { status = 403; message = bytes "access denied" }
login_refused access_denied = record { status = 403; message = bytes "access denied" }
login_refused invalid_configuration = record {
  status = 500;
  message = bytes "authentication failed";
}
login_refused source_mismatch = record { status = 500; message = bytes "authentication failed" }
login_refused other = record { status = 500; message = bytes "authentication failed" }

-- The reply, with the cookie that is set.
unfoldable pub logged_in :
    {D : Type 0}
    → Bool
    → Result IdentityError LoginResult × D
    → Result Refusal (Reply LoginResponse × Cookie) × D
logged_in secure (err e, d) = (err (login_refused e), d)
logged_in secure (ok r, d) = (
  ok (
    record {
      status = 200;
      body = record { user_id = r.user_id; role = r.role; expires_at = r.expires_at };
    },
    record { value = r.token; expires = some r.expires_at; deleted = false; secure = secure },
  ),
  d,
)

-- `Handle` of a handler with a service.
unfoldable pub handle_login :
    {D : Type 0}
    → (GoString → GoString → D → Result IdentityError LoginResult × D)
    → Bool
    → Option LoginRequest
    → D
    → Result Refusal (Reply LoginResponse × Cookie) × D
handle_login service secure none d = (refuse 400 (bytes "username and password are required"), d)
handle_login service secure (some r) d =
    if is_empty r.username || is_empty r.password
    then (refuse 400 (bytes "username and password are required"), d)
    else logged_in secure (service r.username r.password d)

unfoldable pub deleted_cookie : Cookie
deleted_cookie = record { value = []; expires = none; deleted = true; secure = false }

-- `LogoutHandler` with the deleter of sessions and the authenticator as its invalidator: the error
-- of the deleter is dropped.
unfoldable pub handle_logout :
    {D : Type 0}
    → (GoString → GoString)
    → (GoString → GoString → D → Result StoreError Done × D)
    → GoString
    → Option GoString
    → SessionAuthenticator
    → D
    → Cookie × SessionAuthenticator × D
handle_logout sha256_hex delete_by_token identity_source none a d = (deleted_cookie, a, d)
handle_logout sha256_hex delete_by_token identity_source (some token) a d = (
  deleted_cookie,
  invalidate_token sha256_hex token a,
  (delete_by_token token identity_source d).1,
)
