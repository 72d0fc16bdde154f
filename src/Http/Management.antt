-- ===== src/Http/Management.antt =====
-- internal/httpapi/session_middleware.go, and what the management handlers share (login.go,
-- api_keys.go). A handler gives the status and the body of its reply, or the status and the message
-- with which it aborts; gin's context is the record of its two keys.
use cliproxy_new.Base.{
  ℕ, Bool, false, ◌||◌, Option, none, some, List, [], ◌∷◌, ℤ, is_positive, list_eq, nat_eq, ◌==◌,
  if◌then◌else◌, GoString, bytes, Result, ok, err,
}
use cliproxy_new.Auth.Identity.Sessions.{
  SessionAuthenticator, SessionError, SessionPrincipal, Request, Instant, Lookup,
  authenticate_request,
}

-- `writeError`
pub record Refusal : Type 0 where
  pub status : ℕ
  pub message : GoString

pub record Reply (A : Type 0) : Type 0 where
  pub status : ℕ
  pub body : A

unfoldable pub refuse {ℓ} : {A : Type ℓ} → ℕ → GoString → Result Refusal A
refuse status message = err (record { status = status; message = message })

unfoldable pub reply : {A : Type 0} → ℕ → A → Result Refusal (Reply A)
reply status body = ok (record { status = status; body = body })

-- `cliproxy.user_id` and `cliproxy.role` of gin's context, where they are set.
pub record Context : Type 0 where
  pub user_id : Option ℤ
  pub role : Option GoString

unfoldable pub context_of : Result SessionError SessionPrincipal → Result Refusal Context
unfolding refuse
context_of (err e) = refuse 401 (bytes "unauthorized")
context_of (ok p) = ok (record { user_id = some p.user_id; role = some p.role })

-- `SessionMiddleware`: the context of the handlers behind it.
unfoldable pub session_middleware :
    (GoString → GoString)
    → SessionAuthenticator
    → Option Request
    → Instant
    → Lookup
    → SessionAuthenticator × Result Refusal Context
session_middleware sha256_hex a request m lookup =
    let (a', answer) = authenticate_request sha256_hex a request m lookup in (a', context_of answer)

unfoldable pub allowed_role : GoString → List GoString → Bool
allowed_role role [] = false
allowed_role role (candidate ∷ allowed) = role == candidate || allowed_role role allowed

unfoldable pub allow : Option GoString → List GoString → Context → Result Refusal Context
unfolding refuse
allow none roles c = refuse 401 (bytes "unauthorized")
allow (some role) roles c =
    if allowed_role role roles then ok c else refuse 403 (bytes "access denied")

-- `RequireRole`
unfoldable pub require_role : List GoString → Context → Result Refusal Context
unfolding allow
require_role roles c = allow c.role roles c

unfoldable pub positive_user : Option ℤ → Result Refusal ℤ
unfolding refuse
positive_user none = refuse 401 (bytes "unauthorized")
positive_user (some id) =
    if is_positive id then ok id else refuse 500 (bytes "invalid session principal")

unfoldable pub current_user_id : Context → Result Refusal ℤ
unfolding positive_user
current_user_id c = positive_user c.user_id

-- The chain of a group of routes (router.go): a handler behind the middleware of sessions, and one
-- behind `RequireRole`. A middleware that aborts keeps the handler from being called.
unfoldable pub behind :
    {A S : Type 0}
    → (Context → S → Result Refusal A × S)
    → Result Refusal Context
    → S
    → Result Refusal A × S
behind handler (err refusal) s = (err refusal, s)
behind handler (ok c) s = handler c s

unfoldable pub in_role :
    {A S : Type 0}
    → List GoString
    → (Context → S → Result Refusal A × S)
    → Context
    → S
    → Result Refusal A × S
in_role roles handler c s = behind handler (require_role roles c) s

unfoldable pub in_session :
    {A S : Type 0}
    → (GoString → GoString)
    → (Context → S → Result Refusal A × S)
    → SessionAuthenticator
    → Option Request
    → Instant
    → Lookup
    → S
    → Result Refusal A × S
in_session sha256_hex handler a request m lookup s =
    behind handler (session_middleware sha256_hex a request m lookup).1 s
