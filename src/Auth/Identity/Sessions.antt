-- ===== src/Auth/Identity/Sessions.antt =====
-- internal/auth/identity/session.go: the check of a session cookie against the lookup, with a TTL
-- cache in front. SHA-256 in hexadecimal is a parameter; the lookup is what `GetByTokenForSource`
-- answers when it is called. A nil authenticator or request is none.
pub mod Fresh
pub mod Evidence
pub mod Invalidation
use cliproxy_new.Base.{
  ℕ, ◌≡◌, Bool, true, false, ◌||◌, not, Option, none, some, List, [], ◌∷◌, ◌++◌, ℤ, int_eq, nat_eq,
  list_eq, is_positive, is_empty, if◌then◌else◌, ◌==◌, GoString, Result, ok, err,
}
use cliproxy_new.Store.{StoreError}
use cliproxy_new.Store.Sessions.{Session}
use cliproxy_new.Cache
use cliproxy_new.Cache.{Ttl, Stats}

pub data SessionError : Type 0 where
  no_session invalid_session : SessionError

pub record SessionPrincipal : Type 0 where
  pub user_id : ℤ
  pub role : GoString

pub record SessionAuthenticator : Type 0 where
  pub has_lookup : Bool
  pub identity_source : GoString
  pub cache : Option (Ttl GoString Session)

-- A request, by the value of its session cookie.
pub record Request : Type 0 where
  pub session_cookie : Option GoString

-- The clock at the read and at the write of the cache.
pub record Instant : Type 0 where
  pub read : ℕ
  pub write : ℕ

-- Token and source to the session, when the call comes to the lookup.
abbrev pub Lookup : Type 0
Lookup = GoString → GoString → Result StoreError Session

unfoldable pub new_session_authenticator : Bool → GoString → SessionAuthenticator
new_session_authenticator has_lookup identity_source = record {
  has_lookup = has_lookup;
  identity_source = identity_source;
  cache = none;
}

unfoldable pub new_cached_session_authenticator : Bool → GoString → ℤ → SessionAuthenticator
unfolding new_session_authenticator
new_cached_session_authenticator has_lookup identity_source ttl =
    record (new_session_authenticator has_lookup identity_source) { cache = Cache.new_ttl ttl }

unfoldable pub cache_stats : Option SessionAuthenticator → Stats
cache_stats none = Cache.stats {K = GoString} {V = Session} none
cache_stats (some a) = Cache.stats a.cache

is_session_of : ℤ → GoString → Session → Bool
is_session_of user_id key session = session.user_id == user_id

unfoldable pub invalidate_user : ℤ → SessionAuthenticator → SessionAuthenticator
unfolding is_session_of
invalidate_user user_id a =
    if is_positive user_id
    then record a { cache = Cache.delete_where a.cache (some (is_session_of user_id)) }
    else a

principal_of : Session → SessionPrincipal
principal_of session = record { user_id = session.user_id; role = session.role }

module _ (sha256_hex : GoString → GoString) where
  unfoldable pub session_cache_key : GoString → GoString → GoString
  session_cache_key identity_source token = sha256_hex (identity_source ++ 0 ∷ token)

  pub invalidate_token : GoString → SessionAuthenticator → SessionAuthenticator
  invalidate_token token a =
      if is_empty token
      then a
      else record a { cache = Cache.delete a.cache (session_cache_key a.identity_source token) }

  -- A session that the lookup gives is cached.
  looked_up :
      SessionAuthenticator
      → GoString
      → ℕ
      → Result StoreError Session
      → SessionAuthenticator × Result SessionError SessionPrincipal
  unfolding principal_of
  looked_up a key now (err e) = (a, err invalid_session)
  looked_up a key now (ok session) =
      (record a { cache = Cache.set a.cache key session now }, ok (principal_of session))

  cached_or_looked_up :
      SessionAuthenticator
      → GoString
      → Instant
      → Lookup
      → Option Session
      → SessionAuthenticator × Result SessionError SessionPrincipal
  unfolding looked_up
  cached_or_looked_up a token m lookup (some session) = (a, ok (principal_of session))
  cached_or_looked_up a token m lookup none =
      looked_up a (session_cache_key a.identity_source token) m.write
        (lookup token a.identity_source)

  -- The call behind its guards, for a cookie that is not empty.
  unfoldable pub authenticate_token :
      SessionAuthenticator
      → GoString
      → Instant
      → Lookup
      → SessionAuthenticator × Result SessionError SessionPrincipal
  unfolding cached_or_looked_up
  authenticate_token a token m lookup =
      let (cache, hit) = Cache.get a.cache (session_cache_key a.identity_source token) m.read in
      cached_or_looked_up (record a { cache = cache }) token m lookup hit

  authenticate_cookie :
      SessionAuthenticator
      → Option GoString
      → Instant
      → Lookup
      → SessionAuthenticator × Result SessionError SessionPrincipal
  unfolding authenticate_token
  authenticate_cookie a none m lookup = (a, err no_session)
  authenticate_cookie a (some []) m lookup = (a, err no_session)
  authenticate_cookie a (some (c ∷ token)) m lookup = authenticate_token a (c ∷ token) m lookup

  guarded_request :
      Bool
      → SessionAuthenticator
      → Option Request
      → Instant
      → Lookup
      → SessionAuthenticator × Result SessionError SessionPrincipal
  unfolding authenticate_cookie
  guarded_request false a request m lookup = (a, err invalid_session)
  guarded_request true a none m lookup = (a, err no_session)
  guarded_request true a (some request) m lookup =
      authenticate_cookie a request.session_cookie m lookup

  unfoldable pub authenticate_request :
      SessionAuthenticator
      → Option Request
      → Instant
      → Lookup
      → SessionAuthenticator × Result SessionError SessionPrincipal
  unfolding guarded_request
  authenticate_request a request m lookup = guarded_request a.has_lookup a request m lookup
