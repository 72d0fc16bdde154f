-- ===== src/Auth/Identity/Sessions/Evidence.antt =====
-- Why a cached session authenticator answers a token with a principal.
use cliproxy_new.Base.{
  ℕ, ◌<◌, ◌≡◌, refl, sym, ap, subst, ◌⊎◌, inl, inr, true, false, Bool, ◌∷◌, is_empty, Option, none,
  some, List, [], ℤ, nat_eq, list_eq, GoString, Result, ok, err,
}
use cliproxy_new.Store.{StoreError}
use cliproxy_new.Store.Sessions.{Session}
use cliproxy_new.Cache
use cliproxy_new.Cache.{Ttl, add_duration}
use cliproxy_new.Cache.Entries.{Holds-new_ttl, get-Holds}
use cliproxy_new.Auth.Identity.Sessions.{
  SessionPrincipal, SessionAuthenticator, Request, Instant, Lookup, new_session_authenticator,
  new_cached_session_authenticator, principal_of, session_cache_key, looked_up, cached_or_looked_up,
  authenticate_token, authenticate_cookie, guarded_request, authenticate_request,
}
use cliproxy_new.Auth.Identity.Sessions.Fresh.{
  Action, act_all, past_of, Known, Invariant, act_all-Invariant,
}

-- The value of the session cookie of a request.
pub cookie_of : Option Request → Option GoString
cookie_of none = none
cookie_of (some request) = request.session_cookie

module _ (sha256_hex : GoString → GoString) (source : GoString) (ttl : ℤ) where
  -- Why a request with a token may be answered with a principal: the lookup gives the session now,
  -- or an earlier request was answered with it, under the same cache key, and has not expired.
  pub Evidence : List Action → GoString → Instant → Lookup → SessionPrincipal → Type 0
  unfolding principal_of
  Evidence past token m lookup p =
      (session : Session) × (p ≡ principal_of session)
      × ((lookup token source ≡ ok session)
          ⊎ ((expires : ℕ) × Known sha256_hex source ttl past
                (session_cache_key sha256_hex source token) session expires
              × (m.read < expires)))

  looked_up-Evidence :
      (past : List Action) (a : SessionAuthenticator) (token : GoString) (m : Instant)
      (lookup : Lookup) (answer : Result StoreError Session) (p : SessionPrincipal)
      → lookup token source ≡ answer
      → (looked_up sha256_hex a
          (session_cache_key sha256_hex a.identity_source token)
          m.write
          answer).1
        ≡ ok p
      → Evidence past token m lookup p
  unfolding looked_up Evidence
  looked_up-Evidence past a token m lookup (err e) p l h = cc
  looked_up-Evidence past a token m lookup (ok session) p l h = (session, cc, inl l)

  cached_or_looked_up-Evidence :
      (past : List Action) (a : SessionAuthenticator) (token : GoString) (m : Instant)
      (lookup : Lookup) (hit : Option Session) (p : SessionPrincipal)
      → a.identity_source ≡ source
      → ((session : Session)
          → hit ≡ some session
          → (expires : ℕ) × Known sha256_hex source ttl past
              (session_cache_key sha256_hex source token)
              session
              expires
            × (m.read < expires))
      → (cached_or_looked_up sha256_hex a token m lookup hit).1 ≡ ok p
      → Evidence past token m lookup p
  unfolding cached_or_looked_up Evidence
  cached_or_looked_up-Evidence past a token m lookup (some session) p s known h =
      (session, cc, inr (known session refl))
  cached_or_looked_up-Evidence past a token m lookup none p s known h =
      looked_up-Evidence past a token m lookup (lookup token a.identity_source) p
        (ap (lookup token) (sym s)) h

  authenticate_token-Evidence :
      (past : List Action) (a : SessionAuthenticator) (token : GoString) (m : Instant)
      (lookup : Lookup) (p : SessionPrincipal)
      → Invariant sha256_hex source ttl past a
      → (authenticate_token sha256_hex a token m lookup).1 ≡ ok p
      → Evidence past token m lookup p
  unfolding authenticate_token Invariant
  authenticate_token-Evidence past a token m lookup p (s, h) e =
      let key = session_cache_key sha256_hex a.identity_source token in
      cached_or_looked_up-Evidence past (record a { cache = (Cache.get a.cache key m.read).0 })
        token m lookup (Cache.get a.cache key m.read).1 p s
        (λ session hit.
          subst
            (λ x.
              (expires : ℕ) × Known sha256_hex source ttl past
                (session_cache_key sha256_hex x token) session expires
              × (m.read < expires))
            s (get-Holds (Known sha256_hex source ttl past) ttl a.cache key m.read session h hit))
        e

  authenticate_cookie-Evidence :
      (past : List Action) (a : SessionAuthenticator) (cookie : Option GoString) (m : Instant)
      (lookup : Lookup) (p : SessionPrincipal)
      → Invariant sha256_hex source ttl past a
      → (authenticate_cookie sha256_hex a cookie m lookup).1 ≡ ok p
      → (token : GoString) × (cookie ≡ some token)
        × (is_empty token ≡ false)
        × Evidence past token m lookup p
  unfolding authenticate_cookie
  authenticate_cookie-Evidence past a none m lookup p inv h = cc
  authenticate_cookie-Evidence past a (some []) m lookup p inv h = cc
  authenticate_cookie-Evidence past a (some (b ∷ token)) m lookup p inv h =
      (b ∷ token, refl, refl, authenticate_token-Evidence past a (b ∷ token) m lookup p inv h)

  guarded_request-Evidence :
      (past : List Action) (has : Bool) (a : SessionAuthenticator) (request : Option Request)
      (m : Instant) (lookup : Lookup) (p : SessionPrincipal)
      → Invariant sha256_hex source ttl past a
      → (guarded_request sha256_hex has a request m lookup).1 ≡ ok p
      → (token : GoString) × (cookie_of request ≡ some token)
        × (is_empty token ≡ false)
        × Evidence past token m lookup p
  unfolding guarded_request cookie_of
  guarded_request-Evidence past false a request m lookup p inv h = cc
  guarded_request-Evidence past true a none m lookup p inv h = cc
  guarded_request-Evidence past true a (some request) m lookup p inv h =
      authenticate_cookie-Evidence past a request.session_cookie m lookup p inv h

  -- After any history of requests and invalidations of a new cached authenticator: a request that
  -- is answered with a principal has a cookie that is not empty, for which the lookup gives a session
  -- with that user and role during the call, or for which an earlier request with the same cache key
  -- was given such a session, less than the TTL before the call reads the cache.
  pub authenticate_request-recent :
      (actions : List Action) (request : Option Request) (m : Instant) (lookup : Lookup)
      (p : SessionPrincipal)
      → (authenticate_request sha256_hex
          (act_all sha256_hex source ttl (new_cached_session_authenticator true source ttl) actions)
          request
          m
          lookup).1
        ≡ ok p
      → (token : GoString) × (cookie_of request ≡ some token)
        × (is_empty token ≡ false)
        × Evidence (past_of sha256_hex source ttl [] actions) token m lookup p
  unfolding new_cached_session_authenticator new_session_authenticator Invariant
      authenticate_request
  authenticate_request-recent actions request m lookup p h =
      let a =
        act_all sha256_hex source ttl (new_cached_session_authenticator true source ttl) actions in
      guarded_request-Evidence (past_of sha256_hex source ttl [] actions) a.has_lookup a request m
        lookup p
        (act_all-Invariant sha256_hex source ttl []
          (new_cached_session_authenticator true source ttl) actions
          (refl, Holds-new_ttl (Known sha256_hex source ttl []) ttl))
        h
