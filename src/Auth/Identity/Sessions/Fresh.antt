-- ===== src/Auth/Identity/Sessions/Fresh.antt =====
-- How old the answer behind a cached session can be, over any history of one authenticator.
use cliproxy_new.Base.{
  ℕ, ◌≡◌, refl, sym, ap, ◌∙◌, inl, inr, Bool, true, false, Option, none, some, List, [], ◌∷◌, ℤ,
  nat_eq, list_eq, is_positive, GoString, Result, ok, err, Among, Bool-cases,
}
use cliproxy_new.Store.{StoreError}
use cliproxy_new.Store.Sessions.{Session}
use cliproxy_new.Cache
use cliproxy_new.Cache.{Ttl, add_duration}
use cliproxy_new.Cache.Entries.{
  Holds, Holds-delete_where, Holds-delete, Holds-get, Holds-set, Holds-mono,
}
use cliproxy_new.Auth.Identity.Sessions.{
  SessionAuthenticator, Request, Instant, Lookup, invalidate_user, is_session_of, invalidate_token,
  session_cache_key, looked_up, cached_or_looked_up, authenticate_token, authenticate_cookie,
  guarded_request, authenticate_request,
}

pub data Action : Type 0 where
  requests : Option Request → Instant → Lookup → Action
  drops_user : ℤ → Action
  drops_token : GoString → Action

module _ (sha256_hex : GoString → GoString) (source : GoString) (ttl : ℤ) where
  unfoldable pub act : SessionAuthenticator → Action → SessionAuthenticator
  act a (requests request m lookup) = (authenticate_request sha256_hex a request m lookup).0
  act a (drops_user user_id) = invalidate_user user_id a
  act a (drops_token token) = invalidate_token sha256_hex token a

  unfoldable pub act_all : SessionAuthenticator → List Action → SessionAuthenticator
  unfolding act
  act_all a [] = a
  act_all a (x ∷ actions) = act_all (act a x) actions

  -- The actions in the reverse order.
  pub past_of : List Action → List Action → List Action
  past_of past [] = past
  past_of past (x ∷ actions) = past_of (x ∷ past) actions

  -- The lookup gave the session for the request's cookie, which has the key, and the time of the
  -- cache's write and the TTL add up to the expiry.
  pub Answered : Action → GoString → Session → ℕ → Type 0
  Answered (requests none m lookup) key session expires = ⊥
  Answered (requests (some request) m lookup) key session expires =
      (token : GoString) × (request.session_cookie ≡ some token)
      × (key ≡ session_cache_key sha256_hex source token)
      × (lookup token source ≡ ok session)
      × (expires ≡ add_duration m.write ttl)
  Answered (drops_user user_id) key session expires = ⊥
  Answered (drops_token token) key session expires = ⊥

  pub Known : List Action → GoString → Session → ℕ → Type 0
  Known past key session expires = (x : Action) × Among x past × Answered x key session expires

  unfoldable pub Invariant : List Action → SessionAuthenticator → Type 0
  Invariant past a = (a.identity_source ≡ source) × Holds (Known past) ttl a.cache

  Known-cons :
      (x : Action) (past : List Action) (key : GoString) (session : Session) (expires : ℕ)
      → Known past key session expires
      → Known (x ∷ past) key session expires
  unfolding Known
  Known-cons x past key session expires (y, m, e) = (y, inr m, e)

  Invariant-cons :
      (x : Action) (past : List Action) (a : SessionAuthenticator)
      → Invariant past a
      → Invariant (x ∷ past) a
  unfolding Invariant
  Invariant-cons x past a (s, h) =
      (s, Holds-mono (Known past) (Known (x ∷ past)) (Known-cons x past) ttl a.cache h)

  looked_up-Invariant :
      (past : List Action) (a : SessionAuthenticator) (key : GoString) (now : ℕ)
      (answer : Result StoreError Session)
      → Invariant past a
      → ((session : Session) → answer ≡ ok session → Known past key session (add_duration now ttl))
      → Invariant past (looked_up sha256_hex a key now answer).0
  unfolding Invariant looked_up
  looked_up-Invariant past a key now (err e) inv known = inv
  looked_up-Invariant past a key now (ok session) (s, h) known =
      (s, Holds-set (Known past) ttl a.cache key session now h (known session refl))

  logged :
      (past : List Action) (a : SessionAuthenticator) (request : Request) (token : GoString)
      (m : Instant) (lookup : Lookup) (session : Session)
      → Invariant past a
      → request.session_cookie ≡ some token
      → lookup token a.identity_source ≡ ok session
      → Known
          (requests (some request) m lookup ∷ past)
          (session_cache_key sha256_hex a.identity_source token)
          session
          (add_duration m.write ttl)
  unfolding Known Answered Invariant
  logged past a request token m lookup session (s, h) c answered = (
    requests (some request) m lookup,
    inl refl,
    (
      token,
      c,
      ap (λ x. session_cache_key sha256_hex x token) s,
      ap (lookup token) (sym s) ∙ answered,
      refl,
    ),
  )

  cached_or_looked_up-Invariant :
      (past : List Action) (a : SessionAuthenticator) (request : Request) (token : GoString)
      (m : Instant) (lookup : Lookup) (hit : Option Session)
      → Invariant past a
      → request.session_cookie ≡ some token
      → Invariant
          (requests (some request) m lookup ∷ past)
          (cached_or_looked_up sha256_hex a token m lookup hit).0
  unfolding cached_or_looked_up
  cached_or_looked_up-Invariant past a request token m lookup (some session) inv c =
      Invariant-cons (requests (some request) m lookup) past a inv
  cached_or_looked_up-Invariant past a request token m lookup none inv c =
      let x = requests (some request) m lookup in
      looked_up-Invariant (x ∷ past) a (session_cache_key sha256_hex a.identity_source token)
        m.write (lookup token a.identity_source) (Invariant-cons x past a inv)
        (λ session answered. logged past a request token m lookup session inv c answered)

  -- A read of the cache keeps the invariant.
  read-Invariant :
      (past : List Action) (a : SessionAuthenticator) (key : GoString) (now : ℕ)
      → Invariant past a
      → Invariant past (record a { cache = (Cache.get a.cache key now).0 })
  unfolding Invariant
  read-Invariant past a key now (s, h) = (s, Holds-get (Known past) ttl a.cache key now h)

  authenticate_cookie-Invariant :
      (past : List Action) (a : SessionAuthenticator) (request : Request) (cookie : Option GoString)
      (m : Instant) (lookup : Lookup)
      → Invariant past a
      → request.session_cookie ≡ cookie
      → Invariant
          (requests (some request) m lookup ∷ past)
          (authenticate_cookie sha256_hex a cookie m lookup).0
  unfolding authenticate_cookie authenticate_token
  authenticate_cookie-Invariant past a request none m lookup inv c =
      Invariant-cons (requests (some request) m lookup) past a inv
  authenticate_cookie-Invariant past a request (some []) m lookup inv c =
      Invariant-cons (requests (some request) m lookup) past a inv
  authenticate_cookie-Invariant past a request (some (b ∷ token)) m lookup inv c =
      let key = session_cache_key sha256_hex a.identity_source (b ∷ token) in
      cached_or_looked_up-Invariant past (record a { cache = (Cache.get a.cache key m.read).0 })
        request (b ∷ token) m lookup (Cache.get a.cache key m.read).1
        (read-Invariant past a key m.read inv) c

  guarded_request-Invariant :
      (past : List Action) (has : Bool) (a : SessionAuthenticator) (request : Option Request)
      (m : Instant) (lookup : Lookup)
      → Invariant past a
      → Invariant
          (requests request m lookup ∷ past)
          (guarded_request sha256_hex has a request m lookup).0
  unfolding guarded_request
  guarded_request-Invariant past false a request m lookup inv =
      Invariant-cons (requests request m lookup) past a inv
  guarded_request-Invariant past true a none m lookup inv =
      Invariant-cons (requests none m lookup) past a inv
  guarded_request-Invariant past true a (some request) m lookup inv =
      authenticate_cookie-Invariant past a request request.session_cookie m lookup inv refl

  invalidate_user-Invariant :
      (past : List Action) (a : SessionAuthenticator) (user_id : ℤ)
      → Invariant past a
      → Invariant past (invalidate_user user_id a)
  unfolding invalidate_user Invariant
  invalidate_user-Invariant past a user_id (s, h) = elim (Bool-cases (is_positive user_id)) [
    | inl valid ↦
        rw valid (s, Holds-delete_where (Known past) ttl a.cache (is_session_of user_id) h)
    | inr bad ↦ rw bad (s, h)
  ]

  invalidate_token-Invariant :
      (past : List Action) (a : SessionAuthenticator) (token : GoString)
      → Invariant past a
      → Invariant past (invalidate_token sha256_hex token a)
  unfolding invalidate_token Invariant
  invalidate_token-Invariant past a [] inv = inv
  invalidate_token-Invariant past a (c ∷ token) (s, h) = (
    s,
    Holds-delete (Known past) ttl a.cache
        (session_cache_key sha256_hex a.identity_source (c ∷ token)) h,
  )

  act-Invariant :
      (past : List Action) (a : SessionAuthenticator) (x : Action)
      → Invariant past a
      → Invariant (x ∷ past) (act a x)
  unfolding act authenticate_request
  act-Invariant past a (requests request m lookup) inv =
      guarded_request-Invariant past a.has_lookup a request m lookup inv
  act-Invariant past a (drops_user user_id) inv =
      Invariant-cons (drops_user user_id) past (invalidate_user user_id a)
        (invalidate_user-Invariant past a user_id inv)
  act-Invariant past a (drops_token token) inv =
      Invariant-cons (drops_token token) past (invalidate_token sha256_hex token a)
        (invalidate_token-Invariant past a token inv)

  pub act_all-Invariant :
      (past : List Action) (a : SessionAuthenticator) (actions : List Action)
      → Invariant past a
      → Invariant (past_of past actions) (act_all a actions)
  unfolding act_all past_of
  act_all-Invariant past a [] inv = inv
  act_all-Invariant past a (x ∷ actions) inv =
      act_all-Invariant (x ∷ past) (act a x) actions (act-Invariant past a x inv)
