-- ===== src/Auth/Identity/Sessions/Invalidation.antt =====
-- What an authenticator answers after the sessions of a user, or one token, are dropped.
use cliproxy_new.Base.{
  ℕ, ◌≡◌, ◌≢◌, refl, sym, ap, ◌∙◌, ◌⊎◌, inl, inr, true, false, Option, none, some, [], ◌∷◌, ℤ,
  int_eq, nat_eq, list_eq, is_positive, is_empty, if◌then◌else◌, ==_iff, ==_refl, GoString, Result,
  ok, err, arith,
}
use cliproxy_new.Store.{StoreError}
use cliproxy_new.Store.Sessions.{Session}
use cliproxy_new.Cache
use cliproxy_new.Cache.Reads.{
  visible, get-visible, visible-delete, visible-delete_where, unless_match,
}
use cliproxy_new.Auth.Identity.Sessions.{
  SessionPrincipal, SessionAuthenticator, Instant, Lookup, invalidate_user, is_session_of,
  invalidate_token, principal_of, session_cache_key, looked_up, cached_or_looked_up,
  authenticate_token,
}

unmatched :
    (user_id : ℤ) (key : GoString) (o : Option Session) (session : Session)
    → session.user_id ≡ user_id
    → unless_match (is_session_of user_id) key o ≢ some session
unfolding is_session_of
unmatched user_id key none session same = ground arith
unmatched user_id key (some x) session same = ground (arith, ==_iff x.user_id user_id)

dropped_user :
    (user_id : ℤ) (a : SessionAuthenticator) (key : GoString) (m : Instant)
    → is_positive user_id ≡ true
    → visible (invalidate_user user_id a).cache key m.read
      ≡ unless_match (is_session_of user_id) key (visible a.cache key m.read)
unfolding invalidate_user
dropped_user user_id a key m valid =
    rw valid (visible-delete_where a.cache (is_session_of user_id) key m.read)

module _ (sha256_hex : GoString → GoString) where
  -- The lookup gives a session with the principal, during the call.
  pub Confirmed : SessionAuthenticator → GoString → Lookup → SessionPrincipal → Type 0
  unfolding principal_of
  Confirmed a token lookup p =
      (session : Session) × (lookup token a.identity_source ≡ ok session)
      × (p ≡ principal_of session)

  looked_up-Confirmed :
      (a : SessionAuthenticator) (key token : GoString) (m : Instant) (lookup : Lookup)
      (answer : Result StoreError Session) (p : SessionPrincipal)
      → lookup token a.identity_source ≡ answer
      → (looked_up sha256_hex a key m.write answer).1 ≡ ok p
      → Confirmed a token lookup p
  unfolding looked_up Confirmed
  looked_up-Confirmed a key token m lookup (err e) p l h = cc
  looked_up-Confirmed a key token m lookup (ok session) p l h = (session, l, cc)

  cached_or_Confirmed :
      (a : SessionAuthenticator) (token : GoString) (m : Instant) (lookup : Lookup)
      (hit : Option Session) (p : SessionPrincipal)
      → (cached_or_looked_up sha256_hex a token m lookup hit).1 ≡ ok p
      → ((session : Session) × (hit ≡ some session) × (p ≡ principal_of session))
        ⊎ Confirmed a token lookup p
  unfolding cached_or_looked_up
  cached_or_Confirmed a token m lookup (some session) p h = inl (session, refl, cc)
  cached_or_Confirmed a token m lookup none p h = inr (
      looked_up-Confirmed a (session_cache_key sha256_hex a.identity_source token) token m lookup
        (lookup token a.identity_source) p refl h)

  -- An answer is the cache's, or the lookup's.
  authenticate_token-Confirmed :
      (a : SessionAuthenticator) (token : GoString) (m : Instant) (lookup : Lookup)
      (p : SessionPrincipal)
      → (authenticate_token sha256_hex a token m lookup).1 ≡ ok p
      → ((session : Session) × (visible a.cache
              (session_cache_key sha256_hex a.identity_source token)
              m.read
            ≡ some session)
          × (p ≡ principal_of session))
        ⊎ Confirmed a token lookup p
  unfolding authenticate_token Confirmed
  authenticate_token-Confirmed a token m lookup p h =
      let key = session_cache_key sha256_hex a.identity_source token in
      elim (cached_or_Confirmed (record a { cache = (Cache.get a.cache key m.read).0 }) token m
        lookup (Cache.get a.cache key m.read).1 p h) [
          | inl hit ↦ inl (hit.0, sym (get-visible a.cache key m.read) ∙ hit.1, hit.2)
          | inr confirmed ↦ inr confirmed
        ]

  -- After `InvalidateUser` of a positive user ID, a token is answered with that user only if the
  -- lookup gives such a session for it during the call, whatever was cached before.
  pub invalidate_user-Confirmed :
      (user_id : ℤ) (a : SessionAuthenticator) (token : GoString) (m : Instant) (lookup : Lookup)
      (p : SessionPrincipal)
      → is_positive user_id ≡ true
      → p.user_id ≡ user_id
      → (authenticate_token sha256_hex (invalidate_user user_id a) token m lookup).1 ≡ ok p
      → Confirmed (invalidate_user user_id a) token lookup p
  unfolding principal_of
  invalidate_user-Confirmed user_id a token m lookup p valid same h =
      let b = invalidate_user user_id a in
      elim (authenticate_token-Confirmed b token m lookup p h) [
        | inl hit ↦ absurd (
            unmatched user_id (session_cache_key sha256_hex b.identity_source token)
              (visible a.cache (session_cache_key sha256_hex b.identity_source token) m.read) hit.0
              (sym (ap (λ x. x.user_id) hit.2) ∙ same)
              (sym (
                  dropped_user user_id a (session_cache_key sha256_hex b.identity_source token) m
                    valid)
                ∙ hit.1))
        | inr confirmed ↦ confirmed
      ]

  dropped_token :
      (a : SessionAuthenticator) (c : ℕ) (token : GoString) (m : Instant)
      → visible
          (invalidate_token sha256_hex (c ∷ token) a).cache
          (session_cache_key sha256_hex
            (invalidate_token sha256_hex (c ∷ token) a).identity_source
            (c ∷ token))
          m.read
        ≡ none
  unfolding invalidate_token
  dropped_token a c token m =
      let key = session_cache_key sha256_hex a.identity_source (c ∷ token) in
      visible-delete a.cache key key m.read
      ∙ ap (λ t. if t then none else visible a.cache key m.read) (==_refl key)

  -- After `InvalidateToken` of a token that is not empty, the token is answered only with what the
  -- lookup gives for it during the call, whatever was cached before.
  pub invalidate_token-Confirmed :
      (a : SessionAuthenticator) (token : GoString) (m : Instant) (lookup : Lookup)
      (p : SessionPrincipal)
      → is_empty token ≡ false
      → (authenticate_token sha256_hex (invalidate_token sha256_hex token a) token m lookup).1
        ≡ ok p
      → Confirmed (invalidate_token sha256_hex token a) token lookup p
  invalidate_token-Confirmed a [] m lookup p filled h = cc
  invalidate_token-Confirmed a (c ∷ token) m lookup p filled h =
      let b = invalidate_token sha256_hex (c ∷ token) a in
      elim (authenticate_token-Confirmed b (c ∷ token) m lookup p h) [
        | inl hit ↦ cc (dropped_token a c token m, hit.1)
        | inr confirmed ↦ confirmed
      ]
