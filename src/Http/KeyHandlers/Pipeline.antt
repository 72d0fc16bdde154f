-- ===== src/Http/KeyHandlers/Pipeline.antt =====
-- The revocation of a key, from the session cookie to the store: the group of routes of
-- internal/httpapi/router.go, session_middleware.go and api_keys.go.
use cliproxy_new.Base.{
  ℕ, ◌≡◌, ◌≢◌, refl, sym, subst, ◌⊎◌, inl, inr, true, false, Bool-cases, Option, none, some, ℤ,
  is_positive, GoString, parse_int, Result, ok, err,
}
use cliproxy_new.Store.{
  StoreError, not_found, invalid_credential, invalid_input, corrupt_credential, other, Done,
}
use cliproxy_new.Auth.Identity.Sessions.{
  SessionAuthenticator, SessionError, SessionPrincipal, Request, Instant, Lookup,
  authenticate_request,
}
use cliproxy_new.Http.Management.{
  Refusal, Reply, refuse, reply, context_of, session_middleware, positive_user, current_user_id,
  behind, in_session,
}
use cliproxy_new.Http.KeyHandlers.{ApiKeyStore, revoked, revoke_for, revoke}

-- `DELETE /api/v1/me/keys/:keyID`
unfoldable pub revoke_request :
    {S : Type 0}
    → (GoString → GoString)
    → ApiKeyStore S
    → SessionAuthenticator
    → Option Request
    → Instant
    → Lookup
    → GoString
    → S
    → Result Refusal (Reply Done) × S
revoke_request sha256_hex store a request m lookup param s =
    in_session sha256_hex (λ c. revoke store c param) a request m lookup s

module _ {S : Type 0} (store : ApiKeyStore S) (param : GoString) (s : S) where
  -- The call of the store for a principal: of its own user, and of a key id that is a positive
  -- decimal number.
  pub record Called (answer : Result SessionError SessionPrincipal)
      (result : Result StoreError Done) (after : S) : Type 0 where
    pub principal : SessionPrincipal
    pub confirmed : answer ≡ ok principal
    pub positive : is_positive principal.user_id ≡ true
    pub key : ℤ
    pub read : parse_int param ≡ some key
    pub key_positive : is_positive key ≡ true
    pub call : store.revoke principal.user_id key s ≡ (result, after)

  -- A key id that is not read, or not positive.
  abbrev pub BadId : Option ℤ → Type 0
  BadId none = Unit {0}
  BadId (some key) = is_positive key ≡ false

  -- What a refusal says; but for the answers of the store, the state is what it was.
  abbrev pub Refused : Result SessionError SessionPrincipal → ℕ → S → Type 0
  Refused answer status after =
      ((status ≡ 401) × ((e : SessionError) × (answer ≡ err e)) × (after ≡ s))
      ⊎ ((status ≡ 500)
          × ((p : SessionPrincipal) × (answer ≡ ok p) × (is_positive p.user_id ≡ false))
          × (after ≡ s))
      ⊎ ((status ≡ 400)
          × ((p : SessionPrincipal) × (answer ≡ ok p))
          × BadId (parse_int param)
          × (after ≡ s))
      ⊎ ((status ≡ 404) × Called answer (err not_found) after)
      ⊎ ((status ≡ 500) × ((e : StoreError) × (e ≢ not_found) × Called answer (err e) after))

  abbrev pub Verdict :
      Result SessionError SessionPrincipal → Result Refusal (Reply Done) × S → Type 0
  Verdict answer (err f, after) = Refused answer f.status after
  Verdict answer (ok r, after) = (r.status ≡ 204) × Called answer (ok tt) after

  revoked-Verdict :
      (answer : Result SessionError SessionPrincipal) (o : Result StoreError Done × S)
      → ((result : Result StoreError Done) (after : S)
          → o ≡ (result, after)
          → Called answer result after)
      → Verdict answer (revoked o)
  unfolding revoked refuse reply
  revoked-Verdict answer (ok u, after) called = (refl, called (ok tt) after refl)
  revoked-Verdict answer (err not_found, after) called =
      inr (inr (inr (inl (refl, called (err not_found) after refl))))
  revoked-Verdict answer (err invalid_credential, after) called =
      inr (inr (inr (inr (refl, (invalid_credential, (λ e. cc), called _ after refl)))))
  revoked-Verdict answer (err invalid_input, after) called =
      inr (inr (inr (inr (refl, (invalid_input, (λ e. cc), called _ after refl)))))
  revoked-Verdict answer (err corrupt_credential, after) called =
      inr (inr (inr (inr (refl, (corrupt_credential, (λ e. cc), called _ after refl)))))
  revoked-Verdict answer (err other, after) called =
      inr (inr (inr (inr (refl, (other, (λ e. cc), called _ after refl)))))

  keyed-Verdict :
      (answer : Result SessionError SessionPrincipal) (p : SessionPrincipal) (found : Option ℤ)
      → answer ≡ ok p
      → is_positive p.user_id ≡ true
      → parse_int param ≡ found
      → Verdict answer (revoke_for store (ok p.user_id) found s)
  unfolding revoke_for refuse
  keyed-Verdict answer p none e pos read =
      inr (inr (inl (refl, (p, e), subst BadId (sym read) tt, refl)))
  keyed-Verdict answer p (some key) e pos read = elim (Bool-cases (is_positive key)) [
    | inl k ↦ rw k (
        revoked-Verdict answer (store.revoke p.user_id key s) (λ result after call. record {
          principal = p;
          confirmed = e;
          positive = pos;
          key = key;
          read = read;
          key_positive = k;
          call = call;
        }))
    | inr k ↦ rw k (inr (inr (inl (refl, (p, e), subst BadId (sym read) k, refl))))
  ]

  confirmed-Verdict :
      (answer : Result SessionError SessionPrincipal) (p : SessionPrincipal)
      → answer ≡ ok p
      → Verdict answer (revoke_for store (positive_user (some p.user_id)) (parse_int param) s)
  unfolding positive_user revoke_for refuse
  confirmed-Verdict answer p e = elim (Bool-cases (is_positive p.user_id)) [
    | inl pos ↦ rw pos (keyed-Verdict answer p (parse_int param) e pos refl)
    | inr neg ↦ rw neg (inr (inl (refl, (p, e, neg), refl)))
  ]

  answer-Verdict :
      (answer : Result SessionError SessionPrincipal)
      → Verdict answer (behind (λ c. revoke store c param) (context_of answer) s)
  unfolding behind context_of revoke current_user_id refuse
  answer-Verdict (err e) = inl (refl, (e, refl), refl)
  answer-Verdict (ok p) = confirmed-Verdict (ok p) p refl

-- A request to revoke a key, whatever the caches and the lookup of sessions answer. It is answered
-- 204 only if the session of its cookie is confirmed for a principal, the parameter is a positive
-- decimal number, and the store revoked the key of that number for that principal's user; 401 only
-- if no session is confirmed, 400 only for another parameter, 404 only if the store knows no such
-- key of that user, and 500 only for a principal without a positive id or another error of the
-- store. The store is called for no other user, and unless it is called its state is what it was.
pub revoke_request-Verdict :
    {S : Type 0} (sha256_hex : GoString → GoString) (store : ApiKeyStore S)
    (a : SessionAuthenticator) (request : Option Request) (m : Instant) (lookup : Lookup)
    (param : GoString) (s : S)
    → Verdict store param s
        (authenticate_request sha256_hex a request m lookup).1
        (revoke_request sha256_hex store a request m lookup param s)
unfolding revoke_request in_session session_middleware
revoke_request-Verdict sha256_hex store a request m lookup param s =
    answer-Verdict store param s (authenticate_request sha256_hex a request m lookup).1
