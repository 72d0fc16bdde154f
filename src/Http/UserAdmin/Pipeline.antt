-- ===== src/Http/UserAdmin/Pipeline.antt =====
-- The change of a user's status, from the session cookie to the database and the caches: the
-- group of routes of internal/httpapi/router.go, session_middleware.go and admin_users.go over
-- internal/store/admin_users.go, with the invalidators of cmd/cliproxy/main.go.
use cliproxy_new.Base.{
  ℕ, ◌≡◌, ◌≢◌, refl, ap, ◌⊎◌, inl, inr, Bool, true, Bool-cases, ◌||◌, Option, none, some, [], ◌∷◌,
  ◌==◌, ==_iff, list_eq, nat_eq, ℤ, is_positive, GoString, parse_int, Result, ok, err, arith,
}
use cliproxy_new.Store.{
  StoreError, not_found, invalid_credential, invalid_input, corrupt_credential, other, Done, active,
  blocked,
}
use cliproxy_new.Store.AdminUsers as AdminUsers
use cliproxy_new.Store.AdminUsers.{AdminQueries}
use cliproxy_new.Store.Audited.{Transaction}
use cliproxy_new.Store.AdminUsers.Atomicity.{
  StatusWritten, StatusOutcome, set_status_with_audit-Outcome,
}
use cliproxy_new.Store.ApiKeys as ApiKeys
use cliproxy_new.Store.ApiKeys.{ApiKeyRepository}
use cliproxy_new.Auth.Identity.{role_admin}
use cliproxy_new.Auth.Identity.Sessions as Sessions
use cliproxy_new.Auth.Identity.Sessions.{
  SessionAuthenticator, SessionError, SessionPrincipal, Request, Instant, Lookup,
  authenticate_request,
}
use cliproxy_new.Http.Management.{
  Refusal, Reply, refuse, reply, context_of, session_middleware, allow, allowed_role, require_role,
  positive_user, current_user_id, behind, in_role,
}
use cliproxy_new.Http.UserAdmin.{
  AdminUserHandler, invalidate_all, status_set, set_known, set_for, set_status,
}

-- The state behind the routes: the database and the two caches of principals.
pub record Served (D : Type 0) : Type 0 where
  pub database : D
  pub sessions : SessionAuthenticator
  pub keys : ApiKeyRepository

unfoldable pub on_database :
    {D : Type 0} → Served D → Result StoreError Done × D → Result StoreError Done × Served D
on_database s (result, d) = (result, record s { database = d })

module _ {D : Type 0} (valid_json : GoString → Bool) (q : AdminQueries D) (tx : Transaction) where
  unfoldable pub admin_handler : AdminUserHandler (Served D)
  unfolding on_database
  admin_handler = record {
    store = record {
      list = λ s. AdminUsers.list q s.database;
      set_status_with_audit = λ actor target status ip s.
          on_database s
            (AdminUsers.set_status_with_audit q valid_json actor target status ip tx s.database);
    };
    invalidators =
        (λ user_id s. record s { sessions = Sessions.invalidate_user user_id s.sessions })
        ∷ (λ user_id s. record s { keys = ApiKeys.invalidate_user user_id s.keys })
        ∷ [];
  }

  -- `PATCH /api/v1/admin/users/:userID`
  unfoldable pub set_status_request :
      (GoString → GoString)
      → Option Request
      → Instant
      → Lookup
      → GoString
      → Option GoString
      → Option GoString
      → Served D
      → Result Refusal (Reply Done) × Served D
  set_status_request sha256_hex request m lookup param body ip s =
      let (a, answer) = session_middleware sha256_hex s.sessions request m lookup in
      behind (in_role (role_admin ∷ []) (set_status admin_handler ip param body)) answer
        (record s { sessions = a })

  module _ (param : GoString) (body ip : Option GoString) (s : Served D) where
    -- A change that an administrator made: the writes of the store, and no principal of the target
    -- in the caches.
    pub record Changed (answer : Result SessionError SessionPrincipal) (after : Served D)
        : Type 0 where
      pub principal : SessionPrincipal
      pub confirmed : answer ≡ ok principal
      pub admin : principal.role ≡ role_admin
      pub positive : is_positive principal.user_id ≡ true
      pub target : ℤ
      pub read : parse_int param ≡ some target
      pub target_positive : is_positive target ≡ true
      pub status : GoString
      pub bound : body ≡ some status
      pub known : (status == active || status == blocked) ≡ true
      pub written :
          StatusWritten valid_json q principal.user_id target status ip s.database after.database
      pub forgotten : after.sessions ≡ Sessions.invalidate_user target s.sessions
      pub keys_forgotten : after.keys ≡ ApiKeys.invalidate_user target s.keys

    -- Who is refused with which status.
    abbrev pub Reason : Result SessionError SessionPrincipal → ℕ → Type 0
    Reason answer status =
        ((status ≡ 401) × (e : SessionError) × (answer ≡ err e))
        ⊎ ((status ≡ 403) × (p : SessionPrincipal) × (answer ≡ ok p) × (p.role ≢ role_admin))
        ⊎ (((status ≡ 400) ⊎ (status ≡ 404) ⊎ (status ≡ 500))
            × (p : SessionPrincipal) × (answer ≡ ok p)
            × (p.role ≡ role_admin))

    abbrev pub Verdict :
        Result SessionError SessionPrincipal → Result Refusal (Reply Done) × Served D → Type 0
    Verdict answer (err f, after) = Reason answer f.status × (after ≡ s)
    Verdict answer (ok r, after) = (r.status ≡ 204) × Changed answer after

    module _ (answer : Result SessionError SessionPrincipal) (p : SessionPrincipal)
        (e : answer ≡ ok p) (admin : p.role ≡ role_admin) where
      bad_request : Reason answer 400
      bad_request = inr (inr (inl refl, p, e, admin))

      missing : Reason answer 404
      missing = inr (inr (inr (inl refl), p, e, admin))

      failure : Reason answer 500
      failure = inr (inr (inr (inr refl), p, e, admin))

      stored-Verdict :
          (o : Result StoreError Done × D)
          → (target : ℤ) (status : GoString)
          → ((after : Served D)
              → StatusWritten valid_json q p.user_id target status ip s.database after.database
              → after.sessions ≡ Sessions.invalidate_user target s.sessions
              → after.keys ≡ ApiKeys.invalidate_user target s.keys
              → Changed answer after)
          → StatusOutcome valid_json q p.user_id target status ip s.database o
          → Verdict answer (status_set admin_handler.invalidators target (on_database s o))
      unfolding status_set on_database invalidate_all admin_handler refuse reply
      stored-Verdict (ok u, d) target status changed w = (refl, changed _ w refl refl)
      stored-Verdict (err not_found, d) target status changed w =
          (missing, ap (λ x. record s { database = x }) w)
      stored-Verdict (err invalid_input, d) target status changed w =
          (bad_request, ap (λ x. record s { database = x }) w)
      stored-Verdict (err invalid_credential, d) target status changed w =
          (failure, ap (λ x. record s { database = x }) w)
      stored-Verdict (err corrupt_credential, d) target status changed w =
          (failure, ap (λ x. record s { database = x }) w)
      stored-Verdict (err other, d) target status changed w =
          (failure, ap (λ x. record s { database = x }) w)

      known-Verdict :
          (target : ℤ) (found : Option GoString)
          → is_positive p.user_id ≡ true
          → parse_int param ≡ some target
          → is_positive target ≡ true
          → body ≡ found
          → Verdict answer (set_known admin_handler ip p.user_id target found s)
      unfolding set_known refuse admin_handler
      known-Verdict target none pos read target_pos bound = (bad_request, refl)
      known-Verdict target (some status) pos read target_pos bound =
          elim (Bool-cases (status == active || status == blocked)) [
            | inl known ↦ rw known (
                stored-Verdict _ target status
                  (λ after w forgotten keys. record {
                    principal = p;
                    confirmed = e;
                    admin = admin;
                    positive = pos;
                    target = target;
                    read = read;
                    target_positive = target_pos;
                    status = status;
                    bound = bound;
                    known = known;
                    written = w;
                    forgotten = forgotten;
                    keys_forgotten = keys;
                  })
                  (set_status_with_audit-Outcome valid_json q p.user_id target status ip s.database
                    tx))
            | inr unknown ↦ rw unknown (bad_request, refl)
          ]

      target-Verdict :
          (found : Option ℤ)
          → is_positive p.user_id ≡ true
          → parse_int param ≡ found
          → Verdict answer (set_for admin_handler ip (ok p.user_id) found body s)
      unfolding set_for refuse
      target-Verdict none pos read = (bad_request, refl)
      target-Verdict (some target) pos read = elim (Bool-cases (is_positive target)) [
        | inl t ↦ rw t (known-Verdict target body pos read t refl)
        | inr t ↦ rw t (bad_request, refl)
      ]

      admin-Verdict :
          Verdict answer
            (set_for admin_handler ip (positive_user (some p.user_id)) (parse_int param) body s)
      unfolding positive_user set_for refuse
      admin-Verdict = elim (Bool-cases (is_positive p.user_id)) [
        | inl pos ↦ rw pos (target-Verdict (parse_int param) pos refl)
        | inr neg ↦ rw neg (failure, refl)
      ]

    answer-Verdict :
        (answer : Result SessionError SessionPrincipal)
        → Verdict answer (
            behind
              (in_role (role_admin ∷ []) (set_status admin_handler ip param body))
              (context_of answer)
              s)
    unfolding behind in_role require_role allow allowed_role context_of set_status current_user_id
        refuse
    answer-Verdict (err e) = (inl (refl, e, refl), refl)
    answer-Verdict (ok p) = elim (Bool-cases (p.role == role_admin)) [
      | inl same ↦ rw same (admin-Verdict (ok p) p refl ((==_iff p.role role_admin).0 same))
      | inr differs ↦ rw differs (
        inr (inl (refl, p, refl, λ same. ground (arith, ==_iff p.role role_admin, same, differs))),
        refl,
      )
    ]

-- A request to change a user's status, whatever the caches, the lookup of sessions and the database
-- answer; the state that the handler meets is the one after the session was looked up. It is
-- answered 204 only if the session of its cookie is confirmed for an administrator, the parameter
-- and the body name a user and a status, the status and the administrator's audit entry of it were
-- both written, and the user's principals were dropped from the cache of sessions and from that of
-- API keys. Otherwise the database and the cache of API keys are what they were before the request,
-- the cache of sessions is what the lookup of the request's own session left, and it is answered 401
-- only if no session is confirmed, 403 only if its principal is no administrator, and else 400, 404 or 500.
pub set_status_request-Verdict :
    {D : Type 0} (valid_json : GoString → Bool) (q : AdminQueries D) (tx : Transaction)
    (sha256_hex : GoString → GoString) (request : Option Request) (m : Instant) (lookup : Lookup)
    (param : GoString) (body ip : Option GoString) (s : Served D)
    → Verdict valid_json q tx param body ip
        (record s { sessions = (authenticate_request sha256_hex s.sessions request m lookup).0 })
        (authenticate_request sha256_hex s.sessions request m lookup).1
        (set_status_request valid_json q tx sha256_hex request m lookup param body ip s)
unfolding set_status_request session_middleware
set_status_request-Verdict valid_json q tx sha256_hex request m lookup param body ip s =
    answer-Verdict valid_json q tx param body ip
      (record s { sessions = (authenticate_request sha256_hex s.sessions request m lookup).0 })
      (authenticate_request sha256_hex s.sessions request m lookup).1
