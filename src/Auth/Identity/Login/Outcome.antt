-- ===== src/Auth/Identity/Login/Outcome.antt =====
-- What a login did when it succeeds.
use cliproxy_new.Base.{
  ℕ, ◌+◌, ◌≡◌, refl, ap, ◌∙◌, list_beq, ◌⊎◌, inl, inr, Bool, true, false, not, nat_eq, list_eq,
  if◌then◌else◌, ◌==◌, ==_iff, GoString, Result, ok, err, Bool-cases,
}
use cliproxy_new.Store.{StoreError, active, ldap, static}
use cliproxy_new.Store.Users.{User}
use cliproxy_new.Store.Sessions.{Session}
use cliproxy_new.Auth.Identity.{Identity, IdentityError, role_user, role_admin, known_role}
use cliproxy_new.Auth.Identity.Login.{
  LoginService, LoginResult, session_ttl, params_of, provisioned, provision_by, provision, finish,
  session_params, start_session, admitted, login_as, login,
}

-- A known role, with how long its sessions live: five minutes, or ten hours.
pub Lifetime : GoString → Type 0
Lifetime role =
    ((role ≡ role_user) × (session_ttl role ≡ 300_000_000_000))
    ⊎ ((role ≡ role_admin) × (session_ttl role ≡ 36_000_000_000_000))

role-Lifetime : (role : GoString) → (role ≡ role_user) ⊎ (role ≡ role_admin) → Lifetime role
unfolding Lifetime session_ttl role_user role_admin list_beq
role-Lifetime role (inl e) = inl (e, ap session_ttl e ∙ refl)
role-Lifetime role (inr e) = inr (e, ap session_ttl e ∙ refl)

not-false : (b : Bool) → not b ≡ false → b ≡ true
not-false true h = refl
not-false false h = cc

past :
    {D : Type 0} (refused : Bool) (e : IdentityError) (d : D)
    (rest : Result IdentityError LoginResult × D) (r : LoginResult) (after : D)
    → (if refused then (err e, d) else rest) ≡ (ok r, after)
    → (refused ≡ false) × (rest ≡ (ok r, after))
past true e d rest r after h = cc
past false e d rest r after h = (refl, h)

module _ {D : Type 0} (s : LoginService D) (token : GoString) (now : ℕ) where
  -- The session of a user was created in a state, and the result tells of it.
  Created : User → Identity → D → LoginResult → D → Type 0
  unfolding session_params
  Created user i before r after =
      (user.status ≡ active)
      × ((session : Session) × (s.create_session (session_params s token now user i) before
            ≡ (ok session, after)))
      × (r ≡ record {
        user_id = user.id;
        role = i.role;
        token = token;
        expires_at = now + session_ttl i.role;
      })

  -- What the service did for a confirmed identity: its source is the configured one, its role is
  -- known, the upsert of that source gave an active user, and a session was created for that user.
  pub LoggedIn : Identity → D → LoginResult → D → Type 0
  unfolding Created params_of
  LoggedIn i d r after =
      (i.source ≡ s.identity_source)
      × Lifetime i.role
      × ((user : User) × (stored : D) × (((i.source ≡ static)
              × (s.upsert_static (params_of i) d ≡ (ok user, stored)))
            ⊎ ((i.source ≡ ldap) × (s.upsert_from_ldap (params_of i) d ≡ (ok user, stored))))
          × Created user i stored r after)

  provisioned-ok :
      (o : Result StoreError User × D) (user : User) (stored : D)
      → provisioned o ≡ (ok user, stored)
      → o ≡ (ok user, stored)
  unfolding provisioned
  provisioned-ok (err e, d) user stored h = cc
  provisioned-ok (ok u, d) user stored h = cc

  provision_by-ok :
      (i : Identity) (is_static is_ldap : Bool) (d : D) (user : User) (stored : D)
      → (i.source == static) ≡ is_static
      → (i.source == ldap) ≡ is_ldap
      → provision_by s i is_static is_ldap d ≡ (ok user, stored)
      → ((i.source ≡ static) × (s.upsert_static (params_of i) d ≡ (ok user, stored)))
        ⊎ ((i.source ≡ ldap) × (s.upsert_from_ldap (params_of i) d ≡ (ok user, stored)))
  unfolding provision_by
  provision_by-ok i true b d user stored e f h =
      inl (
        (==_iff i.source static).0 e,
        provisioned-ok (s.upsert_static (params_of i) d) user stored h,
      )
  provision_by-ok i false true d user stored e f h = inr (
    (==_iff i.source ldap).0 f,
    provisioned-ok (s.upsert_from_ldap (params_of i) d) user stored h,
  )
  provision_by-ok i false false d user stored e f h = cc

  finish-ok :
      (user : User) (i : Identity) (o : Result StoreError Session × D) (r : LoginResult) (after : D)
      → finish s token now user i o ≡ (ok r, after)
      → ((session : Session) × (o ≡ (ok session, after)))
        × (r ≡ record {
          user_id = user.id;
          role = i.role;
          token = token;
          expires_at = now + session_ttl i.role;
        })
  unfolding finish
  finish-ok user i (err e, d) r after h = cc
  finish-ok user i (ok session, d) r after h = ((session, cc), cc)

  start_session-ok :
      (i : Identity) (o : Result IdentityError User × D) (r : LoginResult) (after : D)
      → start_session s token now i o ≡ (ok r, after)
      → (user : User) × (stored : D) × (o ≡ (ok user, stored)) × Created user i stored r after
  unfolding start_session Created
  start_session-ok i (err e, d) r after h = cc
  start_session-ok i (ok user, d) r after h = elim (Bool-cases (user.status == active)) [
    | inl on ↦
        let made =
          finish-ok user i (s.create_session (session_params s token now user i) d) r after
            (simp on at h) in
        (user, d, refl, ((==_iff user.status active).0 on, made.0, made.1))
    | inr off ↦ cc (h, off)
  ]

  admitted-LoggedIn :
      (i : Identity) (d : D) (r : LoginResult) (after : D)
      → admitted s token now i d ≡ (ok r, after)
      → LoggedIn i d r after
  unfolding admitted LoggedIn provision
  admitted-LoggedIn i d r after h =
      let (matching, rest) = past _ _ _ _ r after h in
      let (known, started) = past _ _ _ _ r after rest in
      let (user, stored, o, created) = start_session-ok i (provision s i d) r after started in
      (
        (==_iff i.source s.identity_source).0 (not-false (i.source == s.identity_source) matching),
        role-Lifetime i.role (known_role i.role known),
        (
          user,
          stored,
          provision_by-ok i (i.source == static) (i.source == ldap) d user stored refl refl o,
          created,
        ),
      )

  login_as-LoggedIn :
      (confirmed : Result IdentityError Identity) (d : D) (r : LoginResult) (after : D)
      → login_as s token now confirmed d ≡ (ok r, after)
      → (i : Identity) × (confirmed ≡ ok i) × LoggedIn i d r after
  unfolding login_as
  login_as-LoggedIn (err e) d r after h = cc
  login_as-LoggedIn (ok i) d r after h = (i, refl, admitted-LoggedIn i d r after h)

  -- When `Login` of a configured service succeeds: the provider confirmed an identity of the
  -- configured source with a known role; the upsert for that source stored it as an active user;
  -- and one session was created for that user, with the identity's role and the token of the
  -- result, that expires the lifetime of the role after now, five minutes for a user and ten hours
  -- for an administrator, as the result says.
  pub login-LoggedIn :
      (username password : GoString) (d : D) (r : LoginResult) (after : D)
      → login s token now username password d ≡ (ok r, after)
      → (i : Identity) × (s.provider username password ≡ ok i) × LoggedIn i d r after
  unfolding login
  login-LoggedIn username password d r after h =
      login_as-LoggedIn (s.provider username password) d r after h
