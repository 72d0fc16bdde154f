-- ===== src/Auth/Identity/Static.antt =====
-- internal/auth/identity/static.go: the one user of the environment. The digest is a parameter; its
-- comparison in constant time is equality.
use cliproxy_new.Base.{
  ◌≡◌, refl, sym, ap, subst, ◌⊎◌, ◌↔◌, ◌∙◌, Bool, true, false, ◌&&◌, ◌||◌, not, [], ◌++◌, GoString,
  bytes, ◌==◌, ==_iff, nat_eq, list_eq, if◌then◌else◌, is_empty, trim_space, has_prefix, Result, ok,
  err,
}
use cliproxy_new.Store.{static}
use cliproxy_new.Auth.Identity.{
  Identity, IdentityError, invalid_credentials, invalid_configuration, role_user, role_admin,
  known_role,
}

unfoldable pub static_username_prefix : GoString
static_username_prefix = bytes "static:"

pub record StaticProvider : Type 0 where
  pub username : GoString
  pub username_digest : GoString
  pub password_digest : GoString
  pub role : GoString

-- `NewStaticProvider` behind `TrimSpace`.
pub provider_of :
    (GoString → GoString) → GoString → GoString → GoString → Result IdentityError StaticProvider
unfolding static_username_prefix role_user role_admin
provider_of digest username password role =
    if is_empty username || is_empty password || has_prefix username static_username_prefix
    then err invalid_configuration
    else (if not (role == role_user) && not (role == role_admin)
        then err invalid_configuration
        else ok (record {
          username = username;
          username_digest = digest username;
          password_digest = digest password;
          role = role;
        }))

pub new_static_provider :
    (GoString → GoString) → GoString → GoString → GoString → Result IdentityError StaticProvider
new_static_provider digest username password role =
    provider_of digest (trim_space username) password role

-- The identity that is confirmed.
confirmed : StaticProvider → Identity
unfolding static_username_prefix
confirmed p = record {
  username = static_username_prefix ++ p.username;
  email = [];
  role = p.role;
  source = static;
}

unfoldable pub authenticate :
    (GoString → GoString) → StaticProvider → GoString → GoString → Result IdentityError Identity
unfolding confirmed
authenticate digest p username password =
    if (p.username_digest == digest username) && (p.password_digest == digest password)
    then ok (confirmed p)
    else err invalid_credentials

-- No two texts with the same digest.
pub IsInjective : (GoString → GoString) → Type 0
IsInjective digest = (s t : GoString) → digest s ≡ digest t → s ≡ t

-- What `NewStaticProvider` accepts, and what it makes of it.
Accepted : (GoString → GoString) → GoString → GoString → StaticProvider → Type 0
Accepted digest username password p =
    (p.username ≡ username)
    × (p.username_digest ≡ digest username)
    × (p.password_digest ≡ digest password)
    × ((p.role ≡ role_user) ⊎ (p.role ≡ role_admin))

passed :
    (bad : Bool) (rest : Result IdentityError StaticProvider) (p : StaticProvider)
    → (if bad then err invalid_configuration else rest) ≡ ok p
    → (bad ≡ false) × (rest ≡ ok p)
passed true rest p h = cc
passed false rest p h = (refl, h)

provider_injective :
    (p q : StaticProvider) → (if true then ok p else err invalid_configuration) ≡ ok q → p ≡ q
provider_injective p q h = cc

matched :
    (a b : Bool) (whom i : Identity)
    → (if a && b then ok whom else err invalid_credentials) ≡ ok i
    → (a ≡ true) × (b ≡ true)
matched true true whom i h = (refl, refl)
matched true false whom i h = cc
matched false b whom i h = cc

provider_of-Accepted :
    (digest : GoString → GoString) (username password role : GoString) (p : StaticProvider)
    → provider_of digest username password role ≡ ok p
    → Accepted digest username password p
unfolding provider_of Accepted
provider_of-Accepted digest username password role p h =
    let (good, rest) = passed _ _ p h in
    let (named, made) = passed _ _ p rest in
    let same = provider_injective _ p made in
    (
      sym (ap (λ r. r.username) same),
      sym (ap (λ r. r.username_digest) same),
      sym (ap (λ r. r.password_digest) same),
      subst (λ r. (r ≡ role_user) ⊎ (r ≡ role_admin)) (ap (λ r. r.role) same)
          (known_role role named),
    )

-- For a digest that no two texts share: a provider that `NewStaticProvider` made confirms a name
-- and a password if and only if they are the configured password and the configured name without
-- its outer white space.
pub authenticate_iff :
    (digest : GoString → GoString) (username password role : GoString) (p : StaticProvider)
    (name pass : GoString)
    → IsInjective digest
    → new_static_provider digest username password role ≡ ok p
    → ((i : Identity) × (authenticate digest p name pass ≡ ok i))
      ↔ ((name ≡ trim_space username) × (pass ≡ password))
unfolding new_static_provider Accepted authenticate IsInjective
authenticate_iff digest username password role p name pass inj made =
    let (n, u, w, r) = provider_of-Accepted digest (trim_space username) password role p made in
    (
      (λ found.
          let (a, b) = matched _ _ _ found.0 found.1 in
          (
            sym (
                inj (trim_space username) name
                  (sym u ∙ (==_iff p.username_digest (digest name)).0 a)),
            sym (inj password pass (sym w ∙ (==_iff p.password_digest (digest pass)).0 b)),
          )),
      (λ same. (
        confirmed p,
        rw
            (
              (==_iff p.username_digest (digest name)).1 (u ∙ ap digest (sym same.0)),
              (==_iff p.password_digest (digest pass)).1 (w ∙ ap digest (sym same.1)),
            )
            refl,
      )),
    )
