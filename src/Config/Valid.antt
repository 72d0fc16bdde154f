-- ===== src/Config/Valid.antt =====
-- The results of `Validate` in internal/config/config.go.
use cliproxy_new.Base.{
  ◌≡◌, ◌≢◌, refl, ◌⊎◌, inl, inr, Bool, true, false, ◌&&◌, ◌||◌, not, Option, none, some, List, [],
  ◌∷◌, list_eq, nat_eq, if◌then◌else◌, ◌==◌, ==_iff, is_empty, GoString, bytes, trim_space, All,
  arith, Bool-cases,
}
use cliproxy_new.Config.{
  Config, ConfigError, Url, production, is_environment, static_error, mode_error, trimmed,
  is_origin_url, valid_cors_origins, config_error, validate, unknown_environment, invalid_origin,
  unknown_mode, static_in_production, no_static_credentials, unknown_role,
}

-- A static identity outside production, with a name, a password and a known role.
IsStatic : Config → Type 0
IsStatic c =
    (c.auth.mode ≡ bytes "static")
    × (c.server.environment ≢ production)
    × (is_empty (trim_space c.auth.static_username) ≡ false)
    × (is_empty c.auth.static_password ≡ false)
    × ((trim_space c.auth.static_role ≡ bytes "user")
        ⊎ (trim_space c.auth.static_role ≡ bytes "admin"))

-- An origin that parses, with an http scheme and a host and without user, path, query and fragment.
-- A `?` with nothing behind it is let through.
pub IsOrigin : (GoString → Option Url) → GoString → Type 0
IsOrigin parse o =
    (u : Url) × (parse o ≡ some u)
    × ((u.scheme ≡ bytes "http") ⊎ (u.scheme ≡ bytes "https"))
    × (is_empty u.host ≡ false)
    × (u.has_user ≡ false)
    × (is_empty u.path ≡ true)
    × (is_empty u.raw_query ≡ true)
    × (is_empty u.fragment ≡ true)

pub IsKnown : GoString → Type 0
IsKnown e = (e ≡ bytes "development") ⊎ (e ≡ bytes "test") ⊎ (e ≡ bytes "production")

-- A known environment, such origins, and LDAP or such a static identity.
pub Sound : (GoString → Option Url) → Config → Type 0
unfolding IsStatic IsOrigin IsKnown
Sound parse c =
    IsKnown c.server.environment
    × All (IsOrigin parse) c.server.cors_allowed_origins
    × ((c.auth.mode ≡ bytes "ldap") ⊎ IsStatic c)

either_equal : (a b c : GoString) → ((a == b) || (a == c)) ≡ true → (a ≡ b) ⊎ (a ≡ c)
either_equal a b c h = elim (Bool-cases (a == b)) [
  | inl same ↦ inl ((==_iff a b).0 same)
  | inr different ↦ inr ((==_iff a c).0 (ground arith))
]

environment-IsKnown : (e : GoString) → is_environment e ≡ true → IsKnown e
unfolding is_environment IsKnown production
environment-IsKnown e h = elim (Bool-cases (e == bytes "development")) [
  | inl same ↦ inl ((==_iff e (bytes "development")).0 same)
  | inr different ↦ inr (either_equal e (bytes "test") (bytes "production") (rw different at h))
]

origin_tests :
    (s h u p q f a b : Bool)
    → (not (s || h || u || not p || not q || not f) && (a || b)) ≡ true
    → (h ≡ false) × (u ≡ false) × (p ≡ true) × (q ≡ true) × (f ≡ true) × ((a || b) ≡ true)
origin_tests s h u p q f a b t = ground arith

url-IsOrigin :
    (parse : GoString → Option Url) (o : GoString) (found : Option Url)
    → parse o ≡ found
    → is_origin_url found ≡ true
    → IsOrigin parse o
unfolding is_origin_url IsOrigin
url-IsOrigin parse o none e h = cc
url-IsOrigin parse o (some u) e h =
    let (host, user, path, query, fragment, scheme) =
      origin_tests (is_empty u.scheme) (is_empty u.host) u.has_user (is_empty u.path)
        (is_empty u.raw_query) (is_empty u.fragment) (u.scheme == bytes "http")
        (u.scheme == bytes "https") h in
    (
      u,
      e,
      either_equal u.scheme (bytes "http") (bytes "https") scheme,
      host,
      user,
      path,
      query,
      fragment,
    )

neither : (a b : Bool) → (a || b) ≡ false → (a ≡ false) × (b ≡ false)
neither true b h = cc
neither false b h = (refl, h)

passed :
    (test : Bool) (e : ConfigError) (rest : Option ConfigError)
    → (if test then some e else rest) ≡ none
    → (test ≡ false) × (rest ≡ none)
passed true e rest h = cc
passed false e rest h = (refl, h)

required :
    (test : Bool) (e : ConfigError) (rest : Option ConfigError)
    → (if test then rest else some e) ≡ none
    → (test ≡ true) × (rest ≡ none)
required true e rest h = (refl, h)
required false e rest h = cc

static_error-IsStatic :
    (c : Config) → c.auth.mode ≡ bytes "static" → static_error c ≡ none → IsStatic c
unfolding static_error IsStatic
static_error-IsStatic c mode h =
    let (outside, rest) = passed (c.server.environment == production) static_in_production _ h in
    let (filled, known) =
      passed (is_empty (trim_space c.auth.static_username) || is_empty c.auth.static_password)
        no_static_credentials _ rest in
    let (named, secret) =
      neither (is_empty (trim_space c.auth.static_username)) (is_empty c.auth.static_password)
        filled in
    let (role, done) = required _ unknown_role none known in
    (
      mode,
      (λ same. cc ((==_iff c.server.environment production).1 same, outside)),
      named,
      secret,
      either_equal (trim_space c.auth.static_role) (bytes "user") (bytes "admin") role,
    )

mode_error-Sound : (c : Config) → mode_error c ≡ none → (c.auth.mode ≡ bytes "ldap") ⊎ IsStatic c
unfolding mode_error
mode_error-Sound c h = elim (Bool-cases (c.auth.mode == bytes "ldap")) [
  | inl ldap ↦ inl ((==_iff c.auth.mode (bytes "ldap")).0 ldap)
  | inr not_ldap ↦
      let (mode, rest) =
        required (c.auth.mode == bytes "static") unknown_mode (static_error c)
          (simp not_ldap at h) in
      inr (static_error-IsStatic c ((==_iff c.auth.mode (bytes "static")).0 mode) rest)
]

module _ (parse : GoString → Option Url) where
  valid_cors_origins-All :
      (os : List GoString) → valid_cors_origins parse os ≡ true → All (IsOrigin parse) os
  unfolding valid_cors_origins
  valid_cors_origins-All [] h = tt
  valid_cors_origins-All (o ∷ os) h = elim (Bool-cases (is_origin_url (parse o))) [
    | inl good ↦
        (url-IsOrigin parse o (parse o) refl good, valid_cors_origins-All os (simp good at h))
    | inr bad ↦ cc (h, bad)
  ]

  config_error-Sound : (c : Config) → config_error parse c ≡ none → Sound parse c
  unfolding config_error Sound
  config_error-Sound c h =
      let (environment, rest) =
        required (is_environment c.server.environment) unknown_environment _ h in
      let (origins, mode) =
        required (valid_cors_origins parse c.server.cors_allowed_origins) invalid_origin
          (mode_error c) rest in
      (
        environment-IsKnown c.server.environment environment,
        valid_cors_origins-All c.server.cors_allowed_origins origins,
        mode_error-Sound c mode,
      )

  -- The configuration that `Validate` leaves, when it returns no error, has a known environment,
  -- allowed origins that each parse to a URL with an http scheme and a host and without user, path,
  -- query and fragment (an empty query behind a `?` is none), and the LDAP mode or else, outside production only, a static identity with a name, a password and a known role.
  pub validate-Sound : (c : Config) → (validate parse c).1 ≡ none → Sound parse (validate parse c).0
  unfolding validate
  validate-Sound c h = config_error-Sound (trimmed c) h
